-- ===== src/MachOImage/Commands.antt =====
-- The load commands as a list, and the searches as functions of that list.
use dynld.Prelude.{
  ℕ, zero, suc, ◌+◌, ◌-◌, ◌≡◌, refl, inl, inr, Option, none, some, List, [], ◌∷◌, arith, ◌==◌,
  if◌then◌else◌, Bool-cases, get_elem?, Bytes, ◌>>=◌, Result, ok_injective, by_bind, bind_cong, ok,
  err, panic, out_of_fuel,
}
use dynld.Scroll.{Scroll}
use dynld.MachOImage.{
  MachOImage, Command, size_of_mach_header_64, is_dylib_dependency_command, mach_header_read,
  load_command_read, load_commands_loop, load_commands_find, dylib_install_name_read,
  install_path_visit, dylib_install_path_for_ordinal,
}

-- The commands that open a dylib dependency, in order.
unfoldable pub dependencies : List Command → List Command
dependencies [] = []
dependencies ((cmd, offset) ∷ cs) =
    if is_dylib_dependency_command cmd then (cmd, offset) ∷ dependencies cs else dependencies cs

-- A search over a list of commands.
unfoldable pub find_in :
    {S T : Type 0}
    → (S → Command → Result (S × Option T))
    → List Command
    → S
    → Result (S × Option T)
find_in visit [] st = ok (st, none)
find_in visit (c ∷ cs) st = visit st c >>= λ (st', found). elim found [
  | some t ↦ ok (st', some t)
  | none ↦ find_in visit cs st'
]

unless_found :
    {S T : Type 0} (st : S) (found : Option T) {f g : Result (S × Option T)}
    → f ≡ g
    → let go : Result (S × Option T) → Result (S × Option T) =
        λ next. elim found [ some t ↦ ok (st, some t) | none ↦ next ] in
      go f ≡ go g
unless_found st none e = e
unless_found st (some t) e = refl

module _ (s : Scroll) where
  commands_loop : ℕ → MachOImage → ℕ → Result (List Command)
  commands_loop zero image offset = ok []
  commands_loop (suc n) image offset = do
    command ← load_command_read s image offset
    rest ← commands_loop n image (offset + command.cmdsize)
    ok ((command.cmd, offset) ∷ rest)

  -- All load commands of an image, with their offsets.
  unfoldable pub commands_read : MachOImage → Result (List Command)
  unfolding commands_loop
  commands_read image = do
    header ← mach_header_read s image
    commands_loop header.ncmds image (image.mach_header_offset + size_of_mach_header_64)

  load_commands_loop-find_in :
      {S T : Type 0} (n : ℕ) (image : MachOImage) (offset : ℕ)
      (visit : S → Command → Result (S × Option T)) (st : S) (cs : List Command)
      → commands_loop n image offset ≡ ok cs
      → load_commands_loop s n image offset visit st ≡ find_in visit cs st
  unfolding commands_loop load_commands_loop find_in
  load_commands_loop-find_in zero image offset visit st cs h = rw (← ok_injective h)
  load_commands_loop-find_in (suc n) image offset visit st cs h =
      by_bind (load_command_read s image offset) _ h λ command e h'.
        by_bind (commands_loop n image (offset + command.cmdsize)) _ h' λ rest e' h''.
          rw (e, ← ok_injective h'')
            (bind_cong (visit st (command.cmd, offset)) λ (st', found).
              unless_found st' found (load_commands_loop-find_in n image _ visit st' rest e'))

  -- When all commands can be read, a search sees them in order and stops at its first find.
  pub load_commands_find-find_in :
      {S T : Type 0} (image : MachOImage) (visit : S → Command → Result (S × Option T)) (st : S)
      (cs : List Command)
      → commands_read image ≡ ok cs
      → load_commands_find s image visit st ≡ find_in visit cs st
  unfolding commands_read load_commands_find
  load_commands_find-find_in image visit st cs h =
      by_bind (mach_header_read s image) _ h
        λ header e h'. rw e (load_commands_loop-find_in header.ncmds image _ visit st cs h')

  -- The name at the `k`-th command of a list, from 0.
  abbrev pub name_at : MachOImage → Option Command → Result (Option Bytes)
  name_at image none = ok none
  name_at image (some (cmd, offset)) =
      dylib_install_name_read s image offset >>= λ name. ok (some name)

  -- The name that is read ends the search.
  install_path_here :
      (m : Result Bytes) (seen : ℕ) (next : ℕ → Result (ℕ × Option Bytes))
      → ((m >>= λ name. ok (seen, some name))
          >>= (λ (st, found). elim found [ some t ↦ ok (st, some t) | none ↦ next st ])
          >>= λ ((_, found) : ℕ × Option Bytes). ok found)
        ≡ (m >>= λ name. ok (some name))
  install_path_here (ok a) seen next = refl
  install_path_here (err e) seen next = refl
  install_path_here panic seen next = refl
  install_path_here out_of_fuel seen next = refl

  install_path-find_in :
      (image : MachOImage) (cs : List Command) (seen k target : ℕ)
      → target ≡ seen + suc k
      → (find_in (install_path_visit s image target) cs seen >>= λ (_, found). ok found)
        ≡ name_at image (get_elem? (dependencies cs) k)
  unfolding find_in install_path_visit dependencies
  install_path-find_in image [] seen k target e = refl
  install_path-find_in image ((cmd, offset) ∷ cs) seen k target e =
      elim (Bool-cases (is_dylib_dependency_command cmd)) [
        | inr other ↦ rw other (install_path-find_in image cs seen k target e)
        | inl dep ↦ elim (Bool-cases ((seen + 1) == target)) [
          | inl last ↦
              let first : k ≡ 0 = ground arith in
              rw (first, dep, last)
                (install_path_here (dylib_install_name_read s image offset) (seen + 1)
                  (λ st. find_in (install_path_visit s image target) cs st))
          | inr more ↦
              let later : k ≡ suc (k - 1) = ground arith in
              rw (later, dep, more)
                (install_path-find_in image cs (seen + 1) (k - 1) target (ground arith))
        ]
      ]

  -- When all commands can be read, ordinal `k + 1` names the `k`-th of the commands that
  -- `is_dylib_dependency_command` accepts, and an ordinal past the last of them names nothing.
  pub dylib_install_path-dependencies :
      (image : MachOImage) (cs : List Command) (k : ℕ)
      → commands_read image ≡ ok cs
      → dylib_install_path_for_ordinal s image (suc k)
        ≡ name_at image (get_elem? (dependencies cs) k)
  unfolding dylib_install_path_for_ordinal
  dylib_install_path-dependencies image cs k h =
      rw (load_commands_find-find_in image (install_path_visit s image (suc k)) 0 cs h)
        (install_path-find_in image cs 0 k (suc k) (omega arith))
