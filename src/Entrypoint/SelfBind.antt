-- ===== src/Entrypoint/SelfBind.antt =====
-- src/entrypoint.rs and src/main.rs: how the linker relocates itself, in two passes.
use dynld.Prelude.{
  ℕ, ◌≡◌, refl, sym, ap, ◌∙◌, true, false, none, some, List, [], ◌∷◌, Bytes, ◌>>=◌, Result, ok_or,
  bind_cong, bind_assoc, ok,
}
use dynld.Container.{Container}
use dynld.Scroll.{Scroll}
use dynld.Image.{Symbol}
use dynld.Fixups.{FixupKind, rebase, bind, Fixup}
use dynld.Fixups.Parse.{chained_fixups_parse_all}
use dynld.Fixups.Apply.{
  Memory, system, SymbolResolve, store_u64, pointer, fixup_all_chained_fixups, fixup_apply,
  bind_apply, fixup_regular_symbol,
}
use dynld.Entrypoint.{
  libsystem_path, with_ordinal_1, self_bind_fixups, self_bind_symbols, binds_of, rebase_self,
  tls_functions_self_bind_hack, rebase_self_and_extract_bind_fixups,
}

module _ (dst : ℕ) where
  -- A rebase; a bind does nothing.
  abbrev rebase_only : ℕ → FixupKind → Memory → Memory
  rebase_only offset (rebase target) memory =
      store_u64 (pointer dst 0 offset) (pointer dst 0 target) memory
  rebase_only offset (bind symbol_name ordinal is_auth addend) memory = memory

  -- The rebases one after the other.
  abbrev pub rebases : List Fixup → Memory → Memory
  rebases [] memory = memory
  rebases (fixup ∷ fixups) memory = rebases fixups (rebase_only fixup.offset fixup.kind memory)

  module _ (resolve : SymbolResolve) where
    -- The address that the shared cache has for a symbol of libSystem.
    abbrev libsystem_address : Bytes → Result ℕ
    libsystem_address symbol_name = do
      resolved ← resolve libsystem_path symbol_name
      ok_or resolved "could not find a symbol in the dyld shared cache"

    -- A bind stores that address; a rebase is done as before.
    abbrev pub libsystem_fixup : ℕ → FixupKind → Memory → Result Memory
    libsystem_fixup offset (rebase target) memory =
        ok (store_u64 (pointer dst 0 offset) (pointer dst 0 target) memory)
    libsystem_fixup offset (bind symbol_name ordinal is_auth addend) memory =
        libsystem_address symbol_name >>= λ address.
        ok (store_u64 (pointer dst 0 offset) address memory)

    abbrev pub libsystem_fixups : List Fixup → Memory → Result Memory
    libsystem_fixups [] memory = ok memory
    libsystem_fixups (fixup ∷ fixups) memory =
        libsystem_fixup fixup.offset fixup.kind memory >>= λ memory'.
        libsystem_fixups fixups memory'

module _ (s : Scroll) (dst : ℕ) where
  ignoring-one :
      (offset : ℕ) (kind : FixupKind) (memory : Memory)
      → fixup_apply s dst 0 [] [] none true offset kind memory
        ≡ ok (rebase_only dst offset kind memory)
  unfolding fixup_apply
  ignoring-one offset (rebase target) memory = refl
  ignoring-one offset (bind symbol_name ordinal is_auth addend) memory = refl

  ignoring-rebases :
      (fixups : List Fixup) (memory : Memory)
      → fixup_all_chained_fixups s dst 0 [] [] none true fixups memory
        ≡ ok (rebases dst fixups memory)
  unfolding fixup_all_chained_fixups
  ignoring-rebases [] memory = refl
  ignoring-rebases (fixup ∷ fixups) memory =
      rw (fixup_all_chained_fixups, ignoring-one fixup.offset fixup.kind memory)
        (ignoring-rebases fixups _)

  rebase_self-rebases :
      (fixups : List Fixup) (memory : Memory)
      → rebase_self s dst fixups memory ≡ ok (rebases dst fixups memory)
  unfolding rebase_self
  rebase_self-rebases [] memory = refl
  rebase_self-rebases (fixup ∷ fixups) memory = rw (ignoring-rebases (fixup ∷ fixups) memory) refl

  module _ (resolve : SymbolResolve) (symbols : List Symbol) where
    libsystem-one :
        (offset : ℕ) (kind : FixupKind) (memory : Memory)
        → fixup_apply s dst 0 symbols
            (system libsystem_path ∷ [])
            (some resolve)
            false
            offset
            (with_ordinal_1 kind)
            memory
          ≡ libsystem_fixup dst resolve offset kind memory
    unfolding fixup_apply bind_apply fixup_regular_symbol with_ordinal_1
    libsystem-one offset (rebase target) memory = refl
    libsystem-one offset (bind symbol_name ordinal is_auth addend) memory =
        bind_assoc (resolve libsystem_path symbol_name) _ _ _ (λ resolved. refl)

    libsystem-all :
        (fixups : List Fixup) (memory : Memory)
        → fixup_all_chained_fixups s dst 0 symbols
            (system libsystem_path ∷ [])
            (some resolve)
            false
            (self_bind_fixups fixups)
            memory
          ≡ libsystem_fixups dst resolve fixups memory
    unfolding fixup_all_chained_fixups self_bind_fixups
    libsystem-all [] memory = refl
    libsystem-all (fixup ∷ fixups) memory =
        ap
          (λ m.
            m
            >>= fixup_all_chained_fixups s dst 0 symbols (system libsystem_path ∷ []) (some resolve)
                false (self_bind_fixups fixups))
          (libsystem-one fixup.offset fixup.kind memory)
        ∙ bind_cong (libsystem_fixup dst resolve fixup.offset fixup.kind memory)
            (λ memory'. libsystem-all fixups memory')

  -- The linker relocates itself in two passes. The first applies the rebases among the fixups that are
  -- parsed, never fails at that, and leaves the binds; the second stores, for each of these and whatever
  -- ordinal it has, the address that the shared cache has for its symbol in libSystem, and fails where
  -- there is none.
  pub self_relocation-passes :
      (resolve : SymbolResolve) (c : Container) (memory : Memory)
      → (rebase_self_and_extract_bind_fixups s dst c memory >>= λ (binds, memory').
          tls_functions_self_bind_hack s dst resolve binds memory')
        ≡ (chained_fixups_parse_all s c >>= λ fixups.
            libsystem_fixups dst resolve (binds_of fixups) (rebases dst fixups memory))
  unfolding rebase_self_and_extract_bind_fixups tls_functions_self_bind_hack
  self_relocation-passes resolve c memory = sym (
      bind_assoc (chained_fixups_parse_all s c) _ _ _ (λ fixups.
        rw (rebase_self-rebases fixups memory) (
          sym (
            libsystem-all resolve (self_bind_symbols (binds_of fixups)) (binds_of fixups)
              (rebases dst fixups memory)))))
