-- ===== src/Entrypoint.antt =====
-- src/entrypoint.rs and src/main.rs: the directory of the executable, the arm64 slice of a fat image, and
-- how the linker relocates itself. After an error the process exits.
pub mod Dirs
pub mod Slices
pub mod SelfBind
mod Runs
use dynld.Prelude.{
  ℕ, zero, suc, ◌+◌, ◌-◌, ◌*◌, ◌/◌, Bool, true, false, not, ◌&&◌, Option, none, some, List, [], ◌∷◌,
  ◌++◌, ◌==◌, if◌then◌else◌, take, Bytes, ◌>>=◌, ◌>>◌, Result, Maybe, ok_or, map_err, unwrap,
  Outcome, ok, err, out_of_fuel,
}
use dynld.Container.{Container, with_bytes, slice, is_utf8}
use dynld.Scroll.{Scroll}
use dynld.Bindings.MachO.{MachMagic, mh_magic_64, fat_magic, MachHeader64, FatArch}
use dynld.Image.{Symbol, make_undefined}
use dynld.Fixups.{FixupKind, rebase, bind, Fixup}
use dynld.Fixups.Parse.{chained_fixups_parse_all}
use dynld.Fixups.Apply.{Memory, system, SymbolResolve, fixup_all_chained_fixups}
use dynld.Loader.Parser.{macho_endian_from_magic}

-- `path.rfind('/')`: the last slash, which is a byte of its own in UTF-8.
unfoldable pub rfind_slash : Bytes → Option ℕ
rfind_slash [] = none
rfind_slash (b ∷ bs) = elim (rfind_slash bs) [
  | some i ↦ some (suc i)
  | none ↦ if b == b'/' then some 0 else none
]

unfoldable pub dir_of : Bytes → Bytes
dir_of path = elim (rfind_slash path) [
  | none ↦ b'.' ∷ []
  | some zero ↦ b'/' ∷ []
  | some (suc i) ↦ take (suc i) path
]

-- `while *arg0.add(len) != 0 { len += 1 }`, and the bytes before that NUL.
c_string : ℕ → Memory → ℕ → Outcome (Unit {0}) Bytes
c_string zero memory address = out_of_fuel
c_string (suc fuel) memory address =
    let rest = c_string fuel memory (address + 1) in
    if memory address == 0 then ok [] else (rest >>= λ bs. ok (memory address ∷ bs))

-- The pointer is `argv[0]`; the fuel is how long the string may be.
unfoldable pub argv0 : ℕ → Memory → ℕ → Maybe Bytes
unfolding c_string
argv0 fuel memory arg0 =
    if arg0 == 0
    then err tt
    else do bytes ← c_string fuel memory arg0; if is_utf8 bytes then ok bytes else err tt

unfoldable pub exe_dir : ℕ → Memory → ℕ → Maybe Bytes
exe_dir fuel memory arg0 = argv0 fuel memory arg0 >>= λ path. ok (dir_of path)

-- CPU_TYPE_ARM64
abbrev pub cpu_type_arm64 : ℕ
cpu_type_arm64 = 0x0100_000C

abbrev pub is_magic_64 : MachMagic → Bool
is_magic_64 mh_magic_64 = true
is_magic_64 _ = false

abbrev pub is_fat_magic : MachMagic → Bool
is_fat_magic fat_magic = true
is_fat_magic _ = false

-- `h.magic == MH_MAGIC_64 && h.cputype == CPU_TYPE_ARM64`
abbrev pub is_arm64 : MachHeader64 → Bool
is_arm64 header = is_magic_64 header.magic && (header.cputype == cpu_type_arm64)

-- `magic_of` is the raw read of a magic number at the start of a slice.
module _ (s : Scroll) (magic_of : Bytes → MachMagic) where
  -- `.map(…).unwrap_or(false)`
  is_arm64_header : Option MachHeader64 → Bool
  is_arm64_header none = false
  is_arm64_header (some header) = is_arm64 header

  unfoldable pub is_arm64_image : Container → Bool
  unfolding is_arm64_header
  is_arm64_image c = is_arm64_header (s.mach_header_64.pread_with c.bytes 0 c.endian)

  -- The container of an entry, if it can be read and lies in the image.
  arch_container : Container → Option FatArch → Option Container
  arch_container image none = none
  arch_container image (some arch) = elim (slice image arch.offset arch.size) [
    | none ↦ none
    | some bytes ↦ some (with_bytes bytes (macho_endian_from_magic (magic_of bytes)))
  ]

  -- The first arm64 slice of the `count` entries that are left, the next of them entry `index`.
  unfoldable pub arch_find : (count index : ℕ) → Container → Option Container
  unfolding arch_container
  arch_find zero index image = none
  arch_find (suc count) index image =
      let rest = arch_find count (index + 1) image in
      elim (arch_container image
        (s.fat_arch.pread_with image.bytes (8 + index * 20) image.endian)) [
          | none ↦ rest
          | some container ↦ if is_arm64_image container then some container else rest
        ]

  -- The fuel is how deep fat images may be nested.
  unfoldable pub arm64_container_create : ℕ → Container → Result Container
  arm64_container_create zero image = out_of_fuel
  arm64_container_create (suc fuel) image = do
    header ← unwrap (s.mach_header_64.pread_with image.bytes 0 image.endian)
    if is_arm64 header
        then ok image
        else if not (is_fat_magic header.magic)
        then err "Not a valid ARM64 Mach-O or fat binary"
        else (do
          fat ← unwrap (s.fat_header.pread_with image.bytes 0 image.endian)
          container ←
              ok_or (arch_find fat.nfat_arch 0 image)
                "error: could not read `mach_header_64` from inner mach-o"
          arm64_container_create fuel container)

-- "/usr/lib/libSystem.B.dylib"
abbrev pub libsystem_path : Bytes
libsystem_path =
    b'/' ∷ b'u' ∷ b's' ∷ b'r' ∷ b'/' ∷ b'l' ∷ b'i' ∷ b'b' ∷ b'/' ∷ b'l' ∷ b'i' ∷ b'b' ∷ b'S' ∷ b'y'
    ∷ b's' ∷ b't' ∷ b'e' ∷ b'm' ∷ b'.' ∷ b'B' ∷ b'.' ∷ b'd' ∷ b'y' ∷ b'l' ∷ b'i' ∷ b'b' ∷ []

-- A bind is of the library with ordinal 1.
with_ordinal_1 : FixupKind → FixupKind
with_ordinal_1 (rebase target) = rebase target
with_ordinal_1 (bind symbol_name ordinal is_auth addend) = bind symbol_name 1 is_auth addend

bind_symbols : FixupKind → List Symbol
bind_symbols (rebase target) = []
bind_symbols (bind symbol_name ordinal is_auth addend) = make_undefined symbol_name 1 false ∷ []

-- The loop over the fixups: their ordinals, and the symbols they name.
self_bind_fixups : List Fixup → List Fixup
self_bind_fixups [] = []
self_bind_fixups (fixup ∷ fixups) =
    record fixup { kind = with_ordinal_1 fixup.kind } ∷ self_bind_fixups fixups

self_bind_symbols : List Fixup → List Symbol
self_bind_symbols [] = []
self_bind_symbols (fixup ∷ fixups) = bind_symbols fixup.kind ++ self_bind_symbols fixups

-- `matches!(fixup.kind, FixupKind::Bind { .. })`
abbrev pub is_bind : Fixup → Bool
is_bind fixup = elim fixup.kind [
  | rebase target ↦ false
  | bind symbol_name ordinal is_auth addend ↦ true
]

unfoldable pub binds_of : List Fixup → List Fixup
binds_of [] = []
binds_of (fixup ∷ fixups) = if is_bind fixup then fixup ∷ binds_of fixups else binds_of fixups

module _ (s : Scroll) (dst : ℕ) where
  -- `dst` is the address of the linker's own image.
  unfoldable pub tls_functions_self_bind_hack : SymbolResolve → List Fixup → Memory → Result Memory
  unfolding self_bind_fixups self_bind_symbols with_ordinal_1 bind_symbols
  tls_functions_self_bind_hack resolve fixups memory =
      fixup_all_chained_fixups s dst 0 (self_bind_symbols fixups) (system libsystem_path ∷ [])
        (some resolve) false (self_bind_fixups fixups) memory

  -- `if !fixups.is_empty()`
  rebase_self : List Fixup → Memory → Result Memory
  rebase_self [] memory = ok memory
  rebase_self (fixup ∷ fixups) memory =
      map_err (fixup_all_chained_fixups s dst 0 [] [] none true (fixup ∷ fixups) memory)
        "self rebase error, exiting ...\n"

  unfoldable pub rebase_self_and_extract_bind_fixups :
      Container → Memory → Result (List Fixup × Memory)
  unfolding rebase_self
  rebase_self_and_extract_bind_fixups dylinker_container memory = do
    fixups ← chained_fixups_parse_all s dylinker_container
    memory' ← rebase_self fixups memory
    ok (binds_of fixups, memory')
