-- ===== src/Loader/Parser.antt =====
-- src/loader.rs: `macho_parser`, one pass over the load commands. Offsets lie in an image in memory, so
-- they do not wrap.
pub mod Invariant
use dynld.Prelude.{
  ℕ, zero, suc, ◌+◌, Bool, true, false, not, Option, none, some, List, [], ◌∷◌, if◌then◌else◌,
  Bytes, bytes_eq, ◌>>=◌, ◌>>◌, Result, map_err, ok, err,
}
use dynld.Container.{Container, deserialize_type_at_offset, deserialize_string_at_offset}
use dynld.Container
use dynld.Scroll.{Scroll}
use dynld.Bindings.MachO.{
  MachMagic, mh_magic, mh_magic_64, MachoFiletypeVariants, mh_execute, mh_dylib,
  LoadCommandVariants, lc_load_dylib, lc_load_weak_dylib, lc_lazy_load_dylib, lc_main, lc_symtab,
  lc_segment_64, lc_dyld_chained_fixups, lc_rpath,
}
use dynld.Array.{FixedVec, new_array, push}
use dynld.Image.{Segment, Symbol}
use dynld.Fixups.{Fixup}
use dynld.Fixups.Parse.{chained_fixups_parse_all}
use dynld.Loader.Symbols.{parse_symtab}
use dynld.Loader.Segments.{parse_segment}

unfoldable pub macho_endian_from_magic : MachMagic → Container.Endian
macho_endian_from_magic mh_magic = Container.little
macho_endian_from_magic mh_magic_64 = Container.little
macho_endian_from_magic _ = Container.big

pub data Rpath : Type 0 where
  at_loader_path at_executable_path at_rpath : Rpath

pub record ParsedImage : Type 0 where
  pub segments : FixedVec Segment
  pub fixups : List Fixup
  pub symbols : List Symbol
  pub init_functions : List ℕ
  pub libraries : FixedVec (Bytes × ℕ)
  pub entry_point : ℕ
  pub has_thread_locals : Bool
  pub is_dylib : Bool
  pub rpath : Option Rpath

unfoldable pub empty_image : ParsedImage
empty_image = record {
  segments = new_array 64;
  fixups = [];
  symbols = [];
  init_functions = [];
  libraries = new_array 64;
  entry_point = 0;
  has_thread_locals = false;
  is_dylib = false;
  rpath = none;
}

-- "@rpath"
abbrev pub rpath_placeholder : Bytes
rpath_placeholder = b'@' ∷ b'r' ∷ b'p' ∷ b'a' ∷ b't' ∷ b'h' ∷ []

-- "@loader_path"
abbrev pub loader_path_placeholder : Bytes
loader_path_placeholder =
    b'@' ∷ b'l' ∷ b'o' ∷ b'a' ∷ b'd' ∷ b'e' ∷ b'r' ∷ b'_' ∷ b'p' ∷ b'a' ∷ b't' ∷ b'h' ∷ []

-- "@executable_path"
abbrev pub executable_path_placeholder : Bytes
executable_path_placeholder =
    b'@' ∷ b'e' ∷ b'x' ∷ b'e' ∷ b'c' ∷ b'u' ∷ b't' ∷ b'a' ∷ b'b' ∷ b'l' ∷ b'e' ∷ b'_' ∷ b'p' ∷ b'a'
    ∷ b't' ∷ b'h' ∷ []

-- The match on the path of the command.
unfoldable pub rpath_of : Bytes → Result Rpath
rpath_of path =
    if bytes_eq path rpath_placeholder
    then ok at_rpath
    else if bytes_eq path loader_path_placeholder
    then ok at_loader_path
    else if bytes_eq path executable_path_placeholder
    then ok at_executable_path
    else err "coulnt not parse rpath: unknown placeholder"

unfoldable pub is_dylib_of : MachoFiletypeVariants → Result Bool
is_dylib_of mh_execute = ok false
is_dylib_of mh_dylib = ok true
is_dylib_of _ = err "the arm64 image filetype must be MH_EXECUTE"

module _ (s : Scroll) (image : Container) where
  unfoldable pub parse_dylib_command : ℕ → FixedVec (Bytes × ℕ) → Result (FixedVec (Bytes × ℕ))
  parse_dylib_command offset libraries = do
    command ←
        map_err (deserialize_type_at_offset ⦃p = s.dylib_command⦄ image offset)
          "could not parse a dylib_command in the inner arm64 image"
    name ← deserialize_string_at_offset image (offset + command.dylib.name.offset)
    push libraries (name, command.dylib.name.offset)

  unfoldable pub parse_main_command : ℕ → Bool → Result ℕ
  parse_main_command offset is_dylib =
      if is_dylib then err "a dynamic library should not contain a `LC_MAIN` load command" else (do
        command ←
            map_err (deserialize_type_at_offset ⦃p = s.entry_point_command⦄ image offset)
              "could not parse `entry_point_command` in the inner arm64 image"
        ok command.entryoff)

  unfoldable pub parse_rpath : ℕ → Result Rpath
  parse_rpath offset = do
    command ←
        map_err (deserialize_type_at_offset ⦃p = s.rpath_command⦄ image offset)
          "could not parse `rpath_command` in the inner arm64 image"
    path ← deserialize_string_at_offset image (offset + command.path.offset)
    rpath_of path

  -- The command at `offset`, by its kind; the other kinds are passed over.
  unfoldable pub command_parse : LoadCommandVariants → ℕ → ParsedImage → Result ParsedImage
  command_parse lc_load_dylib offset parsed =
      parse_dylib_command offset parsed.libraries >>= λ libraries.
      ok (record parsed { libraries = libraries })
  command_parse lc_load_weak_dylib offset parsed =
      parse_dylib_command offset parsed.libraries >>= λ libraries.
      ok (record parsed { libraries = libraries })
  command_parse lc_lazy_load_dylib offset parsed =
      parse_dylib_command offset parsed.libraries >>= λ libraries.
      ok (record parsed { libraries = libraries })
  command_parse lc_main offset parsed = parse_main_command offset parsed.is_dylib >>= λ entry_point.
      ok (record parsed { entry_point = entry_point })
  command_parse lc_symtab offset parsed = parse_symtab s image offset parsed.symbols >>= λ symbols.
      ok (record parsed { symbols = symbols })
  command_parse lc_segment_64 offset parsed =
      parse_segment s image offset parsed.segments (record {
        init_functions = parsed.init_functions;
        has_thread_locals = parsed.has_thread_locals;
      })
      >>= λ (segments, sections). ok (record parsed {
        segments = segments;
        init_functions = sections.init_functions;
        has_thread_locals = sections.has_thread_locals;
      })
  command_parse lc_dyld_chained_fixups offset parsed =
      chained_fixups_parse_all s image >>= λ fixups. ok (record parsed { fixups = fixups })
  command_parse lc_rpath offset parsed =
      parse_rpath offset >>= λ rpath. ok (record parsed { rpath = some rpath })
  command_parse _ offset parsed = ok parsed

  -- `ncmds` commands are left, the next of them at `offset`.
  commands_loop : (ncmds offset : ℕ) → ParsedImage → Result ParsedImage
  commands_loop zero offset parsed = ok parsed
  commands_loop (suc ncmds) offset parsed = do
    command ←
        map_err (deserialize_type_at_offset ⦃p = s.load_command⦄ image offset)
          "could not parse a load command in the inner arm64 image"
    parsed' ← command_parse command.cmd offset parsed
    commands_loop ncmds (offset + command.cmdsize) parsed'

  unfoldable pub macho_parser : Result ParsedImage
  unfolding commands_loop
  macho_parser = do
    header ←
        map_err (deserialize_type_at_offset ⦃p = s.mach_header_64⦄ image 0)
          "could not read `mach_header_64` from arm64 image"
    is_dylib ← is_dylib_of header.filetype
    commands_loop header.ncmds 32 (record empty_image { is_dylib = is_dylib })
