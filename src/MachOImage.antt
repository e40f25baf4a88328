-- ===== src/MachOImage.antt =====
-- src/macho_image.rs: a Mach-O image inside a container, and what its load commands say. A closure
-- that `load_commands_find` is given is a function of the state that it captures. Commands that were
-- read lie inside the container, so their offsets do not wrap.
pub mod Commands
pub mod Ending
mod Runs
use dynld.Prelude.{
  ℕ, zero, suc, ◌+◌, Bool, true, false, not, Option, none, some, List, [], ◌∷◌, ◌++◌, ◌==◌,
  if◌then◌else◌, take, Bytes, bytes_eq, ◌>>=◌, ◌>>◌, Result, map_err, ok, err, panic, out_of_fuel,
}
use dynld.Container.{Container, deserialize_type_at_offset, deserialize_cstr_at_offset, to_bytes}
use dynld.Bindings.MachO.{MachHeader64, LoadCommand, LoadCommandVariants}
use dynld.Bindings.MachO.{
  lc_load_dylib, lc_reexport_dylib, lc_dyld_exports_trie, lc_dyld_info_only, lc_segment_64,
}
use dynld.Scroll.{Scroll}

abbrev pub max_reexport_resolution_depth : ℕ
max_reexport_resolution_depth = 16

pub record LinkeditSegment : Type 0 where
  pub vmaddr : ℕ
  pub fileoff : ℕ

pub record ExportsTrieSpan : Type 0 where
  pub file_offset : ℕ
  pub size_in_bytes : ℕ

pub record MachOImage : Type 0 where
  pub container : Container
  pub mach_header_offset : ℕ

abbrev pub size_of_mach_header_64 : ℕ
size_of_mach_header_64 = 32

-- What a visit is given: the command and its offset.
abbrev pub Command : Type 0
Command = LoadCommandVariants × ℕ

unfoldable pub is_dylib_dependency_command : LoadCommandVariants → Bool
is_dylib_dependency_command lc_load_dylib = true
is_dylib_dependency_command lc_reexport_dylib = true
is_dylib_dependency_command _ = false

-- `&segname[..10] == b"__LINKEDIT"`
abbrev pub linkedit_name : Bytes
linkedit_name = b'_' ∷ b'_' ∷ b'L' ∷ b'I' ∷ b'N' ∷ b'K' ∷ b'E' ∷ b'D' ∷ b'I' ∷ b'T' ∷ []

module _ (s : Scroll) where
  unfoldable pub mach_header_read : MachOImage → Result MachHeader64
  mach_header_read image =
      map_err
        (deserialize_type_at_offset ⦃p = s.mach_header_64⦄ image.container image.mach_header_offset)
        "could not read mach_header_64"

  unfoldable pub load_command_read : MachOImage → ℕ → Result LoadCommand
  load_command_read image command_offset =
      map_err (deserialize_type_at_offset ⦃p = s.load_command⦄ image.container command_offset)
        "could not read load_command header"

  -- `ncmds` commands are left, the next at `command_offset`; `S` is what the closure captures.
  load_commands_loop :
      {S T : Type 0}
      → ℕ
      → MachOImage
      → ℕ
      → (S → Command → Result (S × Option T))
      → S
      → Result (S × Option T)
  load_commands_loop zero image command_offset visit st = ok (st, none)
  load_commands_loop (suc ncmds) image command_offset visit st = do
    command ← load_command_read image command_offset
    (st', found) ← visit st (command.cmd, command_offset)
    elim found [
      | some t ↦ ok (st', some t)
      | none ↦ load_commands_loop ncmds image (command_offset + command.cmdsize) visit st'
    ]

  unfoldable pub load_commands_find :
      {S T : Type 0}
      → MachOImage
      → (S → Command → Result (S × Option T))
      → S
      → Result (S × Option T)
  unfolding load_commands_loop
  load_commands_find image visit st = do
    header ← mach_header_read image
    load_commands_loop header.ncmds image (image.mach_header_offset + size_of_mach_header_64) visit
        st

  unfoldable pub dylib_install_name_read : MachOImage → ℕ → Result Bytes
  dylib_install_name_read image command_offset = do
    header ←
        map_err
          (deserialize_type_at_offset ⦃p = s.dylib_command_header⦄ image.container command_offset)
          "could not read dylib_command_header"
    cstr ← deserialize_cstr_at_offset image.container (command_offset + header.name_offset)
    ok (to_bytes cstr)

  -- A closure that captures nothing.
  abbrev pub stateless :
      {T : Type 0}
      → (Command → Result (Option T))
      → Unit {0}
      → Command
      → Result (Unit {0} × Option T)
  stateless visit st command = visit command >>= λ found. ok (tt, found)

  exports_trie_span_visit : MachOImage → Command → Result (Option ExportsTrieSpan)
  exports_trie_span_visit image (lc_dyld_exports_trie, command_offset) = do
    command ←
        map_err
          (deserialize_type_at_offset ⦃p = s.linkedit_data_command⦄ image.container command_offset)
          "could not read linkedit_data_command"
    ok (some (record { file_offset = command.dataoff; size_in_bytes = command.datasize }))
  exports_trie_span_visit image (lc_dyld_info_only, command_offset) = do
    command ←
        map_err
          (deserialize_type_at_offset ⦃p = s.dyld_info_command⦄ image.container command_offset)
          "could not read dyld_info_command"
    ok (some (record { file_offset = command.export_off; size_in_bytes = command.export_size }))
  exports_trie_span_visit image (_, command_offset) = ok none

  unfoldable pub exports_trie_span_find : MachOImage → Result (Option ExportsTrieSpan)
  unfolding exports_trie_span_visit
  exports_trie_span_find image =
      load_commands_find image (stateless (exports_trie_span_visit image)) tt >>= λ (_, found).
      ok found

  -- `seen` counts the dependencies so far, this one included.
  unfoldable pub install_path_visit : MachOImage → ℕ → ℕ → Command → Result (ℕ × Option Bytes)
  install_path_visit image target_ordinal seen (cmd, command_offset) =
      if is_dylib_dependency_command cmd
      then (if (seen + 1) == target_ordinal
          then (dylib_install_name_read image command_offset >>= λ name. ok (seen + 1, some name))
          else ok (seen + 1, none))
      else ok (seen, none)

  unfoldable pub dylib_install_path_for_ordinal : MachOImage → ℕ → Result (Option Bytes)
  dylib_install_path_for_ordinal image target_ordinal =
      load_commands_find image (install_path_visit image target_ordinal) 0 >>= λ (_, found).
      ok found

  -- `if let Ok(p) = …`: a name that cannot be read is passed over.
  push_if_ok : List Bytes → Result Bytes → Result (List Bytes × Option (Unit {0}))
  push_if_ok paths (ok p) = ok (paths ++ (p ∷ []), none)
  push_if_ok paths (err e) = ok (paths, none)
  push_if_ok paths panic = panic
  push_if_ok paths out_of_fuel = out_of_fuel

  unfoldable pub reexport_visit :
      MachOImage → List Bytes → Command → Result (List Bytes × Option (Unit {0}))
  unfolding push_if_ok
  reexport_visit image paths (lc_reexport_dylib, command_offset) =
      push_if_ok paths (dylib_install_name_read image command_offset)
  reexport_visit image paths (_, command_offset) = ok (paths, none)

  unfoldable pub reexported_dylib_paths_collect : MachOImage → Result (List Bytes)
  reexported_dylib_paths_collect image =
      load_commands_find image (reexport_visit image) [] >>= λ (paths, _). ok paths

  linkedit_visit : MachOImage → Command → Result (Option LinkeditSegment)
  linkedit_visit image (lc_segment_64, command_offset) = do
    seg ←
        map_err
          (deserialize_type_at_offset ⦃p = s.segment_command_64⦄ image.container command_offset)
          "could not read segment_command_64"
    ok (
        if bytes_eq (take 10 seg.segname) linkedit_name
        then some (record { vmaddr = seg.vmaddr; fileoff = seg.fileoff })
        else none)
  linkedit_visit image (_, command_offset) = ok none

  unfoldable pub linkedit_segment_find : MachOImage → Result (Option LinkeditSegment)
  unfolding linkedit_visit
  linkedit_segment_find image =
      load_commands_find image (stateless (linkedit_visit image)) tt >>= λ (_, found). ok found
