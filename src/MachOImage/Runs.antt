-- ===== src/MachOImage/Runs.antt =====
-- An image that depends on `/a` and re-exports `/b`, and the theorems at it.
use dynld.Prelude.{ℕ, ◌≡◌, refl, List, [], ◌∷◌, ◌++◌, get_elem?, Bytes, ok}
use dynld.Container.{deserialize_type_at_offset, deserialize_cstr_at_offset, nul_position}
use dynld.Scroll.Sample.{sample, le_bytes, image_of}
use dynld.Bindings.MachO.{lc_load_dylib, lc_reexport_dylib, lc_uuid}
use dynld.MachOImage.{
  MachOImage, Command, mach_header_read, load_command_read, load_commands_find,
  dylib_install_name_read, install_path_visit, dylib_install_path_for_ordinal,
  reexported_dylib_paths_collect, reexport_visit,
}
use dynld.MachOImage.Commands.{
  dependencies, find_in, commands_read, name_at, load_commands_find-find_in,
  dylib_install_path-dependencies,
}

-- A dylib command of sixteen bytes, the name at 12.
abbrev dylib_command : (cmd letter : ℕ) → Bytes
dylib_command cmd letter =
    le_bytes 4 cmd ++ le_bytes 4 16 ++ le_bytes 4 12 ++ (b'/' ∷ letter ∷ 0 ∷ 0 ∷ [])

abbrev image : MachOImage
image = record {
  container =
      image_of 3 (
        dylib_command 0xC b'a'
        ++ le_bytes 4 0x1B
        ++ le_bytes 4 8
        ++ dylib_command 0x8000_001F b'b');
  mach_header_offset = 0;
}

abbrev commands : List Command
commands = (lc_load_dylib, 32) ∷ (lc_uuid, 48) ∷ (lc_reexport_dylib, 56) ∷ []

reads : commands_read sample image ≡ ok commands
unfolding commands_read mach_header_read load_command_read deserialize_type_at_offset
reads = refl

reexports : reexported_dylib_paths_collect sample image ≡ ok ((b'/' ∷ b'b' ∷ []) ∷ [])
unfolding reexported_dylib_paths_collect load_commands_find mach_header_read load_command_read
    deserialize_type_at_offset dylib_install_name_read deserialize_cstr_at_offset nul_position
    reexport_visit
reexports = refl

load_commands_find-find_in_example :
    load_commands_find sample image (install_path_visit sample image 2) 0
    ≡ find_in (install_path_visit sample image 2) commands 0
load_commands_find-find_in_example =
    load_commands_find-find_in sample image (install_path_visit sample image 2) 0 commands reads

dylib_install_path-dependencies_example :
    dylib_install_path_for_ordinal sample image 2
    ≡ name_at sample image (get_elem? (dependencies commands) 1)
dylib_install_path-dependencies_example =
    dylib_install_path-dependencies sample image commands 1 reads
