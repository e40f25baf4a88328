-- ===== src/Loader/Runs.antt =====
-- Two small images, and the theorems of the parser at them.
use mathlib.Core.Option
use dynld.Prelude.{
  ◌+◌, ◌-◌, ◌/◌, ◌%◌, ◌^◌, ◌<◌, ◌≡◌, refl, ◌≢◌, true, false, none, some, [], ◌∷◌, ◌++◌, ltb→lt,
  length, replicate, Bytes, ok_or, Ends, ok, err, out_of_fuel,
}
use dynld.Container.{
  with_bytes, deserialize_type_at_offset, deserialize_string_at_offset, nul_position, is_utf8,
}
use dynld.ExportsTrie.{starts_with}
use dynld.Scroll.Images.{
  loader_scroll, loader_scroll-u32, loader_scroll-u64, loader_image, fixups_image,
}
use dynld.Bindings.MachO.{Nlist64}
use dynld.Array.{
  new_array, new, push, try_push, try_push_str, try_from_str, as_str, deref, new_string, is_full,
  remaining_capacity, capacity,
}
use dynld.Array.Shape.{shape}
use dynld.Image.{make_regular_export}
use dynld.Loader.Symbols.{
  kind_of, read_symbol_name, classify_defined_symbol, symtab_entry, parse_symtab,
}
use dynld.Loader.Symbols.Table.{Accepts, is_supported, symbol_of, classify_defined_symbol-Accepts}
use dynld.Loader.Segments.{read_init_func_offsets, scan_section, parse_segment, init_func_loop}
use dynld.Loader.Segments.Offsets.{words, read_init_func_offsets-words}
use dynld.Loader.Parser.{
  ParsedImage, empty_image, is_dylib_of, parse_dylib_command, command_parse, macho_parser,
}
use dynld.Bindings.ChainedPtr.{ptr_64_rebase_target, ptr_64_rebase_high8, ptr_64_rebase_next}
use dynld.Image.{try_with_container, try_next}
use dynld.Fixups.{fixup_rebase, fixup_64_parse_one}
use dynld.Fixups.Parse.{
  is_chained_fixups, chained_fixups_header_and_offset_find, fixup_parse_one, chain_loop,
  chained_fixups_parse_all,
}
use dynld.SharedCache.{DyldSharedCache}
use dynld.SharedCache.Attach
use dynld.SharedCache.Resolve.{is_library_cached, library_find, library_find_by_install_path}
use dynld.Loader.Dependencies.{dependencies_collect, user_dylib_disk_path_resolve, strip_prefix}
use dynld.Loader.Link.{disk_path_mmap, System, macho_loader}
use dynld.Loader.Link.Ending.{IsShallow, macho_loader-Ends}
use dynld.Loader.Parser.Invariant.{WellFormed, macho_parser-Ends}

loader_small : length loader_image.bytes < 2 ^ 32
loader_small = ltb→lt _ _ refl

abbrev name_f : Bytes
name_f = b'_' ∷ b'f' ∷ []

abbrev parsed : ParsedImage
parsed = record {
  segments =
      shape (record { file_offset = 0; vm_addr = 0; vm_size = 0x4000; prot = 5 } ∷ [])
        (replicate 63 none);
  fixups = [];
  symbols = make_regular_export name_f 0x100 1 false false ∷ [];
  init_functions = 0x10 ∷ 0x20 ∷ [];
  libraries = shape ((b'_' ∷ b'a' ∷ [], 24) ∷ []) (replicate 63 none);
  entry_point = 0;
  has_thread_locals = false;
  is_dylib = true;
  rpath = none;
}

parses : macho_parser loader_scroll loader_image ≡ ok parsed
unfolding macho_parser command_parse empty_image is_dylib_of parse_dylib_command parse_symtab
    parse_segment symtab_entry classify_defined_symbol read_symbol_name scan_section
    read_init_func_offsets init_func_loop deserialize_type_at_offset deserialize_string_at_offset
    nul_position is_utf8 starts_with new_array new push try_push is_full remaining_capacity capacity
    try_from_str try_push_str new_string as_str deref kind_of make_regular_export
parses = refl

macho_parser-Ends_example : Ends (WellFormed 268) (macho_parser loader_scroll loader_image)
macho_parser-Ends_example =
    macho_parser-Ends loader_scroll loader_image loader_scroll-u32 loader_scroll-u64 loader_small

abbrev entry : Nlist64
entry = record {
  n_un = record { n_strx = 1 };
  n_type = 0x0F;
  n_sect = 1;
  n_desc = 0;
  n_value = 0x100;
}

reads_name :
    read_symbol_name loader_scroll loader_image 264 1 "could not read symbol name" ≡ ok name_f
unfolding read_symbol_name deserialize_string_at_offset nul_position is_utf8 try_from_str
    try_push_str new_string as_str deref new_array new try_push is_full remaining_capacity capacity
reads_name = refl

classify_defined_symbol-Accepts_example :
    Accepts
      (is_supported (kind_of entry))
      ([] ++ (symbol_of entry name_f ∷ []))
      (classify_defined_symbol loader_scroll loader_image 264 entry [])
classify_defined_symbol-Accepts_example =
    classify_defined_symbol-Accepts loader_scroll loader_image 264 entry [] name_f reads_name

-- An external weak definition that is also a weak reference.
abbrev auto_hide : Nlist64
auto_hide = record entry { n_desc = 0xC0 }

auto_hide_fails :
    classify_defined_symbol loader_scroll loader_image 264 auto_hide [] ≡ err "makeWeakDefAutoHide"
unfolding classify_defined_symbol kind_of read_symbol_name deserialize_string_at_offset nul_position
    is_utf8 try_from_str try_push_str new_string as_str deref new_array new try_push is_full
    remaining_capacity capacity
auto_hide_fails = refl

read_init_func_offsets-words_example :
    read_init_func_offsets loader_scroll loader_image 256 8 (7 ∷ [])
    ≡ ok_or
        (Option.map
          (λ ws. (7 ∷ []) ++ ws)
          (words loader_scroll loader_image (((256 + 8) % 2 ^ 32 - 256 + 3) / 4) 256))
        "could not parse S_INIT_FUNC_OFFSETS"
read_init_func_offsets-words_example =
    read_init_func_offsets-words loader_scroll loader_image loader_scroll-u32 loader_small 256 8
      (7 ∷ [])

two_words : words loader_scroll loader_image 2 256 ≡ some (0x10 ∷ 0x20 ∷ [])
unfolding words
two_words = refl

-- Every path opens the image with the fixups, which has no dependencies.
abbrev kernel : System
kernel = record {
  vm_alloc_task_self = λ p size. some 0x2_0000_0000;
  vm_copy = λ image file_offset address size memory. memory;
  vm_protect = λ address size set_maximum prot. true;
  tlv_initialize_descriptors = λ address memory. memory;
  entry_and_ret = λ address memory. memory;
  open_file = λ path. some 3;
  fstat = λ fd. some (length fixups_image.bytes);
  mmap_file = λ size fd. some fixups_image.bytes;
}

abbrev cache : DyldSharedCache
cache = Attach.new

abbrev no_libraries : ParsedImage
no_libraries = record empty_image {
  fixups = fixup_rebase 108 0x10 ∷ fixup_rebase 116 0x20 ∷ [];
  is_dylib = true;
}

fixups_parses : macho_parser loader_scroll fixups_image ≡ ok no_libraries
unfolding macho_parser command_parse is_dylib_of empty_image chained_fixups_parse_all
    chained_fixups_header_and_offset_find try_with_container try_next is_chained_fixups
    deserialize_type_at_offset fixup_parse_one chain_loop fixup_64_parse_one ptr_64_rebase_target
    ptr_64_rebase_high8 ptr_64_rebase_next
fixups_parses = refl

fixups_image-IsShallow : IsShallow kernel loader_scroll cache [] 1 fixups_image
unfolding dependencies_collect deref new_array new empty_image
fixups_image-IsShallow = (ltb→lt _ _ refl, rw fixups_parses tt)

loader_image-IsShallow : IsShallow kernel loader_scroll cache [] 2 loader_image
unfolding dependencies_collect deref new_array new push try_push is_full remaining_capacity capacity
    is_library_cached library_find_by_install_path library_find user_dylib_disk_path_resolve
    strip_prefix starts_with disk_path_mmap with_bytes
loader_image-IsShallow = (loader_small, rw parses (fixups_image-IsShallow, tt))

macho_loader-Ends_example :
    macho_loader kernel loader_scroll cache 2 loader_image []
      (some [])
      (record { memory = λ a. 0; events = [] })
    ≢ out_of_fuel
macho_loader-Ends_example =
    macho_loader-Ends kernel loader_scroll cache [] 2 loader_image (some [])
      (record { memory = λ a. 0; events = [] }) loader_scroll-u32 loader_scroll-u64
      loader_image-IsShallow
