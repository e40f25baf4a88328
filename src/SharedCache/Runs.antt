-- ===== src/SharedCache/Runs.antt =====
-- A cache of one library, built by hand and attached from memory, and the theorems at it.
use dynld.Prelude.{
  ℕ, ◌≡◌, refl, ◌↔◌, Option, none, some, [], ◌∷◌, ◌++◌, arith, get_elem?, replicate, Bytes,
  bytes_eq, ◌>>=◌, ok,
}
use mathlib.Core.Option
use dynld.Container.{
  Container, little, with_bytes, deserialize_type_at_offset, deserialize_cstr_at_offset,
  nul_position, is_utf8, slice,
}
use dynld.Container.Uleb.{read_uleb128}
use dynld.Scroll.Sample.{sample, le_bytes, image_of}
use dynld.ExportsTrie.{
  exports_trie_walk_for_symbol, walk_loop, open_node, has_terminal_payload, terminal_payload_read,
  child_edge_matching_prefix_find, child_edge_loop, edge_read, starts_with,
}
use dynld.MachOImage.{
  load_command_read, mach_header_read, load_commands_find, exports_trie_span_find,
  linkedit_segment_find,
}
use dynld.SharedCache.{
  DyldSharedSubCache, SharedCacheLibrary, DyldSharedCache, sub64, dsc_header_read, mapping_at,
  mappings_find_map, runtime_offset_for_vm_address, runtime_offset_for_file_offset,
  vm_address_for_file_offset, subcaches_find, subcache_and_offset_locate_from_addr,
  unslid_address_to_runtime_pointer_translate,
}
use dynld.SharedCache.Translate.{Hosts, locate-Hosts, runtime_offset-vm_address}
use dynld.SharedCache.Resolve.{
  library_find, library_find_by_install_path, image_view_for_library, try_resolve_via_exports_trie,
  resolution_step, symbol_resolve_with_max_depth, symbol_resolve,
}
use dynld.SharedCache.Resolve.Found.{Resolves, symbol_resolve-Resolves}
use dynld.SharedCache.Attach.{
  new, from_raw_parts, read_main_cache_unslid_base_from, read_main_cache_total_mapped_length_from,
  from_runtime_mapping, dyld_shared_cache_attach_all, library_read, main_cache_libraries_index_all,
  from_existing,
}
use dynld.SharedCache.Attach.Indexed.{IsIndexed, from_existing-IsIndexed, from_existing-image_view}

abbrev path_a : Bytes
path_a = b'/' ∷ b'a' ∷ []

abbrev symbol : Bytes
symbol = b'_' ∷ b'a' ∷ []

-- One mapping: address, size and file offset.
abbrev mapping : (address size file_offset : ℕ) → Bytes
mapping address size file_offset =
    le_bytes 8 address ++ le_bytes 8 size ++ le_bytes 8 file_offset ++ le_bytes 8 0

-- An image with its `__LINKEDIT` segment and a trie at 120, and a mapping table of one entry at 132.
abbrev image : Container
image = image_of 2 (
    le_bytes 4 0x19
    ++ le_bytes 4 72
    ++ (b'_' ∷ b'_' ∷ b'L' ∷ b'I' ∷ b'N' ∷ b'K' ∷ b'E' ∷ b'D' ∷ b'I' ∷ b'T' ∷ [])
    ++ replicate 6 0
    ++ le_bytes 8 0x1000
    ++ le_bytes 8 0x1000
    ++ le_bytes 8 0
    ++ le_bytes 8 0x1000
    ++ replicate 16 0
    ++ le_bytes 4 0x8000_0033
    ++ le_bytes 4 16
    ++ le_bytes 4 120
    ++ le_bytes 4 12
    ++ (0 ∷ 1 ∷ b'_' ∷ b'a' ∷ 0 ∷ 6 ∷ 2 ∷ 0 ∷ 16 ∷ 0 ∷ 0 ∷ 0 ∷ [])
    ++ mapping 0x1000 0x1000 0x200)

abbrev sub : DyldSharedSubCache
sub = record {
  container = image;
  unslid_base_vm_address = 0x1000;
  mapping_table_offset = 132;
  mapping_table_entry_count = 1;
}

abbrev library : SharedCacheLibrary
library = record {
  sub_cache_index = 0;
  mach_header_runtime_offset = 0;
  install_path = path_a;
  unslid_load_address = 0x1000;
}

abbrev cache : DyldSharedCache
cache = record { sub_caches = sub ∷ []; libraries = library ∷ []; cache_slide = 0x5000 }

locates : subcache_and_offset_locate_from_addr sample cache 0x1078 ≡ ok (some (0, 0x78))
unfolding subcache_and_offset_locate_from_addr subcaches_find runtime_offset_for_vm_address
    mappings_find_map mapping_at
locates = refl

locate-Hosts_example : Hosts sample cache.sub_caches 0x1078 0 0x78
locate-Hosts_example = locate-Hosts sample cache 0x1078 0 0x78 locates

file_offsets : runtime_offset_for_file_offset sample sub 0x210 ≡ ok (some 0x10)
unfolding runtime_offset_for_file_offset mappings_find_map mapping_at
file_offsets = refl

runtime_offset-vm_address_example : runtime_offset_for_file_offset sample sub 0x210 ≡ (
    vm_address_for_file_offset sample sub 0x210 >>= λ found.
    ok (Option.map (λ (vm_address : ℕ). sub64 vm_address sub.unslid_base_vm_address) found))
runtime_offset-vm_address_example = runtime_offset-vm_address sample sub 0x210 (omega arith)

resolves : symbol_resolve sample cache path_a symbol ≡ ok (some 0x6010)
unfolding symbol_resolve symbol_resolve_with_max_depth library_find_by_install_path library_find
    bytes_eq try_resolve_via_exports_trie resolution_step image_view_for_library
    exports_trie_span_find linkedit_segment_find load_commands_find load_command_read
    mach_header_read deserialize_type_at_offset slice subcache_and_offset_locate_from_addr
    subcaches_find runtime_offset_for_vm_address mappings_find_map mapping_at
    unslid_address_to_runtime_pointer_translate exports_trie_walk_for_symbol walk_loop open_node
    has_terminal_payload terminal_payload_read child_edge_matching_prefix_find child_edge_loop
    edge_read starts_with read_uleb128 nul_position
resolves = refl

symbol_resolve-Resolves_example :
    (symbol_resolve sample cache path_a symbol ≡ ok (some 0x6010))
    ↔ Resolves sample cache 0x6010 path_a symbol 16
symbol_resolve-Resolves_example = symbol_resolve-Resolves sample cache path_a symbol 0x6010

-- A cache in memory at 0: one mapping of 700 bytes at 552, one image at 584, and its path at 616.
abbrev memory_bytes : Bytes
memory_bytes =
    replicate 16 0
    ++ le_bytes 4 552
    ++ le_bytes 4 1
    ++ replicate 424 0
    ++ le_bytes 4 584
    ++ le_bytes 4 1
    ++ replicate 96 0
    ++ mapping 0x1000 700 0
    ++ le_bytes 8 0x1010
    ++ replicate 16 0
    ++ le_bytes 8 616
    ++ (b'/' ∷ b'a' ∷ [])

abbrev byte_or_zero : Option ℕ → ℕ
byte_or_zero none = 0
byte_or_zero (some b) = b

abbrev memory : ℕ → ℕ
memory a = byte_or_zero (get_elem? memory_bytes a)

abbrev attached : DyldSharedCache
attached = record {
  sub_caches =
      record {
        container = record { bytes = memory_bytes ++ replicate 82 0; endian = little };
        unslid_base_vm_address = 0x1000;
        mapping_table_offset = 552;
        mapping_table_entry_count = 1;
      }
      ∷ [];
  libraries =
      record {
        sub_cache_index = 0;
        mach_header_runtime_offset = 16;
        install_path = path_a;
        unslid_load_address = 0x1010;
      }
      ∷ [];
  cache_slide = 7;
}

attaches : from_existing sample memory new 0 7 ≡ ok attached
unfolding from_existing dyld_shared_cache_attach_all read_main_cache_unslid_base_from
    read_main_cache_total_mapped_length_from from_runtime_mapping from_raw_parts with_bytes
    dsc_header_read deserialize_type_at_offset main_cache_libraries_index_all library_read
    subcache_and_offset_locate_from_addr subcaches_find runtime_offset_for_vm_address
    runtime_offset_for_file_offset mappings_find_map mapping_at deserialize_cstr_at_offset
    nul_position is_utf8
attaches = refl

from_existing-IsIndexed_example : IsIndexed attached
from_existing-IsIndexed_example = from_existing-IsIndexed sample memory 0 7 attached attaches

abbrev indexed : SharedCacheLibrary
indexed = record {
  sub_cache_index = 0;
  mach_header_runtime_offset = 16;
  install_path = path_a;
  unslid_load_address = 0x1010;
}

finds : library_find_by_install_path attached path_a ≡ some indexed
unfolding library_find_by_install_path library_find bytes_eq
finds = refl

from_existing-image_view_example :
    (s : DyldSharedSubCache) × (get_elem? attached.sub_caches indexed.sub_cache_index ≡ some s)
    × (image_view_for_library attached indexed
        ≡ ok (record {
          container = s.container;
          mach_header_offset = indexed.mach_header_runtime_offset;
        }))
from_existing-image_view_example =
    from_existing-image_view sample memory 0 7 attached path_a indexed attaches finds
