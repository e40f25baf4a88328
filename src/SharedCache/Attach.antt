-- ===== src/SharedCache/Attach.antt =====
-- src/dyld_shared_cache.rs: `from_existing`, which attaches to the caches that are mapped and indexes
-- their libraries. `memory` is the bytes of the address space.
pub mod Indexed
use dynld.Prelude.{
  ℕ, zero, suc, ◌+◌, ◌*◌, String, not, Option, none, some, List, [], ◌∷◌, ◌++◌, ltb, if◌then◌else◌,
  length, get_elem?, Bytes, ◌>>=◌, ◌>>◌, Result, ok_or, map_err, unwrap, ok, panic,
}
use dynld.Container.{
  Container, little, with_bytes, deserialize_type_at_offset, deserialize_cstr_at_offset, is_utf8,
  to_bytes,
}
use dynld.Scroll.{Scroll}
use dynld.Bindings.SharedCache.{DyldCacheMappingInfo}
use dynld.SharedCache.{
  DyldSharedSubCache, SharedCacheLibrary, DyldSharedCache, add64, sub64, size_of_mapping_info,
  dsc_header_read, runtime_offset_for_file_offset, subcache_and_offset_locate_from_addr,
}

-- size_of::<dyld_cache_header>(), of a subcache entry and of an image info
abbrev size_of_cache_header : ℕ
size_of_cache_header = 552

abbrev size_of_subcache_entry : ℕ
size_of_subcache_entry = 56

abbrev size_of_image_info : ℕ
size_of_image_info = 32

-- `slice::from_raw_parts`
unfoldable pub from_raw_parts : (ℕ → ℕ) → (pointer length : ℕ) → Bytes
from_raw_parts memory pointer zero = []
from_raw_parts memory pointer (suc n) = memory pointer ∷ from_raw_parts memory (pointer + 1) n

-- `DyldSharedCache::new`
abbrev pub new : DyldSharedCache
new = record { sub_caches = []; libraries = []; cache_slide = 0 }

-- `str::to_str().unwrap()` of a C string
abbrev pub to_str : Bytes → Result Bytes
to_str cstr = if is_utf8 (to_bytes cstr) then ok (to_bytes cstr) else panic

module _ (s : Scroll) where
  mapping_info_read : Container → ℕ → String → Result DyldCacheMappingInfo
  mapping_info_read container offset message =
      map_err (deserialize_type_at_offset ⦃p = s.dyld_cache_mapping_info⦄ container offset) message

  -- The largest end of a mapping, over the `entries` that are left.
  mapped_length_loop :
      ℕ → Container → (mapping_offset entry_index base_address max_runtime_end : ℕ) → Result ℕ
  mapped_length_loop zero container mapping_offset entry_index base_address max_runtime_end =
      ok max_runtime_end
  mapped_length_loop (suc entries) container mapping_offset entry_index base_address
        max_runtime_end =
      do
        mapping ←
            mapping_info_read container (mapping_offset + entry_index * size_of_mapping_info)
              "could not read mapping_info"
        let runtime_end = add64 (sub64 mapping.address base_address) mapping.size
        mapped_length_loop entries container mapping_offset (entry_index + 1) base_address
            (if ltb max_runtime_end runtime_end then runtime_end else max_runtime_end)

  module _ (memory : ℕ → ℕ) where
    unfoldable pub read_main_cache_unslid_base_from : ℕ → Result ℕ
    unfolding mapping_info_read
    read_main_cache_unslid_base_from header_pointer = do
      let provisional =
          with_bytes
            (from_raw_parts memory header_pointer
              (size_of_cache_header + 32 * size_of_mapping_info))
            little
      header ← dsc_header_read s provisional
      first_mapping ←
          mapping_info_read provisional header.mapping_offset "could not read first mapping_info"
      ok first_mapping.address

    unfoldable pub read_main_cache_total_mapped_length_from : ℕ → Result ℕ
    unfolding mapping_info_read mapped_length_loop
    read_main_cache_total_mapped_length_from header_pointer = do
      let provisional =
          with_bytes
            (from_raw_parts memory header_pointer
              (size_of_cache_header + 64 * size_of_mapping_info))
            little
      header ← dsc_header_read s provisional
      first_mapping ←
          mapping_info_read provisional header.mapping_offset "could not read first mapping_info"
      mapped_length_loop header.mapping_count provisional header.mapping_offset 0
          first_mapping.address 0

    unfoldable pub from_runtime_mapping :
        (runtime_pointer length unslid_base_vm_address : ℕ) → Result DyldSharedSubCache
    from_runtime_mapping runtime_pointer length unslid_base_vm_address = do
      let container = with_bytes (from_raw_parts memory runtime_pointer length) little
      header ← dsc_header_read s container
      ok (record {
        container = container;
        unslid_base_vm_address = unslid_base_vm_address;
        mapping_table_offset = header.mapping_offset;
        mapping_table_entry_count = header.mapping_count;
      })

    -- The entries of the subcache array that are left; the new subcaches go to the end.
    attach_loop :
        ℕ
        → Container
        → (array_offset subcache_index header_pointer main_unslid_base : ℕ)
        → List DyldSharedSubCache
        → Result (List DyldSharedSubCache)
    attach_loop zero main array_offset subcache_index header_pointer main_unslid_base sub_caches =
        ok sub_caches
    attach_loop (suc entries) main array_offset subcache_index header_pointer main_unslid_base
          sub_caches =
        do
          entry ←
              map_err
                (deserialize_type_at_offset ⦃p = s.dyld_subcache_entry⦄ main
                  (array_offset + subcache_index * size_of_subcache_entry))
                "could not deserialize dyld_subcache_entry"
          let subcache_runtime_pointer = add64 header_pointer entry.cache_vm_offset
          total_length ← read_main_cache_total_mapped_length_from subcache_runtime_pointer
          subcache ←
              from_runtime_mapping subcache_runtime_pointer total_length
                (add64 main_unslid_base entry.cache_vm_offset)
          attach_loop entries main array_offset (subcache_index + 1) header_pointer main_unslid_base
              (sub_caches ++ (subcache ∷ []))

    unfoldable pub dyld_shared_cache_attach_all : DyldSharedCache → ℕ → Result DyldSharedCache
    unfolding attach_loop
    dyld_shared_cache_attach_all cache header_pointer = do
      main_unslid_base ← read_main_cache_unslid_base_from header_pointer
      main_total_length ← read_main_cache_total_mapped_length_from header_pointer
      main_subcache ← from_runtime_mapping header_pointer main_total_length main_unslid_base
      let attached = cache.sub_caches ++ (main_subcache ∷ [])
      main ← unwrap (get_elem? attached 0)
      header ← dsc_header_read s main.container
      sub_caches ←
          attach_loop header.sub_cache_array_count main.container header.sub_cache_array_offset 0
            header_pointer main_unslid_base attached
      ok (record cache { sub_caches = sub_caches })

  -- The library of an image, or `none` for an address that no subcache covers.
  unfoldable pub library_read :
      DyldSharedCache → DyldSharedSubCache → ℕ → Result (Option SharedCacheLibrary)
  library_read cache main image_info_offset = do
    info ←
        map_err
          (deserialize_type_at_offset ⦃p = s.dyld_cache_image_info⦄ main.container
            image_info_offset)
          "could not deserialize dyld_cache_image_info"
    located ← subcache_and_offset_locate_from_addr s cache info.address
    elim located [
      | none ↦ ok none
      | some (sub_cache_index, mach_header_runtime_offset) ↦ do
        path_offset ← runtime_offset_for_file_offset s main info.path_file_offset
        path_runtime_offset ← ok_or path_offset "image path offset not covered by any mapping"
        cstr ← deserialize_cstr_at_offset main.container path_runtime_offset
        install_path ← to_str cstr
        ok (
            some (record {
              sub_cache_index = sub_cache_index;
              mach_header_runtime_offset = mach_header_runtime_offset;
              install_path = install_path;
              unslid_load_address = info.address;
            }))
    ]

  push_library : DyldSharedCache → Option SharedCacheLibrary → DyldSharedCache
  push_library cache none = cache
  push_library cache (some library) = record cache { libraries = cache.libraries ++ (library ∷ []) }

  -- The images that are left, the next of them `image_index`.
  index_loop :
      ℕ
      → DyldSharedSubCache
      → (images_offset image_index : ℕ) → DyldSharedCache
      → Result DyldSharedCache
  unfolding push_library
  index_loop zero main images_offset image_index cache = ok cache
  index_loop (suc images) main images_offset image_index cache = do
    library ← library_read cache main (images_offset + image_index * size_of_image_info)
    index_loop images main images_offset (image_index + 1) (push_library cache library)

  unfoldable pub main_cache_libraries_index_all : DyldSharedCache → Result DyldSharedCache
  unfolding index_loop
  main_cache_libraries_index_all cache = do
    main ← unwrap (get_elem? cache.sub_caches 0)
    header ← dsc_header_read s main.container
    index_loop header.images_count main header.images_offset 0 cache

  unfoldable pub from_existing :
      (ℕ → ℕ)
      → DyldSharedCache
      → (main_cache_header_pointer cache_slide : ℕ) → Result DyldSharedCache
  from_existing memory cache main_cache_header_pointer cache_slide =
      dyld_shared_cache_attach_all memory (record cache { cache_slide = cache_slide })
        main_cache_header_pointer
      >>= main_cache_libraries_index_all
