-- ===== src/Scroll/Sample.antt =====
-- Deserialisers to test with: little endian, with the offsets of the C structures that are read.
use dynld.Prelude.{
  ℕ, zero, suc, ◌+◌, ◌*◌, ◌/◌, ◌%◌, ◌^◌, inl, inr, Option, none, some, [], ◌∷◌, ◌++◌, leb, ◌==◌,
  if◌then◌else◌, leb→le, Bool-cases, length, take, drop, replicate, Bytes,
}
use mathlib.Core.Option
use dynld.Container.{little, Container, Pread, IsBounded}
use dynld.Scroll.{Scroll}
use dynld.Bindings.MachO.{
  lc_segment_64, SegmentCommand64, mh_magic_64, mh_dylib, MachHeader64, LoadCommand,
  LoadCommandVariants, lc_load_dylib, lc_reexport_dylib, lc_dyld_exports_trie,
  lc_dyld_chained_fixups, lc_uuid, LinkeditDataCommand,
}
use dynld.Bindings.Chained.{
  DyldChainedFixupsHeader, DyldChainedStartsInSegment, DyldChainedStartsInImage,
  DyldChainedPtrFormatVariants, dyld_chained_ptr_64, dyld_chained_ptr_arm64e, dyld_chained_import,
}
use dynld.Bindings.SharedCache.{
  DyldCacheHeader, DyldCacheMappingInfo, DyldCacheImageInfo, DylibCommandHeader,
}

-- The number in bytes, least significant byte first, and back.
abbrev le_value : Bytes → ℕ
le_value [] = 0
le_value (b ∷ bs) = b + 256 * le_value bs

abbrev pub le_bytes : (size value : ℕ) → Bytes
le_bytes zero value = []
le_bytes (suc n) value = value % 256 ∷ le_bytes n (value / 256)

abbrev pub read_le : ℕ → Bytes → ℕ → Option ℕ
read_le size bytes offset =
    if leb (offset + size) (length bytes)
    then some (le_value (take size (drop offset bytes)))
    else none

abbrev number : ℕ → Pread ℕ
number size = record { pread_with = λ bytes offset e. read_le size bytes offset }

abbrev absent : {T : Type 0} → Pread T
absent = record { pread_with = λ bytes offset e. none }

pub number-IsBounded : (size : ℕ) → IsBounded (number size) size
number-IsBounded size bytes offset e v h = elim (Bool-cases (leb (offset + size) (length bytes))) [
  | inl fits ↦ leb→le _ _ fits
  | inr past ↦ absurd (let q = rw past at h in cc)
]

-- The numbers of the commands that the tests use; the others stand for a UUID.
abbrev command_of : ℕ → LoadCommandVariants
command_of n =
    if n == 0xC
    then lc_load_dylib
    else if n == 0x19
    then lc_segment_64
    else if n == 0x8000_001F
    then lc_reexport_dylib
    else if n == 0x8000_0033
    then lc_dyld_exports_trie
    else if n == 0x8000_0034
    then lc_dyld_chained_fixups
    else lc_uuid

abbrev pointer_format_of : ℕ → DyldChainedPtrFormatVariants
pointer_format_of n = if n == 2 then dyld_chained_ptr_64 else dyld_chained_ptr_arm64e

abbrev mach_header_at : Bytes → ℕ → Option MachHeader64
mach_header_at bytes o =
    Option.map
      (λ n. record {
        magic = mh_magic_64;
        cputype = 0;
        cpusubtype = 0;
        filetype = mh_dylib;
        ncmds = n;
        sizeofcmds = 0;
        flags = 0;
        reserved = 0;
      })
      (read_le 4 bytes (o + 16))

abbrev load_command_at : Bytes → ℕ → Option LoadCommand
load_command_at bytes o = elim (read_le 8 bytes o) [
  | none ↦ none
  | some v ↦ some (record { cmd = command_of (v % 2 ^ 32); cmdsize = v / 2 ^ 32 })
]

abbrev linkedit_at : Bytes → ℕ → Option LinkeditDataCommand
linkedit_at bytes o =
    Option.map
      (λ v. record {
        cmd = lc_dyld_chained_fixups;
        cmdsize = 16;
        dataoff = v % 2 ^ 32;
        datasize = v / 2 ^ 32;
      })
      (read_le 8 bytes (o + 8))

abbrev dylib_header_at : Bytes → ℕ → Option DylibCommandHeader
dylib_header_at bytes o =
    Option.map
      (λ v. record {
        cmd = 0xC;
        cmdsize = 28;
        name_offset = v;
        timestamp = 0;
        current_version = 0;
        compatibility_version = 0;
      })
      (read_le 4 bytes (o + 8))

abbrev fixups_header_at : Bytes → ℕ → Option DyldChainedFixupsHeader
fixups_header_at bytes o =
    Option.map
      (λ v. record {
        fixups_version = 0;
        starts_offset = v % 2 ^ 32;
        imports_offset = v / 2 ^ 32;
        symbols_offset = 0;
        imports_count = 0;
        imports_format = dyld_chained_import;
        symbols_format = 0;
      })
      (read_le 8 bytes (o + 4))

abbrev starts_in_image_at : Bytes → ℕ → Option DyldChainedStartsInImage
starts_in_image_at bytes o = Option.map (λ v. record { seg_count = v }) (read_le 4 bytes o)

abbrev starts_in_segment_at : Bytes → ℕ → Option DyldChainedStartsInSegment
starts_in_segment_at bytes o =
    Option.map
      (λ v. record {
        size = 24;
        page_size = 0x4000;
        pointer_format = pointer_format_of (v / 2 ^ 48 % 2 ^ 16);
        segment_offset = v / 2 ^ 64 % 2 ^ 64;
        max_valid_pointer = 0;
        page_count = v / 2 ^ 160 % 2 ^ 16;
        page_start = [];
      })
      (read_le 22 bytes o)

-- A cache header with the six numbers that are read; the rest is zero.
abbrev cache_header_of :
    (mapping_offset mapping_count sub_cache_array_offset sub_cache_array_count images_offset
      images_count : ℕ)
    → DyldCacheHeader
cache_header_of mapping_offset mapping_count sub_cache_array_offset sub_cache_array_count
      images_offset images_count =
    record {
      magic = [];
      mapping_offset = mapping_offset;
      mapping_count = mapping_count;
      images_offset_old = 0;
      images_count_old = 0;
      dyld_base_address = 0;
      code_signature_offset = 0;
      code_signature_size = 0;
      slide_info_offset_unused = 0;
      slide_info_size_unused = 0;
      local_symbols_offset = 0;
      local_symbols_size = 0;
      uuid = [];
      cache_type = 0;
      branch_pools_offset = 0;
      branch_pools_count = 0;
      dyld_in_cache_mh = 0;
      dyld_in_cache_entry = 0;
      images_text_offset = 0;
      images_text_count = 0;
      patch_info_addr = 0;
      patch_info_size = 0;
      other_image_group_addr_unused = 0;
      other_image_group_size_unused = 0;
      prog_closures_addr = 0;
      prog_closures_size = 0;
      prog_closures_trie_addr = 0;
      prog_closures_trie_size = 0;
      platform = 0;
      flags = 0;
      shared_region_start = 0;
      shared_region_size = 0;
      max_slide = 0;
      dylibs_image_array_addr = 0;
      dylibs_image_array_size = 0;
      dylibs_trie_addr = 0;
      dylibs_trie_size = 0;
      other_image_array_addr = 0;
      other_image_array_size = 0;
      other_trie_addr = 0;
      other_trie_size = 0;
      mapping_with_slide_offset = 0;
      mapping_with_slide_count = 0;
      dylibs_pbl_state_array_addr_unused = 0;
      dylibs_pbl_set_addr = 0;
      programs_pbl_set_pool_addr = 0;
      programs_pbl_set_pool_size = 0;
      program_trie_addr = 0;
      program_trie_size = 0;
      os_version = 0;
      alt_platform = 0;
      alt_os_version = 0;
      swift_opts_offset = 0;
      swift_opts_size = 0;
      sub_cache_array_offset = sub_cache_array_offset;
      sub_cache_array_count = sub_cache_array_count;
      symbol_file_uuid = [];
      rosetta_read_only_addr = 0;
      rosetta_read_only_size = 0;
      rosetta_read_write_addr = 0;
      rosetta_read_write_size = 0;
      images_offset = images_offset;
      images_count = images_count;
      cache_sub_type = 0;
      objc_opts_offset = 0;
      objc_opts_size = 0;
      cache_atlas_offset = 0;
      cache_atlas_size = 0;
      dynamic_data_offset = 0;
      dynamic_data_max_size = 0;
      tpro_mappings_offset = 0;
      tpro_mappings_count = 0;
      function_variant_info_addr = 0;
      function_variant_info_size = 0;
      prewarming_data_offset = 0;
      prewarming_data_size = 0;
    }

abbrev cache_header_at : Bytes → ℕ → Option DyldCacheHeader
cache_header_at bytes o = elim (read_le 8 bytes (o + 16)) [
  | none ↦ none
  | some mappings ↦ elim (read_le 8 bytes (o + 392)) [
    | none ↦ none
    | some subs ↦
        Option.map
          (λ images.
            cache_header_of (mappings % 2 ^ 32) (mappings / 2 ^ 32) (subs % 2 ^ 32) (subs / 2 ^ 32)
              (images % 2 ^ 32) (images / 2 ^ 32))
          (read_le 8 bytes (o + 448))
  ]
]

abbrev mapping_info_at : Bytes → ℕ → Option DyldCacheMappingInfo
mapping_info_at bytes o =
    Option.map
      (λ v. record {
        address = v % 2 ^ 64;
        size = v / 2 ^ 64 % 2 ^ 64;
        file_offset = v / 2 ^ 128 % 2 ^ 64;
        max_prot = 0;
        init_prot = 0;
      })
      (read_le 32 bytes o)

abbrev image_info_at : Bytes → ℕ → Option DyldCacheImageInfo
image_info_at bytes o =
    Option.map
      (λ v. record {
        address = v % 2 ^ 64;
        mod_time = 0;
        inode = 0;
        path_file_offset = v / 2 ^ 192 % 2 ^ 32;
        pad = 0;
      })
      (read_le 32 bytes o)

abbrev segment_at : Bytes → ℕ → Option SegmentCommand64
segment_at bytes o =
    Option.map
      (λ v. record {
        cmd = lc_segment_64;
        cmdsize = 72;
        segname = take 16 (drop (o + 8) bytes);
        vmaddr = v / 2 ^ 192 % 2 ^ 64;
        vmsize = v / 2 ^ 256 % 2 ^ 64;
        fileoff = v / 2 ^ 320 % 2 ^ 64;
        filesize = v / 2 ^ 384 % 2 ^ 64;
        maxprot = 0;
        initprot = 0;
        nsects = 0;
        flags = 0;
      })
      (read_le 56 bytes o)

abbrev pub sample : Scroll
sample = record {
  u16 = number 2;
  u32 = number 4;
  u64 = number 8;
  fat_header = absent;
  fat_arch = absent;
  mach_header_64 = record { pread_with = λ bytes offset e. mach_header_at bytes offset };
  load_command = record { pread_with = λ bytes offset e. load_command_at bytes offset };
  segment_command_64 = record { pread_with = λ bytes offset e. segment_at bytes offset };
  section_64 = absent;
  dylib_command = absent;
  symtab_command = absent;
  linkedit_data_command = record { pread_with = λ bytes offset e. linkedit_at bytes offset };
  entry_point_command = absent;
  rpath_command = absent;
  nlist_64 = absent;
  dyld_chained_fixups_header = record {
    pread_with = λ bytes offset e. fixups_header_at bytes offset;
  };
  dyld_chained_starts_in_image = record {
    pread_with = λ bytes offset e. starts_in_image_at bytes offset;
  };
  dyld_chained_starts_in_segment = record {
    pread_with = λ bytes offset e. starts_in_segment_at bytes offset;
  };
  dyld_chained_import = number 4;
  dyld_chained_import_addend = absent;
  dyld_chained_import_addend64 = absent;
  dyld_cache_header = record { pread_with = λ bytes offset e. cache_header_at bytes offset };
  dyld_cache_mapping_info = record { pread_with = λ bytes offset e. mapping_info_at bytes offset };
  dyld_cache_image_info = record { pread_with = λ bytes offset e. image_info_at bytes offset };
  dyld_subcache_entry = absent;
  dyld_info_command = absent;
  dylib_command_header = record { pread_with = λ bytes offset e. dylib_header_at bytes offset };
}

pub sample-IsBounded : IsBounded sample.u64 8
sample-IsBounded = number-IsBounded 8

-- A header that announces a number of commands, with the commands and the data after it.
abbrev pub image_of : (ncmds : ℕ) → Bytes → Container
image_of ncmds rest = record {
  bytes = replicate 16 0 ++ le_bytes 4 ncmds ++ replicate 12 0 ++ rest;
  endian = little;
}
