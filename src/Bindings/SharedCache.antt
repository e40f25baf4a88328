-- ===== src/Bindings/SharedCache.antt =====
-- src/bindings_dsc.rs: the structures of the dyld shared cache.
use dynld.Prelude.{ℕ, Bytes}

pub record DyldCacheHeader : Type 0 where
  pub magic : Bytes
  pub mapping_offset : ℕ
  pub mapping_count : ℕ
  pub images_offset_old : ℕ
  pub images_count_old : ℕ
  pub dyld_base_address : ℕ
  pub code_signature_offset : ℕ
  pub code_signature_size : ℕ
  pub slide_info_offset_unused : ℕ
  pub slide_info_size_unused : ℕ
  pub local_symbols_offset : ℕ
  pub local_symbols_size : ℕ
  pub uuid : Bytes
  pub cache_type : ℕ
  pub branch_pools_offset : ℕ
  pub branch_pools_count : ℕ
  pub dyld_in_cache_mh : ℕ
  pub dyld_in_cache_entry : ℕ
  pub images_text_offset : ℕ
  pub images_text_count : ℕ
  pub patch_info_addr : ℕ
  pub patch_info_size : ℕ
  pub other_image_group_addr_unused : ℕ
  pub other_image_group_size_unused : ℕ
  pub prog_closures_addr : ℕ
  pub prog_closures_size : ℕ
  pub prog_closures_trie_addr : ℕ
  pub prog_closures_trie_size : ℕ
  pub platform : ℕ
  pub flags : ℕ
  pub shared_region_start : ℕ
  pub shared_region_size : ℕ
  pub max_slide : ℕ
  pub dylibs_image_array_addr : ℕ
  pub dylibs_image_array_size : ℕ
  pub dylibs_trie_addr : ℕ
  pub dylibs_trie_size : ℕ
  pub other_image_array_addr : ℕ
  pub other_image_array_size : ℕ
  pub other_trie_addr : ℕ
  pub other_trie_size : ℕ
  pub mapping_with_slide_offset : ℕ
  pub mapping_with_slide_count : ℕ
  pub dylibs_pbl_state_array_addr_unused : ℕ
  pub dylibs_pbl_set_addr : ℕ
  pub programs_pbl_set_pool_addr : ℕ
  pub programs_pbl_set_pool_size : ℕ
  pub program_trie_addr : ℕ
  pub program_trie_size : ℕ
  pub os_version : ℕ
  pub alt_platform : ℕ
  pub alt_os_version : ℕ
  pub swift_opts_offset : ℕ
  pub swift_opts_size : ℕ
  pub sub_cache_array_offset : ℕ
  pub sub_cache_array_count : ℕ
  pub symbol_file_uuid : Bytes
  pub rosetta_read_only_addr : ℕ
  pub rosetta_read_only_size : ℕ
  pub rosetta_read_write_addr : ℕ
  pub rosetta_read_write_size : ℕ
  pub images_offset : ℕ
  pub images_count : ℕ
  pub cache_sub_type : ℕ
  pub objc_opts_offset : ℕ
  pub objc_opts_size : ℕ
  pub cache_atlas_offset : ℕ
  pub cache_atlas_size : ℕ
  pub dynamic_data_offset : ℕ
  pub dynamic_data_max_size : ℕ
  pub tpro_mappings_offset : ℕ
  pub tpro_mappings_count : ℕ
  pub function_variant_info_addr : ℕ
  pub function_variant_info_size : ℕ
  pub prewarming_data_offset : ℕ
  pub prewarming_data_size : ℕ

pub record DyldCacheMappingInfo : Type 0 where
  pub address : ℕ
  pub size : ℕ
  pub file_offset : ℕ
  pub max_prot : ℕ
  pub init_prot : ℕ

pub record DyldCacheImageInfo : Type 0 where
  pub address : ℕ
  pub mod_time : ℕ
  pub inode : ℕ
  pub path_file_offset : ℕ
  pub pad : ℕ

pub record DyldSubcacheEntry : Type 0 where
  pub uuid : Bytes
  pub cache_vm_offset : ℕ
  pub file_suffix : Bytes

pub record DyldInfoCommand : Type 0 where
  pub cmd : ℕ
  pub cmdsize : ℕ
  pub rebase_off : ℕ
  pub rebase_size : ℕ
  pub bind_off : ℕ
  pub bind_size : ℕ
  pub weak_bind_off : ℕ
  pub weak_bind_size : ℕ
  pub lazy_bind_off : ℕ
  pub lazy_bind_size : ℕ
  pub export_off : ℕ
  pub export_size : ℕ

pub record DylibCommandHeader : Type 0 where
  pub cmd : ℕ
  pub cmdsize : ℕ
  pub name_offset : ℕ
  pub timestamp : ℕ
  pub current_version : ℕ
  pub compatibility_version : ℕ
