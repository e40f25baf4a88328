-- ===== src/Bindings/Chained.antt =====
-- src/bindings_macho.rs: the structures of LC_DYLD_CHAINED_FIXUPS.
use dynld.Prelude.{ℕ, Bytes}

pub data DyldChainedPtrFormatVariants : Type 0 where
  dyld_chained_ptr_arm64e dyld_chained_ptr_64 dyld_chained_ptr_32 : DyldChainedPtrFormatVariants
  dyld_chained_ptr_32_cache dyld_chained_ptr_32_firmware dyld_chained_ptr_64_offset :
      DyldChainedPtrFormatVariants
  dyld_chained_ptr_arm64e_offset dyld_chained_ptr_64_kernel_cache : DyldChainedPtrFormatVariants
  dyld_chained_ptr_arm64e_userland dyld_chained_ptr_arm64e_firmware : DyldChainedPtrFormatVariants
  dyld_chained_ptr_x86_64_kernel_cache dyld_chained_ptr_arm64e_userland24 :
      DyldChainedPtrFormatVariants
  dyld_chained_ptr_arm64e_shared_cache dyld_chained_ptr_arm64e_segmented :
      DyldChainedPtrFormatVariants

pub data DyldChainedImportFormatVariants : Type 0 where
  dyld_chained_import dyld_chained_import_addend dyld_chained_import_addend64 :
      DyldChainedImportFormatVariants

pub record DyldChainedFixupsHeader : Type 0 where
  pub fixups_version : ℕ
  pub starts_offset : ℕ
  pub imports_offset : ℕ
  pub symbols_offset : ℕ
  pub imports_count : ℕ
  pub imports_format : DyldChainedImportFormatVariants
  pub symbols_format : ℕ

pub record DyldChainedStartsInImage : Type 0 where
  pub seg_count : ℕ

pub record DyldChainedStartsInSegment : Type 0 where
  pub size : ℕ
  pub page_size : ℕ
  pub pointer_format : DyldChainedPtrFormatVariants
  pub segment_offset : ℕ
  pub max_valid_pointer : ℕ
  pub page_count : ℕ
  pub page_start : Bytes
