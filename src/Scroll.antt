-- ===== src/Scroll.antt =====
-- The deserialisers that scroll derives for the structures of src/bindings_macho.rs and
-- src/bindings_dsc.rs. They are no code of the repository: whatever reads a structure takes them as
-- a parameter.
pub mod Sample
pub mod Images
use dynld.Prelude.{ℕ}
use dynld.Container.{Pread}
use dynld.Bindings.MachO.{
  FatHeader, FatArch, MachHeader64, LoadCommand, SegmentCommand64, Section64, DylibCommand,
  SymtabCommand, LinkeditDataCommand, EntryPointCommand, RpathCommand, Nlist64,
}
use dynld.Bindings.Chained.{
  DyldChainedFixupsHeader, DyldChainedStartsInImage, DyldChainedStartsInSegment,
}
use dynld.Bindings.ChainedPtr.{DyldChainedImportAddend, DyldChainedImportAddend64}
use dynld.Bindings.SharedCache.{
  DyldCacheHeader, DyldCacheMappingInfo, DyldCacheImageInfo, DyldSubcacheEntry, DyldInfoCommand,
  DylibCommandHeader,
}

pub record Scroll : Type 0 where
  pub u16 : Pread ℕ
  pub u32 : Pread ℕ
  pub u64 : Pread ℕ
  pub fat_header : Pread FatHeader
  pub fat_arch : Pread FatArch
  pub mach_header_64 : Pread MachHeader64
  pub load_command : Pread LoadCommand
  pub segment_command_64 : Pread SegmentCommand64
  pub section_64 : Pread Section64
  pub dylib_command : Pread DylibCommand
  pub symtab_command : Pread SymtabCommand
  pub linkedit_data_command : Pread LinkeditDataCommand
  pub entry_point_command : Pread EntryPointCommand
  pub rpath_command : Pread RpathCommand
  pub nlist_64 : Pread Nlist64
  pub dyld_chained_fixups_header : Pread DyldChainedFixupsHeader
  pub dyld_chained_starts_in_image : Pread DyldChainedStartsInImage
  pub dyld_chained_starts_in_segment : Pread DyldChainedStartsInSegment
  pub dyld_chained_import : Pread ℕ
  pub dyld_chained_import_addend : Pread DyldChainedImportAddend
  pub dyld_chained_import_addend64 : Pread DyldChainedImportAddend64
  pub dyld_cache_header : Pread DyldCacheHeader
  pub dyld_cache_mapping_info : Pread DyldCacheMappingInfo
  pub dyld_cache_image_info : Pread DyldCacheImageInfo
  pub dyld_subcache_entry : Pread DyldSubcacheEntry
  pub dyld_info_command : Pread DyldInfoCommand
  pub dylib_command_header : Pread DylibCommandHeader
