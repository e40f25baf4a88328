-- ===== src/Bindings/MachO.antt =====
-- src/bindings_macho.rs: the Mach-O structures that the linker reads, and its constants. A field
-- is the number in it; a signed field is its bit pattern, and a byte array a list of bytes. Which
-- bytes make a structure is for the deserialisers that scroll derives.
use dynld.Prelude.{ℕ, Bytes}

pub data MachMagic : Type 0 where
  mh_magic mh_cigam mh_magic_64 mh_cigam_64 fat_magic fat_cigam fat_magic_64 : MachMagic
  fat_cigam_64 : MachMagic

pub record FatHeader : Type 0 where
  pub magic : MachMagic
  pub nfat_arch : ℕ

pub record FatArch : Type 0 where
  pub cputype : ℕ
  pub cpusubtype : ℕ
  pub offset : ℕ
  pub size : ℕ
  pub align : ℕ

pub data MachoFiletypeVariants : Type 0 where
  mh_object mh_execute mh_fvmlib mh_core mh_preload mh_dylib mh_dylinker mh_bundle :
      MachoFiletypeVariants
  mh_dylib_stub mh_dsym mh_kext_bundle mh_fileset mh_gpu_execute mh_gpu_dylib :
      MachoFiletypeVariants

pub record MachHeader64 : Type 0 where
  pub magic : MachMagic
  pub cputype : ℕ
  pub cpusubtype : ℕ
  pub filetype : MachoFiletypeVariants
  pub ncmds : ℕ
  pub sizeofcmds : ℕ
  pub flags : ℕ
  pub reserved : ℕ

pub data LoadCommandVariants : Type 0 where
  lc_segment lc_symtab lc_symseg lc_thread lc_unixthread lc_loadfvmlib lc_idfvmlib :
      LoadCommandVariants
  lc_ident lc_fvmfile lc_prepage lc_dysymtab lc_load_dylib lc_id_dylib lc_load_dylinker :
      LoadCommandVariants
  lc_id_dylinker lc_prebound_dylib lc_routines lc_sub_framework lc_sub_umbrella :
      LoadCommandVariants
  lc_sub_client lc_sub_library lc_twolevel_hints lc_prebind_cksum lc_load_weak_dylib :
      LoadCommandVariants
  lc_segment_64 lc_routines_64 lc_uuid lc_rpath lc_code_signature lc_segment_split_info :
      LoadCommandVariants
  lc_reexport_dylib lc_lazy_load_dylib lc_encryption_info lc_dyld_info : LoadCommandVariants
  lc_dyld_info_only lc_load_upward_dylib lc_version_min_macosx lc_version_min_iphoneos :
      LoadCommandVariants
  lc_function_starts lc_dyld_environment lc_main lc_data_in_code lc_source_version :
      LoadCommandVariants
  lc_dylib_code_sign_drs lc_encryption_info_64 lc_linker_option : LoadCommandVariants
  lc_linker_optimization_hint lc_version_min_tvos lc_version_min_watchos lc_note :
      LoadCommandVariants
  lc_build_version lc_dyld_exports_trie lc_dyld_chained_fixups lc_fileset_entry :
      LoadCommandVariants
  lc_atom_info lc_function_variants lc_function_variant_fixups lc_target_triple :
      LoadCommandVariants

pub record LoadCommand : Type 0 where
  pub cmd : LoadCommandVariants
  pub cmdsize : ℕ

pub record LcStr : Type 0 where
  pub offset : ℕ

pub record SegmentCommand64 : Type 0 where
  pub cmd : LoadCommandVariants
  pub cmdsize : ℕ
  pub segname : Bytes
  pub vmaddr : ℕ
  pub vmsize : ℕ
  pub fileoff : ℕ
  pub filesize : ℕ
  pub maxprot : ℕ
  pub initprot : ℕ
  pub nsects : ℕ
  pub flags : ℕ

pub record Section64 : Type 0 where
  pub sectname : Bytes
  pub segname : Bytes
  pub addr : ℕ
  pub size : ℕ
  pub offset : ℕ
  pub align : ℕ
  pub reloff : ℕ
  pub nreloc : ℕ
  pub flags : ℕ
  pub reserved1 : ℕ
  pub reserved2 : ℕ
  pub reserved3 : ℕ

pub record Dylib : Type 0 where
  pub name : LcStr
  pub timestamp : ℕ
  pub current_version : ℕ
  pub compatibility_version : ℕ

pub record DylibCommand : Type 0 where
  pub cmd : LoadCommandVariants
  pub cmdsize : ℕ
  pub dylib : Dylib

pub record SymtabCommand : Type 0 where
  pub cmd : LoadCommandVariants
  pub cmdsize : ℕ
  pub symoff : ℕ
  pub nsyms : ℕ
  pub stroff : ℕ
  pub strsize : ℕ

pub record LinkeditDataCommand : Type 0 where
  pub cmd : LoadCommandVariants
  pub cmdsize : ℕ
  pub dataoff : ℕ
  pub datasize : ℕ

pub record EntryPointCommand : Type 0 where
  pub cmd : LoadCommandVariants
  pub cmdsize : ℕ
  pub entryoff : ℕ
  pub stacksize : ℕ

pub record RpathCommand : Type 0 where
  pub cmd : ℕ
  pub cmdsize : ℕ
  pub path : LcStr

pub record Nlist64NUn : Type 0 where
  pub n_strx : ℕ

pub record Nlist64 : Type 0 where
  pub n_un : Nlist64NUn
  pub n_type : ℕ
  pub n_sect : ℕ
  pub n_desc : ℕ
  pub n_value : ℕ
