-- ===== src/SharedCache.antt =====
-- src/dyld_shared_cache.rs: the subcaches, their mapping tables, and the translation of addresses.
-- Sums and differences of `u64` values wrap as in a release build. An entry of a table is read when it
-- is looked at, so that a table is searched entry by entry.
pub mod Attach
pub mod Resolve
pub mod Translate
mod Runs
use dynld.Prelude.{
  ℕ, zero, suc, ◌+◌, ◌-◌, ◌*◌, ◌%◌, ◌^◌, Bool, true, false, not, ◌&&◌, Option, none, some, List, [],
  ◌∷◌, ltb, leb, Bytes, ◌>>=◌, Result, map_err, unwrap, ok, err,
}
use dynld.Container.{Container, deserialize_type_at_offset}
use dynld.Scroll.{Scroll}
use dynld.Bindings.SharedCache.{DyldCacheHeader, DyldCacheMappingInfo}

abbrev pub add64 : ℕ → ℕ → ℕ
add64 a b = (a + b) % 2 ^ 64

abbrev pub sub64 : ℕ → ℕ → ℕ
sub64 a b = (a + 2 ^ 64 - b) % 2 ^ 64

pub record DyldSharedSubCache : Type 0 where
  pub container : Container
  pub unslid_base_vm_address : ℕ
  pub mapping_table_offset : ℕ
  pub mapping_table_entry_count : ℕ

pub record SharedCacheLibrary : Type 0 where
  pub sub_cache_index : ℕ
  pub mach_header_runtime_offset : ℕ
  pub install_path : Bytes
  pub unslid_load_address : ℕ

pub record DyldSharedCache : Type 0 where
  pub sub_caches : List DyldSharedSubCache
  pub libraries : List SharedCacheLibrary
  pub cache_slide : ℕ

-- size_of::<dyld_cache_mapping_info>()
abbrev pub size_of_mapping_info : ℕ
size_of_mapping_info = 32

-- `(first..end).contains(&x)`
abbrev pub contains : (first end x : ℕ) → Bool
contains first end x = leb first x && ltb x end

-- `.then(|| value)`
abbrev pub then_some : Bool → ℕ → Option ℕ
then_some true value = some value
then_some false value = none

module _ (s : Scroll) where
  unfoldable pub dsc_header_read : Container → Result DyldCacheHeader
  dsc_header_read container =
      map_err (deserialize_type_at_offset ⦃p = s.dyld_cache_header⦄ container 0)
        "could not deserialize dyld_cache_header"

  -- An entry of the table, with the `expect`.
  unfoldable pub mapping_at : DyldSharedSubCache → ℕ → Result DyldCacheMappingInfo
  mapping_at sub entry_index = unwrap (
      s.dyld_cache_mapping_info.pread_with sub.container.bytes
        (sub.mapping_table_offset + entry_index * size_of_mapping_info) sub.container.endian)

  -- `mappings_iter().find_map(visit)`, with `entries` of the table left.
  unfoldable pub mappings_find_map :
      ℕ → DyldSharedSubCache → ℕ → (DyldCacheMappingInfo → Option ℕ) → Result (Option ℕ)
  mappings_find_map zero sub entry_index visit = ok none
  mappings_find_map (suc entries) sub entry_index visit = do
    mapping ← mapping_at sub entry_index
    elim (visit mapping) [
      | some found ↦ ok (some found)
      | none ↦ mappings_find_map entries sub (entry_index + 1) visit
    ]

  abbrev pub runtime_offset_visit : DyldSharedSubCache → ℕ → DyldCacheMappingInfo → Option ℕ
  runtime_offset_visit sub unslid_vm_address mapping =
      then_some (contains mapping.address (add64 mapping.address mapping.size) unslid_vm_address)
        (sub64 unslid_vm_address sub.unslid_base_vm_address)

  unfoldable pub runtime_offset_for_vm_address : DyldSharedSubCache → ℕ → Result (Option ℕ)
  runtime_offset_for_vm_address sub unslid_vm_address =
      mappings_find_map sub.mapping_table_entry_count sub 0
        (runtime_offset_visit sub unslid_vm_address)

  abbrev pub file_offset_visit : DyldSharedSubCache → ℕ → DyldCacheMappingInfo → Option ℕ
  file_offset_visit sub file_offset mapping =
      then_some (contains mapping.file_offset (add64 mapping.file_offset mapping.size) file_offset)
        (add64 (sub64 mapping.address sub.unslid_base_vm_address)
          (sub64 file_offset mapping.file_offset))

  unfoldable pub runtime_offset_for_file_offset : DyldSharedSubCache → ℕ → Result (Option ℕ)
  runtime_offset_for_file_offset sub file_offset =
      mappings_find_map sub.mapping_table_entry_count sub 0 (file_offset_visit sub file_offset)

  abbrev pub vm_address_visit : ℕ → DyldCacheMappingInfo → Option ℕ
  vm_address_visit file_offset mapping =
      then_some (contains mapping.file_offset (add64 mapping.file_offset mapping.size) file_offset)
        (add64 mapping.address (sub64 file_offset mapping.file_offset))

  unfoldable pub vm_address_for_file_offset : DyldSharedSubCache → ℕ → Result (Option ℕ)
  vm_address_for_file_offset sub file_offset =
      mappings_find_map sub.mapping_table_entry_count sub 0 (vm_address_visit file_offset)

  -- The subcaches not yet asked, the first of them `subcache_index`; the index is kept as a `u8`.
  unfoldable pub subcaches_find : List DyldSharedSubCache → ℕ → ℕ → Result (Option (ℕ × ℕ))
  subcaches_find [] subcache_index unslid_vm_address = ok none
  subcaches_find (sub ∷ subs) subcache_index unslid_vm_address = do
    found ← runtime_offset_for_vm_address sub unslid_vm_address
    elim found [
      | some runtime_offset ↦ ok (some (subcache_index % 256, runtime_offset))
      | none ↦ subcaches_find subs (subcache_index + 1) unslid_vm_address
    ]

  unfoldable pub subcache_and_offset_locate_from_addr :
      DyldSharedCache → ℕ → Result (Option (ℕ × ℕ))
  subcache_and_offset_locate_from_addr cache unslid_vm_address =
      subcaches_find cache.sub_caches 0 unslid_vm_address

  unfoldable pub unslid_address_to_runtime_pointer_translate : DyldSharedCache → ℕ → Result ℕ
  unslid_address_to_runtime_pointer_translate cache unslid_vm_address = do
    located ← subcache_and_offset_locate_from_addr cache unslid_vm_address
    elim located [
      | none ↦ err "vm address not covered by any cache mapping"
      | some _ ↦ ok (add64 unslid_vm_address cache.cache_slide)
    ]
