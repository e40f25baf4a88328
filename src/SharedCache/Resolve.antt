-- ===== src/SharedCache/Resolve.antt =====
-- src/dyld_shared_cache.rs: `symbol_resolve`, by a library's exports trie, and by the libraries that it
-- re-exports where the trie says nothing.
pub mod Found
pub mod Ending
use dynld.Prelude.{
  ℕ, zero, suc, Bool, true, false, Option, none, some, List, [], ◌∷◌, if◌then◌else◌, get_elem?,
  Bytes, bytes_eq, ◌>>=◌, ◌>>◌, Result, unwrap, to_result, ok,
}
use dynld.Container.{slice}
use dynld.Scroll.{Scroll}
use dynld.ExportsTrie.{
  ExportTerminal, defined_here, reexported_from_dependency, exports_trie_walk_for_symbol,
}
use dynld.MachOImage.{
  MachOImage, exports_trie_span_find, linkedit_segment_find, dylib_install_path_for_ordinal,
  reexported_dylib_paths_collect, max_reexport_resolution_depth,
}
use dynld.Dylib.{or_none, target_name}
use dynld.SharedCache.{
  DyldSharedCache, SharedCacheLibrary, add64, sub64, subcache_and_offset_locate_from_addr,
  unslid_address_to_runtime_pointer_translate,
}

pub data TrieResolution : Type 0 where
  at_address : (runtime_address : ℕ) → TrieResolution
  follow_reexport : (target_library_path target_symbol : Bytes) → TrieResolution

-- `libraries.iter().find(|lib| lib.install_path.as_bytes() == install_path)`
unfoldable pub library_find : List SharedCacheLibrary → Bytes → Option SharedCacheLibrary
library_find [] install_path = none
library_find (lib ∷ libs) install_path =
    if bytes_eq lib.install_path install_path then some lib else library_find libs install_path

unfoldable pub library_find_by_install_path : DyldSharedCache → Bytes → Option SharedCacheLibrary
library_find_by_install_path cache install_path = library_find cache.libraries install_path

unfoldable pub is_library_cached : DyldSharedCache → Bytes → Bool
is_library_cached cache install_path = elim (library_find_by_install_path cache install_path) [
  | none ↦ false
  | some _ ↦ true
]

unfoldable pub image_view_for_library : DyldSharedCache → SharedCacheLibrary → Result MachOImage
image_view_for_library cache library = do
  subcache ← unwrap (get_elem? cache.sub_caches library.sub_cache_index)
  ok (record {
    container = subcache.container;
    mach_header_offset = library.mach_header_runtime_offset;
  })

module _ (s : Scroll) (cache : DyldSharedCache) where
  terminal_resolution :
      SharedCacheLibrary → MachOImage → Bytes → ExportTerminal → Result (Option TrieResolution)
  terminal_resolution library image symbol (defined_here offset_from_mach_header) = do
    runtime_address ←
        unslid_address_to_runtime_pointer_translate s cache
          (add64 library.unslid_load_address offset_from_mach_header)
    ok (some (at_address runtime_address))
  terminal_resolution library image symbol (reexported_from_dependency ordinal aliased_name) = do
    path ← dylib_install_path_for_ordinal s image ordinal
    or_none path λ target_library_path.
        ok (some (follow_reexport target_library_path (target_name symbol aliased_name)))

  unfoldable pub try_resolve_via_exports_trie :
      SharedCacheLibrary → Bytes → Result (Option TrieResolution)
  unfolding terminal_resolution
  try_resolve_via_exports_trie library symbol = do
    image ← image_view_for_library cache library
    span ← exports_trie_span_find s image
    or_none span λ sp. do
      segment ← linkedit_segment_find s image
      or_none segment λ linkedit. do
        let trie_unslid_vm = add64 linkedit.vmaddr (sub64 sp.file_offset linkedit.fileoff)
        located ← subcache_and_offset_locate_from_addr s cache trie_unslid_vm
        or_none located λ (hosting_subcache_index, trie_runtime_offset). do
          hosting ← unwrap (get_elem? cache.sub_caches hosting_subcache_index)
          or_none (slice hosting.container trie_runtime_offset sp.size_in_bytes) λ trie_bytes. do
            terminal ← to_result (exports_trie_walk_for_symbol trie_bytes symbol)
            or_none terminal λ t. terminal_resolution library image symbol t

  -- The paths not yet tried; `resolve` has one round less.
  unfoldable pub umbrella_loop :
      (Bytes → Bytes → Result (Option ℕ)) → List Bytes → Bytes → Result (Option ℕ)
  umbrella_loop resolve [] symbol = ok none
  umbrella_loop resolve (reexported_path ∷ paths) symbol = do
    found ← resolve reexported_path symbol
    elim found [ some address ↦ ok (some address) | none ↦ umbrella_loop resolve paths symbol ]

  unfoldable pub try_resolve_via_umbrella_reexports :
      (Bytes → Bytes → Result (Option ℕ)) → SharedCacheLibrary → Bytes → Result (Option ℕ)
  try_resolve_via_umbrella_reexports resolve library symbol = do
    image ← image_view_for_library cache library
    reexported_paths ← reexported_dylib_paths_collect s image
    umbrella_loop resolve reexported_paths symbol

  -- What is done with the answer of a library's trie.
  unfoldable pub resolution_step :
      (Bytes → Bytes → Result (Option ℕ))
      → SharedCacheLibrary
      → Bytes
      → Option TrieResolution
      → Result (Option ℕ)
  resolution_step resolve library symbol (some (at_address runtime_address)) =
      ok (some runtime_address)
  resolution_step resolve library symbol (some (follow_reexport path target)) = resolve path target
  resolution_step resolve library symbol none =
      try_resolve_via_umbrella_reexports resolve library symbol

  unfoldable pub symbol_resolve_with_max_depth : ℕ → Bytes → Bytes → Result (Option ℕ)
  symbol_resolve_with_max_depth zero library_install_path symbol = ok none
  symbol_resolve_with_max_depth (suc depth_budget) library_install_path symbol =
      or_none (library_find_by_install_path cache library_install_path) λ library.
        try_resolve_via_exports_trie library symbol
        >>= resolution_step (symbol_resolve_with_max_depth depth_budget) library symbol

  unfoldable pub symbol_resolve : Bytes → Bytes → Result (Option ℕ)
  symbol_resolve library_install_path symbol =
      symbol_resolve_with_max_depth max_reexport_resolution_depth library_install_path symbol
