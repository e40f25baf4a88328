-- ===== src/SharedCache/Resolve/Ending.antt =====
-- src/dyld_shared_cache.rs: resolving a symbol ends.
use dynld.Prelude.{
  ℕ, zero, suc, ◌+◌, ◌%◌, Option, none, some, List, [], ◌∷◌, Bytes, Result, Ends, returned, refused,
  ok, err,
}
use dynld.Container.{slice}
use dynld.Container.Reads.{Anything, bind-Ends, unwrap-Ends}
use dynld.Scroll.{Scroll}
use dynld.ExportsTrie.{ExportTerminal, defined_here, reexported_from_dependency}
use dynld.Bindings.SharedCache.{DyldCacheMappingInfo}
use dynld.MachOImage.{MachOImage}
use dynld.MachOImage.Ending.{
  exports_trie_span_find-Ends, dylib_install_path-Ends, linkedit_segment_find-Ends,
  reexported_dylib_paths-Ends,
}
use dynld.Dylib.Ending.{or_none-Ends, walk-Ends}
use dynld.SharedCache.{
  DyldSharedSubCache, DyldSharedCache, SharedCacheLibrary, mapping_at, mappings_find_map,
  runtime_offset_for_vm_address, subcaches_find, subcache_and_offset_locate_from_addr,
  unslid_address_to_runtime_pointer_translate,
}
use dynld.SharedCache.Resolve.{
  TrieResolution, at_address, follow_reexport, library_find_by_install_path, image_view_for_library,
  terminal_resolution, try_resolve_via_exports_trie, umbrella_loop,
  try_resolve_via_umbrella_reexports, resolution_step, symbol_resolve_with_max_depth,
  symbol_resolve,
}

next-Ends :
    (i : ℕ) {rest : Result (Option (ℕ × ℕ))}
    → Ends Anything rest
    → (found : Option ℕ)
    → Ends Anything (elim found [ some offset ↦ ok (some (i % 256, offset)) | none ↦ rest ])
next-Ends i h none = h
next-Ends i h (some offset) = returned tt

tried-Ends :
    {rest : Result (Option ℕ)}
    → Ends Anything rest
    → (found : Option ℕ)
    → Ends Anything (elim found [ some address ↦ ok (some address) | none ↦ rest ])
tried-Ends h none = h
tried-Ends h (some address) = returned tt

located-Ends :
    (answer : ℕ) (located : Option (ℕ × ℕ))
    → Ends Anything (
        let m : Result ℕ = elim located [
          | none ↦ err "vm address not covered by any cache mapping"
          | some _ ↦ ok answer
        ] in
        m)
located-Ends answer none = refused
located-Ends answer (some r) = returned tt

module _ (s : Scroll) where
  mapping_at-Ends : (sub : DyldSharedSubCache) (i : ℕ) → Ends Anything (mapping_at s sub i)
  unfolding mapping_at
  mapping_at-Ends sub i = unwrap-Ends _

  mappings_find_map-Ends :
      (entries : ℕ) (sub : DyldSharedSubCache) (i : ℕ) (visit : DyldCacheMappingInfo → Option ℕ)
      → Ends Anything (mappings_find_map s entries sub i visit)
  unfolding mappings_find_map
  mappings_find_map-Ends zero sub i visit = returned tt
  mappings_find_map-Ends (suc entries) sub i visit =
      bind-Ends (mapping_at-Ends sub i)
        λ mapping. tried-Ends (mappings_find_map-Ends entries sub (i + 1) visit) (visit mapping)

  subcaches_find-Ends :
      (subs : List DyldSharedSubCache) (i address : ℕ)
      → Ends Anything (subcaches_find s subs i address)
  unfolding subcaches_find runtime_offset_for_vm_address
  subcaches_find-Ends [] i address = returned tt
  subcaches_find-Ends (sub ∷ subs) i address =
      bind-Ends (mappings_find_map-Ends _ sub 0 _)
        (next-Ends i (subcaches_find-Ends subs (i + 1) address))

  locate-Ends :
      (cache : DyldSharedCache) (address : ℕ)
      → Ends Anything (subcache_and_offset_locate_from_addr s cache address)
  unfolding subcache_and_offset_locate_from_addr
  locate-Ends cache address = subcaches_find-Ends cache.sub_caches 0 address

  translate-Ends :
      (cache : DyldSharedCache) (address : ℕ)
      → Ends Anything (unslid_address_to_runtime_pointer_translate s cache address)
  unfolding unslid_address_to_runtime_pointer_translate
  translate-Ends cache address = bind-Ends (locate-Ends cache address) (located-Ends _)

  module _ (cache : DyldSharedCache) where
    view-Ends :
        (library : SharedCacheLibrary) → Ends Anything (image_view_for_library cache library)
    unfolding image_view_for_library
    view-Ends library = bind-Ends (unwrap-Ends _) λ sub. returned tt

    terminal_resolution-Ends :
        (library : SharedCacheLibrary) (image : MachOImage) (symbol : Bytes) (t : ExportTerminal)
        → Ends Anything (terminal_resolution s cache library image symbol t)
    unfolding terminal_resolution
    terminal_resolution-Ends library image symbol (defined_here offset) =
        bind-Ends (translate-Ends cache _) λ address. returned tt
    terminal_resolution-Ends library image symbol
          (reexported_from_dependency ordinal aliased_name) =
        bind-Ends (dylib_install_path-Ends s image ordinal)
          λ path. or_none-Ends path λ target. returned tt

    by_trie-Ends :
        (library : SharedCacheLibrary) (symbol : Bytes)
        → Ends Anything (try_resolve_via_exports_trie s cache library symbol)
    unfolding try_resolve_via_exports_trie
    by_trie-Ends library symbol = bind-Ends (view-Ends library) λ image.
        bind-Ends (exports_trie_span_find-Ends s image) λ span. or_none-Ends span λ sp.
          bind-Ends (linkedit_segment_find-Ends s image) λ segment. or_none-Ends segment λ linkedit.
            bind-Ends (locate-Ends cache _) λ located. or_none-Ends located λ (index, offset).
              bind-Ends (unwrap-Ends _) λ hosting.
                or_none-Ends (slice hosting.container offset sp.size_in_bytes) λ trie_bytes.
                  bind-Ends (walk-Ends trie_bytes symbol) λ terminal.
                    or_none-Ends terminal λ t. terminal_resolution-Ends library image symbol t

    module _ (resolve : Bytes → Bytes → Result (Option ℕ))
        (resolves : (path symbol : Bytes) → Ends Anything (resolve path symbol)) where
      umbrella_loop-Ends :
          (paths : List Bytes) (symbol : Bytes)
          → Ends Anything (umbrella_loop s cache resolve paths symbol)
      unfolding umbrella_loop
      umbrella_loop-Ends [] symbol = returned tt
      umbrella_loop-Ends (path ∷ paths) symbol =
          bind-Ends (resolves path symbol) (tried-Ends (umbrella_loop-Ends paths symbol))

      resolution_step-Ends :
          (library : SharedCacheLibrary) (symbol : Bytes) (r : Option TrieResolution)
          → Ends Anything (resolution_step s cache resolve library symbol r)
      unfolding resolution_step try_resolve_via_umbrella_reexports
      resolution_step-Ends library symbol (some (at_address a)) = returned tt
      resolution_step-Ends library symbol (some (follow_reexport path target)) =
          resolves path target
      resolution_step-Ends library symbol none = bind-Ends (view-Ends library) λ image.
          bind-Ends (reexported_dylib_paths-Ends s image) λ paths. umbrella_loop-Ends paths symbol

    depth-Ends :
        (depth : ℕ) (path symbol : Bytes)
        → Ends Anything (symbol_resolve_with_max_depth s cache depth path symbol)
    unfolding symbol_resolve_with_max_depth
    depth-Ends zero path symbol = returned tt
    depth-Ends (suc depth) path symbol =
        or_none-Ends (library_find_by_install_path cache path) λ library.
          bind-Ends (by_trie-Ends library symbol)
            λ r. resolution_step-Ends _ (depth-Ends depth) library symbol r

    -- Resolving a symbol ends, whatever the tries and the re-exports of the cache are.
    pub symbol_resolve-Ends :
        (path symbol : Bytes) → Ends Anything (symbol_resolve s cache path symbol)
    unfolding symbol_resolve
    symbol_resolve-Ends path symbol = depth-Ends 16 path symbol
