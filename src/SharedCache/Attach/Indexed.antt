-- ===== src/SharedCache/Attach/Indexed.antt =====
-- The libraries of an attached cache stand in its own subcaches.
use dynld.Prelude.{
  ℕ, zero, suc, ◌+◌, ◌<◌, ◌≡◌, refl, sym, ap, ◌∙◌, inl, inr, Option, none, some, List, [], ◌∷◌,
  ◌++◌, arith, Bool-cases, Option-cases, length, get_elem?, All, some_injective, All-append, Bytes,
  bytes_eq, ok_or, map_err, unwrap, ok_injective, by_bind, ok,
}
use mathlib.Core.Path.{subst}
use dynld.Container.{deserialize_type_at_offset, deserialize_cstr_at_offset}
use dynld.Scroll.{Scroll}
use dynld.SharedCache.{
  DyldSharedSubCache, SharedCacheLibrary, DyldSharedCache, dsc_header_read,
  runtime_offset_for_file_offset, subcache_and_offset_locate_from_addr,
}
use dynld.SharedCache.Translate.{locate-Hosts}
use dynld.SharedCache.Resolve.{library_find, library_find_by_install_path, image_view_for_library}
use dynld.SharedCache.Attach.{
  to_str, dyld_shared_cache_attach_all, read_main_cache_unslid_base_from,
  read_main_cache_total_mapped_length_from, from_runtime_mapping, attach_loop, library_read,
  push_library, index_loop, main_cache_libraries_index_all, from_existing, new,
}

-- The index of a library is in range.
abbrev pub InRange : List DyldSharedSubCache → SharedCacheLibrary → Type 0
InRange sub_caches library = library.sub_cache_index < length sub_caches

abbrev pub IsIndexed : DyldSharedCache → Type 0
IsIndexed cache = All (InRange cache.sub_caches) cache.libraries

get_elem?-lt-length :
    {A : Type 0} (xs : List A) (i : ℕ) {x : A} → get_elem? xs i ≡ some x → i < length xs
get_elem?-lt-length [] i e = absurd (let q : none ≡ some _ = e in cc)
get_elem?-lt-length (x ∷ xs) zero e = omega arith
get_elem?-lt-length (x ∷ xs) (suc i) e = omega (arith, get_elem?-lt-length xs i e)

module _ (s : Scroll) where
  library_read-InRange :
      (cache : DyldSharedCache) (main : DyldSharedSubCache) (offset : ℕ)
      {library : SharedCacheLibrary}
      → library_read s cache main offset ≡ ok (some library)
      → InRange cache.sub_caches library
  unfolding library_read
  library_read-InRange cache main offset {library} h =
      by_bind
        (map_err (deserialize_type_at_offset ⦃p = s.dyld_cache_image_info⦄ main.container offset) _)
        _ h
        λ info e h'.
          by_bind (subcache_and_offset_locate_from_addr s cache info.address) _ h' λ located e' h''.
            elim (Option-cases located) [
              | inl none_there ↦ absurd (let q = ok_injective (rw none_there at h'') in cc)
              | inr ((index, far), there) ↦
                  by_bind (runtime_offset_for_file_offset s main info.path_file_offset) _
                    (rw there at h'')
                    λ path_offset a k.
                      by_bind (ok_or path_offset _) _ k λ path_runtime_offset a' k'.
                        by_bind (deserialize_cstr_at_offset main.container path_runtime_offset) _ k'
                          λ cstr a'' k''. by_bind (to_str cstr) _ k'' λ path a''' k'''.
                            let host =
                              locate-Hosts s cache info.address index far (e' ∙ ap ok there) in
                            let same : index ≡ library.sub_cache_index =
                              ap (λ (l : SharedCacheLibrary). l.sub_cache_index)
                                (some_injective (ok_injective k''')) in
                            omega (
                              arith,
                              host.as_u8,
                              get_elem?-lt-length cache.sub_caches host.place host.there,
                              same,
                            )
            ]

  push_library-IsIndexed :
      (cache : DyldSharedCache) (library : Option SharedCacheLibrary)
      → IsIndexed cache
      → ((l : SharedCacheLibrary) → library ≡ some l → InRange cache.sub_caches l)
      → IsIndexed (push_library s cache library)
  unfolding push_library
  push_library-IsIndexed cache none indexed k = indexed
  push_library-IsIndexed cache (some library) indexed k =
      All-append (InRange cache.sub_caches) cache.libraries (library ∷ []) indexed
        (k library refl, tt)

  index_loop-IsIndexed :
      (images : ℕ) (main : DyldSharedSubCache) (images_offset image_index : ℕ)
      (cache : DyldSharedCache) {cache' : DyldSharedCache}
      → IsIndexed cache
      → index_loop s images main images_offset image_index cache ≡ ok cache'
      → IsIndexed cache'
  unfolding index_loop
  index_loop-IsIndexed zero main images_offset image_index cache indexed h =
      subst IsIndexed (ok_injective h) indexed
  index_loop-IsIndexed (suc images) main images_offset image_index cache indexed h =
      by_bind (library_read s cache main _) _ h λ library e h'.
        index_loop-IsIndexed images main images_offset (image_index + 1)
          (push_library s cache library)
          (push_library-IsIndexed cache library indexed
            λ l e'. library_read-InRange cache main _ (e ∙ ap ok e'))
          h'

  index_all-IsIndexed :
      (cache : DyldSharedCache) {cache' : DyldSharedCache}
      → IsIndexed cache
      → main_cache_libraries_index_all s cache ≡ ok cache'
      → IsIndexed cache'
  unfolding main_cache_libraries_index_all
  index_all-IsIndexed cache indexed h =
      by_bind (unwrap (get_elem? cache.sub_caches 0)) _ h λ main e h'.
        by_bind (dsc_header_read s main.container) _ h' λ header e' h''.
          index_loop-IsIndexed header.images_count main header.images_offset 0 cache indexed h''

  attach-libraries :
      (memory : ℕ → ℕ) (cache : DyldSharedCache) (pointer : ℕ) {cache' : DyldSharedCache}
      → dyld_shared_cache_attach_all s memory cache pointer ≡ ok cache'
      → cache'.libraries ≡ cache.libraries
  unfolding dyld_shared_cache_attach_all
  attach-libraries memory cache pointer h =
      by_bind (read_main_cache_unslid_base_from s memory pointer) _ h λ base _ h1.
        by_bind (read_main_cache_total_mapped_length_from s memory pointer) _ h1 λ total _ h2.
          by_bind (from_runtime_mapping s memory pointer total base) _ h2 λ main _ h3.
            by_bind (unwrap (get_elem? (cache.sub_caches ++ (main ∷ [])) 0)) _ h3 λ first _ h4.
              by_bind (dsc_header_read s first.container) _ h4 λ header _ h5.
                by_bind
                  (attach_loop s memory header.sub_cache_array_count first.container
                    header.sub_cache_array_offset 0 pointer base (cache.sub_caches ++ (main ∷ [])))
                  _ h5
                  λ sub_caches _ h6.
                    sym (ap (λ (c : DyldSharedCache). c.libraries) (ok_injective h6))

  -- When a new shared cache attaches to the caches in memory, every library that it indexes names one
  -- of its subcaches.
  pub from_existing-IsIndexed :
      (memory : ℕ → ℕ) (main_cache_header_pointer cache_slide : ℕ) (cache : DyldSharedCache)
      → from_existing s memory new main_cache_header_pointer cache_slide ≡ ok cache
      → IsIndexed cache
  unfolding from_existing
  from_existing-IsIndexed memory pointer slide cache h =
      by_bind (dyld_shared_cache_attach_all s memory (record new { cache_slide = slide }) pointer) _
        h
        λ attached e h'.
          index_all-IsIndexed attached
            (subst (All (InRange attached.sub_caches))
              (sym (attach-libraries memory (record new { cache_slide = slide }) pointer e)) tt)
            h'

  library_find-All :
      (P : SharedCacheLibrary → Type 0) (libraries : List SharedCacheLibrary) (path : Bytes)
      {library : SharedCacheLibrary}
      → All P libraries
      → library_find libraries path ≡ some library
      → P library
  unfolding library_find
  library_find-All P [] path all e = absurd (let q : none ≡ some _ = e in cc)
  library_find-All P (l ∷ ls) path (here, all) e =
      elim (Bool-cases (bytes_eq l.install_path path)) [
        | inl same ↦ subst P (some_injective (rw same at e)) here
        | inr other ↦ library_find-All P ls path all (rw other at e)
      ]

  in_range-get_elem? :
      (xs : List DyldSharedSubCache) (i : ℕ)
      → i < length xs
      → (x : DyldSharedSubCache) × (get_elem? xs i ≡ some x)
  in_range-get_elem? [] i small = absurd (omega arith)
  in_range-get_elem? (x ∷ xs) zero small = (x, refl)
  in_range-get_elem? (x ∷ xs) (suc i) small = in_range-get_elem? xs i (omega arith)

  -- After a new shared cache has attached, the view of a library that is found by its path exists: it is
  -- the library's header offset in the bytes of the subcache, one of those that the cache holds, that
  -- stands at the library's index. The index does not panic.
  pub from_existing-image_view :
      (memory : ℕ → ℕ) (main_cache_header_pointer cache_slide : ℕ) (cache : DyldSharedCache)
      (path : Bytes) (library : SharedCacheLibrary)
      → from_existing s memory new main_cache_header_pointer cache_slide ≡ ok cache
      → library_find_by_install_path cache path ≡ some library
      → (sub : DyldSharedSubCache) × (get_elem? cache.sub_caches library.sub_cache_index ≡ some sub)
        × (image_view_for_library cache library
            ≡ ok (record {
              container = sub.container;
              mach_header_offset = library.mach_header_runtime_offset;
            }))
  unfolding library_find_by_install_path image_view_for_library
  from_existing-image_view memory pointer slide cache path library h e =
      let fits =
        library_find-All (InRange cache.sub_caches) cache.libraries path
          (from_existing-IsIndexed memory pointer slide cache h) e in
      let (sub, at) = in_range-get_elem? cache.sub_caches library.sub_cache_index fits in
      (sub, at, rw at refl)
