-- ===== src/SharedCache/Resolve/Found.antt =====
-- Symbol resolution in the shared cache against a relation that says which addresses it may find.
use dynld.Prelude.{
  ℕ, zero, suc, ◌≡◌, refl, ap, ◌∙◌, ◌↔◌, inl, inr, Option, none, some, List, [], ◌∷◌, ◌++◌,
  Option-cases, All, some_injective, Bytes, Result, ok_injective, by_bind, ok,
}
use dynld.Scroll.{Scroll}
use dynld.MachOImage.{MachOImage, reexported_dylib_paths_collect}
use dynld.SharedCache.{DyldSharedCache, SharedCacheLibrary}
use dynld.SharedCache.Resolve.{
  TrieResolution, at_address, follow_reexport, library_find_by_install_path, image_view_for_library,
  try_resolve_via_exports_trie, umbrella_loop, try_resolve_via_umbrella_reexports, resolution_step,
  symbol_resolve_with_max_depth, symbol_resolve,
}

module _ (s : Scroll) (cache : DyldSharedCache) where
  abbrev Unknown : ℕ → Bytes → Bytes → Type 0
  Unknown depth symbol path = symbol_resolve_with_max_depth s cache depth path symbol ≡ ok none

  -- The library at `path` exports `symbol` at the address `found`: by its own trie, by a re-export that
  -- its trie names, or, where its trie has no answer, by the first of the libraries that it re-exports
  -- as a whole that has one. The number bounds the libraries on the way.
  pub data Resolves (found : ℕ) : (path symbol : Bytes) (libraries : ℕ) → Type 0 where
    by_trie :
        {path symbol : Bytes} {libraries : ℕ} (library : SharedCacheLibrary)
        → library_find_by_install_path cache path ≡ some library
        → try_resolve_via_exports_trie s cache library symbol ≡ ok (some (at_address found))
        → Resolves found path symbol (suc libraries)
    by_reexport :
        {path symbol target_path target_symbol : Bytes} {libraries : ℕ}
        (library : SharedCacheLibrary)
        → library_find_by_install_path cache path ≡ some library
        → try_resolve_via_exports_trie s cache library symbol
          ≡ ok (some (follow_reexport target_path target_symbol))
        → Resolves found target_path target_symbol libraries
        → Resolves found path symbol (suc libraries)
    by_umbrella :
        {path symbol reexported_path : Bytes} {libraries : ℕ} (library : SharedCacheLibrary)
        (image : MachOImage) (before after : List Bytes)
        → library_find_by_install_path cache path ≡ some library
        → try_resolve_via_exports_trie s cache library symbol ≡ ok none
        → image_view_for_library cache library ≡ ok image
        → reexported_dylib_paths_collect s image ≡ ok (before ++ (reexported_path ∷ after))
        → All (Unknown libraries symbol) before
        → Resolves found reexported_path symbol libraries
        → Resolves found path symbol (suc libraries)

  -- Where a search of the paths stops.
  record Stops (resolve : Bytes → Bytes → Result (Option ℕ)) (paths : List Bytes) (symbol : Bytes)
      (found : ℕ) : Type 0 where
    before : List Bytes
    path : Bytes
    after : List Bytes
    split : paths ≡ before ++ (path ∷ after)
    unknown : All (λ p. resolve p symbol ≡ ok none) before
    answers : resolve path symbol ≡ ok (some found)

  umbrella-Stops :
      (resolve : Bytes → Bytes → Result (Option ℕ)) (paths : List Bytes) (symbol : Bytes)
      {found : ℕ}
      → umbrella_loop s cache resolve paths symbol ≡ ok (some found)
      → Stops resolve paths symbol found
  unfolding umbrella_loop
  umbrella-Stops resolve [] symbol h = absurd (let q = ok_injective h in cc)
  umbrella-Stops resolve (p ∷ ps) symbol h = by_bind (resolve p symbol) _ h λ answer e h'.
      elim (Option-cases answer) [
        | inr (a, e') ↦ record {
          before = [];
          path = p;
          after = ps;
          split = refl;
          unknown = tt;
          answers = e ∙ ap ok e' ∙ rw e' at h';
        }
        | inl e' ↦
            let later = umbrella-Stops resolve ps symbol (rw e' at h') in
            record {
              before = p ∷ later.before;
              path = later.path;
              after = later.after;
              split = ap (λ l. p ∷ l) later.split;
              unknown = (e ∙ ap ok e', later.unknown);
              answers = later.answers;
            }
      ]

  umbrella_loop-stops :
      (resolve : Bytes → Bytes → Result (Option ℕ)) (before : List Bytes) (path : Bytes)
      (after : List Bytes) (symbol : Bytes) {found : ℕ}
      → All (λ p. resolve p symbol ≡ ok none) before
      → resolve path symbol ≡ ok (some found)
      → umbrella_loop s cache resolve (before ++ (path ∷ after)) symbol ≡ ok (some found)
  unfolding umbrella_loop
  umbrella_loop-stops resolve [] path after symbol unknown e = rw e refl
  umbrella_loop-stops resolve (p ∷ ps) path after symbol (here, unknown) e =
      rw here (umbrella_loop-stops resolve ps path after symbol unknown e)

  module _ (depth : ℕ) (path symbol : Bytes) (library : SharedCacheLibrary)
      (cached : library_find_by_install_path cache path ≡ some library) {found : ℕ}
      (again : (p x : Bytes)
        → symbol_resolve_with_max_depth s cache depth p x ≡ ok (some found)
        → Resolves found p x depth) where
    resolution_step-Resolves :
        (resolution : Option TrieResolution)
        → try_resolve_via_exports_trie s cache library symbol ≡ ok resolution
        → resolution_step s cache
            (symbol_resolve_with_max_depth s cache depth)
            library
            symbol
            resolution
          ≡ ok (some found)
        → Resolves found path symbol (suc depth)
    unfolding resolution_step try_resolve_via_umbrella_reexports
    resolution_step-Resolves (some (at_address a)) e h =
        by_trie library cached
          (e ∙ ap (λ x. ok (some (at_address x))) (some_injective (ok_injective h)))
    resolution_step-Resolves (some (follow_reexport p x)) e h =
        by_reexport library cached e (again p x h)
    resolution_step-Resolves none e h =
        by_bind (image_view_for_library cache library) _ h λ image e' h'.
          by_bind (reexported_dylib_paths_collect s image) _ h' λ paths e'' h''.
            let stop =
              umbrella-Stops (symbol_resolve_with_max_depth s cache depth) paths symbol h'' in
            by_umbrella library image stop.before stop.after cached e e' (e'' ∙ ap ok stop.split)
              stop.unknown (again stop.path symbol stop.answers)

  resolve-Resolves :
      (depth : ℕ) (path symbol : Bytes) {found : ℕ}
      → symbol_resolve_with_max_depth s cache depth path symbol ≡ ok (some found)
      → Resolves found path symbol depth
  unfolding symbol_resolve_with_max_depth
  resolve-Resolves zero path symbol h = absurd (let q = ok_injective h in cc)
  resolve-Resolves (suc depth) path symbol h =
      elim (Option-cases (library_find_by_install_path cache path)) [
        | inl e ↦ absurd (let q = ok_injective (rw e at h) in cc)
        | inr (library, e) ↦
            by_bind (try_resolve_via_exports_trie s cache library symbol) _ (rw e at h) (
              resolution_step-Resolves depth path symbol library e
                (λ p x. resolve-Resolves depth p x))
      ]

  Resolves-resolve :
      {found : ℕ} {path symbol : Bytes} {libraries : ℕ}
      → Resolves found path symbol libraries
      → symbol_resolve_with_max_depth s cache libraries path symbol ≡ ok (some found)
  unfolding symbol_resolve_with_max_depth resolution_step try_resolve_via_umbrella_reexports
  Resolves-resolve (by_trie library e e') = rw (e, e') refl
  Resolves-resolve (by_reexport library e e' more) = rw (e, e') (Resolves-resolve more)
  Resolves-resolve {symbol}
        (by_umbrella {reexported_path} {libraries} library image before after e e' e'' e''' unknown
          more) =
      rw (e, e', e'', e''')
        (umbrella_loop-stops (symbol_resolve_with_max_depth s cache libraries) before
          reexported_path after symbol unknown (Resolves-resolve more))

  -- The shared cache finds an address for a symbol of a library exactly when the symbol resolves to it
  -- through at most sixteen libraries, the first one included.
  pub symbol_resolve-Resolves :
      (library_install_path symbol : Bytes) (found : ℕ)
      → (symbol_resolve s cache library_install_path symbol ≡ ok (some found))
        ↔ Resolves found library_install_path symbol 16
  unfolding symbol_resolve
  symbol_resolve-Resolves path symbol found = (resolve-Resolves 16 path symbol, Resolves-resolve)
