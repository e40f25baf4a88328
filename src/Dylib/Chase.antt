-- ===== src/Dylib/Chase.antt =====
-- The chase through re-exports against chains of libraries.
use dynld.Prelude.{ℕ, zero, suc, ◌≡◌, refl, ◌↔◌, Option, none, some, [], Bytes, Result, by_bind, ok}
use dynld.Container.{Container}
use dynld.Scroll.{Scroll}
use dynld.Dylib.{
  DylibSymbol, defined, reexported, or_none, chase_step, dylib_symbol_resolve, chase_loop,
  dylib_symbol_resolve_following_reexports,
}

module _ (s : Scroll) (library_lookup : Bytes → Option Container) where
  -- `symbol` of the library at `path`, in `container`, is defined at the end of a chain of re-exports
  -- through at most `libraries` libraries.
  pub data Chain (found : Bytes × ℕ)
      : (container : Container) (symbol path : Bytes) (libraries : ℕ) → Type 0 where
    definition :
        {container : Container} {symbol path : Bytes} {libraries offset : ℕ}
        → dylib_symbol_resolve s container symbol ≡ ok (some (defined offset))
        → found ≡ (path, offset)
        → Chain found container symbol path (suc libraries)
    reexport :
        {container next : Container} {symbol path target_path target_symbol : Bytes} {libraries : ℕ}
        → dylib_symbol_resolve s container symbol ≡ ok (some (reexported target_path target_symbol))
        → library_lookup target_path ≡ some next
        → Chain found next target_symbol target_path libraries
        → Chain found container symbol path (suc libraries)

  module _ {found : Bytes × ℕ} (depth : ℕ) (container : Container) (symbol path : Bytes)
      (next : Container → Bytes → Bytes → Result (Option (Bytes × ℕ)))
      (again : (c : Container) (x p : Bytes)
        → next c x p ≡ ok (some found)
        → Chain found c x p depth) where
    found_library :
        (o : Option Container) (target_path target_symbol : Bytes)
        → dylib_symbol_resolve s container symbol ≡ ok (some (reexported target_path target_symbol))
        → library_lookup target_path ≡ o
        → or_none o (λ c. next c target_symbol target_path) ≡ ok (some found)
        → Chain found container symbol path (suc depth)
    found_library none target_path target_symbol e e' h = cc
    found_library (some c) target_path target_symbol e e' h =
        reexport e e' (again c target_symbol target_path h)

    chase_step-Chain :
        (resolved : Option DylibSymbol)
        → dylib_symbol_resolve s container symbol ≡ ok resolved
        → chase_step s next path library_lookup resolved ≡ ok (some found)
        → Chain found container symbol path (suc depth)
    unfolding chase_step
    chase_step-Chain none e h = cc
    chase_step-Chain (some (defined offset)) e h = definition e (cc)
    chase_step-Chain (some (reexported target_path target_symbol)) e h =
        found_library (library_lookup target_path) target_path target_symbol e refl h

  chase-Chain :
      (depth : ℕ) (container : Container) (symbol path : Bytes) (found : Bytes × ℕ)
      → chase_loop s depth container symbol path library_lookup ≡ ok (some found)
      → Chain found container symbol path depth
  unfolding chase_loop
  chase-Chain zero container symbol path found h = cc
  chase-Chain (suc depth) container symbol path found h =
      by_bind (dylib_symbol_resolve s container symbol) _ h
        (chase_step-Chain depth container symbol path _ (λ c x p. chase-Chain depth c x p found))

  Chain-chase :
      {found : Bytes × ℕ} {container : Container} {symbol path : Bytes} {libraries : ℕ}
      → Chain found container symbol path libraries
      → chase_loop s libraries container symbol path library_lookup ≡ ok (some found)
  unfolding chase_loop chase_step
  Chain-chase (definition e e') = rw (e, e')
  Chain-chase (reexport e e' more) = rw (e, e') (Chain-chase more)

  -- The chase finds a library and an offset exactly when a chain of re-exports through at most sixteen
  -- libraries, the first one included, ends in that definition.
  pub following_reexports-Chain :
      (container : Container) (symbol : Bytes) (found : Bytes × ℕ)
      → (dylib_symbol_resolve_following_reexports s container symbol library_lookup
          ≡ ok (some found))
        ↔ Chain found container symbol [] 16
  unfolding dylib_symbol_resolve_following_reexports
  following_reexports-Chain container symbol found =
      (chase-Chain 16 container symbol [] found, Chain-chase)
