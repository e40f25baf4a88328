-- ===== src/Loader/Dependencies/Order.antt =====
-- src/loader.rs: the dependencies in the order in which the parser recorded them.
use mathlib.Core.Path.{subst}
use dynld.Prelude.{
  ℕ, zero, suc, ◌+◌, ◌≤◌, ◌<◌, ◌≡◌, refl, sym, ap, ◌∙◌, ◌⊎◌, inl, inr, Bool, true, false, Option,
  none, some, List, [], ◌∷◌, ◌++◌, map, append-nil, append_assoc, arith, leb, ◌==◌, leb→le,
  Bool-cases, length, get_elem?, length-append, some_injective, Bytes, Result, ok_injective,
  by_bind, ok, err,
}
use dynld.Array.{FixedVec, new_array, deref}
use dynld.Array.Holding.{Holds, new_array-Holds, deref-Holds, push-room, len-Holds, room-Holds}
use dynld.SharedCache.{DyldSharedCache}
use dynld.SharedCache.Resolve.{is_library_cached}
use dynld.Loader.Parser.{Rpath}
use dynld.Loader.Dependencies.{
  LoadedLibrary, loaded_system, loaded_user, max_dependencies, dependencies_loop,
  dependencies_collect, user_dylib_disk_path_resolve, user_dylib_load, user_dylibs_load_recursively,
}

-- Each library with whether the cache has it.
abbrev pub with_cached : DyldSharedCache → Bytes × ℕ → Bytes × Bool
with_cached cache (lib_name, name_offset) = (lib_name, is_library_cached cache lib_name)

module _ (cache : DyldSharedCache) where
  dependencies_loop-all :
      (libraries : List (Bytes × ℕ)) (dependencies : FixedVec (Bytes × Bool))
      (items : List (Bytes × Bool))
      → Holds max_dependencies dependencies items
      → length items + length libraries ≤ max_dependencies
      → (collected : FixedVec (Bytes × Bool)) × (dependencies_loop cache libraries dependencies
          ≡ ok collected)
        × Holds max_dependencies collected (items ++ map (with_cached cache) libraries)
  unfolding dependencies_loop
  dependencies_loop-all [] dependencies items h room = (dependencies, refl, rw (append-nil items) h)
  dependencies_loop-all ((name, o) ∷ libraries) dependencies items h room =
      let not_full : (dependencies.len == max_dependencies) ≡ false = ground (arith, len-Holds h) in
      let (next, pushed, h') = push-room (name, is_library_cached cache name) h (omega arith) in
      let (collected, e, held) =
        dependencies_loop-all libraries next (items ++ ((name, is_library_cached cache name) ∷ []))
          h' (omega (arith, length-append items ((name, is_library_cached cache name) ∷ []))) in
      (
        collected,
        rw (not_full, pushed) e,
        rw
            (← append_assoc items ((name, is_library_cached cache name) ∷ [])
              (map (with_cached cache) libraries))
            held,
      )

  dependencies_loop-many :
      (libraries : List (Bytes × ℕ)) (dependencies : FixedVec (Bytes × Bool))
      (items : List (Bytes × Bool))
      → Holds max_dependencies dependencies items
      → max_dependencies < length items + length libraries
      → dependencies_loop cache libraries dependencies ≡ err "exceeded maximum amount of dylibs"
  unfolding dependencies_loop
  dependencies_loop-many [] dependencies items h many = absurd (omega (arith, room-Holds h))
  dependencies_loop-many ((name, o) ∷ libraries) dependencies items h many =
      elim (Bool-cases (dependencies.len == max_dependencies)) [
        | inl full ↦ rw full refl
        | inr e ↦
            let room : length items < max_dependencies =
              ground (arith, len-Holds h, room-Holds h) in
            let (next, pushed, h') = push-room (name, is_library_cached cache name) h room in
            rw (e, pushed)
              (dependencies_loop-many libraries next
                (items ++ ((name, is_library_cached cache name) ∷ [])) h'
                (omega (arith, length-append items ((name, is_library_cached cache name) ∷ []))))
      ]

  -- Of at most 32 libraries, in a vector of a capacity below 2^32, all are collected, in their order, each with whether the shared cache has
  -- it; of more it is an error.
  pub dependencies_collect-all :
      (n : ℕ) (libraries : FixedVec (Bytes × ℕ)) (names : List (Bytes × ℕ))
      → Holds n libraries names
      → (length names ≤ 32
          × (collected : FixedVec (Bytes × Bool)) × (dependencies_collect libraries cache
              ≡ ok collected)
          × Holds 32 collected (map (with_cached cache) names))
        ⊎ (32 < length names
            × (dependencies_collect libraries cache ≡ err "exceeded maximum amount of dylibs"))
  unfolding dependencies_collect
  dependencies_collect-all n libraries names h =
      let empty = new_array-Holds max_dependencies (omega arith) in
      elim (Bool-cases (leb (length names) 32)) [
        | inl e ↦
            let few : length names ≤ 32 = leb→le (length names) 32 e in
            let (collected, collects, held) =
              dependencies_loop-all names (new_array max_dependencies) [] empty (omega arith) in
            inl (few, collected, rw (deref-Holds h) collects, held)
        | inr e ↦
            let many : 32 < length names = ground arith in
            inr (
              many,
              rw (deref-Holds h) (
                  dependencies_loop-many names (new_array max_dependencies) [] empty (omega arith)),
            )
      ]

get_elem?-map {ℓ κ} :
    {A : Type ℓ} {B : Type κ} (f : A → B) (xs : List A) (i : ℕ) {x : A}
    → get_elem? xs i ≡ some x
    → get_elem? (map f xs) i ≡ some (f x)
get_elem?-map f [] i e = absurd (let q : none ≡ some _ = e in cc)
get_elem?-map f (y ∷ ys) zero e = ap (λ z. some (f z)) (some_injective e)
get_elem?-map f (y ∷ ys) (suc i) e = get_elem?-map f ys i e

length-map {ℓ κ} :
    {A : Type ℓ} {B : Type κ} (f : A → B) (xs : List A) → length (map f xs) ≡ length xs
length-map f [] = refl
length-map f (x ∷ xs) = omega (arith, length-map f xs)

module _ {W : Type 0} (load : Bytes → W → Result ((ℕ × ℕ) × W)) (exec_dir : Bytes)
    (rpath : Option Rpath) where
  -- What stands for a dependency: the name of one in the cache, and for another the region that it was
  -- loaded to from its path.
  abbrev pub StandsFor : Bytes × Bool → Option LoadedLibrary → Type 0
  StandsFor (name, true) library = library ≡ some (loaded_system name)
  StandsFor (name, false) library =
      (path : Bytes) × (vm : ℕ) × (vm_size : ℕ) × (w : W) × (w' : W) × (user_dylib_disk_path_resolve
          name rpath exec_dir
        ≡ ok path)
      × (load path w ≡ ok ((vm, vm_size), w'))
      × (library ≡ some (loaded_user vm vm_size))

  user_dylib-StandsFor :
      (name : Bytes) (is_system : Bool) (w w' : W) (library : LoadedLibrary)
      → user_dylib_load load exec_dir rpath name is_system w ≡ ok (library, w')
      → StandsFor (name, is_system) (some library)
  unfolding user_dylib_load
  user_dylib-StandsFor name true w w' library h =
      ap (λ (r : LoadedLibrary × W). some r.0) (sym (ok_injective h))
  user_dylib-StandsFor name false w w' library h =
      by_bind (user_dylib_disk_path_resolve name rpath exec_dir) _ h λ path p f.
        by_bind (load path w) _ f λ ((vm, vm_size), w1) e g. (
          path,
          vm,
          vm_size,
          w,
          w1,
          p,
          e,
          ap (λ (r : LoadedLibrary × W). some r.0) (sym (ok_injective g)),
        )

  AllStand : List (Bytes × Bool) → List LoadedLibrary → Type 0
  AllStand dependencies libraries =
      (i : ℕ) (dependency : Bytes × Bool)
      → get_elem? dependencies i ≡ some dependency
      → StandsFor dependency (get_elem? libraries i)

  cons-AllStand :
      (dependency : Bytes × Bool) (dependencies : List (Bytes × Bool)) (library : LoadedLibrary)
      (libraries : List LoadedLibrary)
      → StandsFor dependency (some library)
      → AllStand dependencies libraries
      → AllStand (dependency ∷ dependencies) (library ∷ libraries)
  unfolding AllStand
  cons-AllStand d ds library libraries here each zero dependency e =
      subst (λ d'. StandsFor d' (some library)) (some_injective e) here
  cons-AllStand d ds library libraries here each (suc i) dependency e = each i dependency e

  user_dylibs-StandsFor :
      (dependencies : List (Bytes × Bool)) (w w' : W) (libraries : List LoadedLibrary)
      → user_dylibs_load_recursively load exec_dir rpath dependencies w ≡ ok (libraries, w')
      → (length libraries ≡ length dependencies) × AllStand dependencies libraries
  unfolding user_dylibs_load_recursively AllStand
  user_dylibs-StandsFor [] w w' libraries h = (
    ap (λ (r : List LoadedLibrary × W). length r.0) (sym (ok_injective h)),
    λ i dependency e. absurd (let q : none ≡ some _ = e in cc),
  )
  user_dylibs-StandsFor ((name, is_system) ∷ dependencies) w w' libraries h =
      by_bind (user_dylib_load load exec_dir rpath name is_system w) _ h λ (library, w1) first rest.
        by_bind (user_dylibs_load_recursively load exec_dir rpath dependencies w1) _ rest
          λ (loaded, w2) others g.
            let (count, each) = user_dylibs-StandsFor dependencies w1 w2 loaded others in
            let same : library ∷ loaded ≡ libraries =
              ap (λ (r : List LoadedLibrary × W). r.0) (ok_injective g) in
            let here = user_dylib-StandsFor name is_system w w1 library first in
            subst
              (λ ls.
                (length ls ≡ suc (length dependencies))
                × AllStand ((name, is_system) ∷ dependencies) ls)
              same
              (
                omega (arith, count),
                cons-AllStand (name, is_system) dependencies library loaded here each,
              )

  -- Where the libraries that the parser recorded were collected and all of them loaded, there is one
  -- loaded library for each recorded one, at the same position: the name of one that the shared cache
  -- has, and for any other the address and the size that loading the file at its resolved path gave.
  pub user_dylibs_load-StandsFor :
      (cache : DyldSharedCache) (n : ℕ) (libraries : FixedVec (Bytes × ℕ))
      (names : List (Bytes × ℕ)) (collected : FixedVec (Bytes × Bool))
      (dependencies : List (Bytes × Bool)) (loaded : List LoadedLibrary) (w w' : W)
      → Holds n libraries names
      → dependencies_collect libraries cache ≡ ok collected
      → (let m : Result (List (Bytes × Bool)) = deref collected in m) ≡ ok dependencies
      → user_dylibs_load_recursively load exec_dir rpath dependencies w ≡ ok (loaded, w')
      → (length loaded ≡ length names)
        × ((i : ℕ) (name : Bytes) (name_offset : ℕ)
            → get_elem? names i ≡ some (name, name_offset)
            → StandsFor (name, is_library_cached cache name) (get_elem? loaded i))
  unfolding AllStand
  user_dylibs_load-StandsFor cache n libraries names collected dependencies loaded w w' holds
        collects derefs loads =
      let (count, each) = user_dylibs-StandsFor dependencies w w' loaded loads in
      elim (dependencies_collect-all cache n libraries names holds) [
        | inr (many, fails) ↦ absurd (let q : err _ ≡ ok _ = sym fails ∙ collects in cc)
        | inl (few, collected', collects', held) ↦
            let one : collected' ≡ collected = ok_injective (sym collects' ∙ collects) in
            let listed : (let m : Result (List (Bytes × Bool)) = deref collected in m)
                ≡ ok (map (with_cached cache) names) =
              subst
                (λ v.
                  (let m : Result (List (Bytes × Bool)) = deref v in m)
                  ≡ ok (map (with_cached cache) names))
                one (deref-Holds held) in
            let same : dependencies ≡ map (with_cached cache) names =
              ok_injective (sym derefs ∙ listed) in
            (
              count ∙ ap length same ∙ length-map (with_cached cache) names,
              λ i name name_offset e.
                  each i (name, is_library_cached cache name)
                    (ap (λ ds. get_elem? ds i) same ∙ get_elem?-map (with_cached cache) names i e),
            )
      ]
