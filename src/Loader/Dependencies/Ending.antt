-- ===== src/Loader/Dependencies/Ending.antt =====
-- src/loader.rs: collecting and loading dependencies ends, if loading each of them does.
use mathlib.Core.Path.{subst}
use dynld.Prelude.{
  ℕ, refl, sym, inl, inr, Bool, true, false, Option, none, some, List, [], ◌∷◌, ◌==◌, Bool-cases,
  Option-cases, All, Bytes, ◌>>=◌, Result, bind_assoc, Ends, returned, refused, panicked, ok,
}
use dynld.Container.Reads.{Anything, bind-Ends}
use dynld.Array.{FixedVec, new_array}
use dynld.Array.Ending.{push-Ends_any, deref-Ends_any}
use dynld.SharedCache.{DyldSharedCache}
use dynld.Loader.Parser.{Rpath, at_loader_path, at_executable_path, at_rpath}
use dynld.Loader.Dependencies.{
  loaded_user, max_dependencies, dependencies_loop, dependencies_collect, strip_prefix,
  rpath_prefix, loader_path_prefix, executable_path_prefix, under_rpath, resolved_path,
  user_dylib_disk_path_resolve, user_dylib_load, user_dylibs_load_recursively,
}

dependencies_loop-Ends :
    (cache : DyldSharedCache) (libraries : List (Bytes × ℕ))
    (dependencies : FixedVec (Bytes × Bool))
    → Ends Anything (dependencies_loop cache libraries dependencies)
unfolding dependencies_loop
dependencies_loop-Ends cache [] dependencies = returned tt
dependencies_loop-Ends cache ((name, o) ∷ libraries) dependencies =
    elim (Bool-cases (dependencies.len == max_dependencies)) [
      | inl e ↦ rw e refused
      | inr e ↦ rw e (
          bind-Ends (push-Ends_any dependencies _)
            λ next. dependencies_loop-Ends cache libraries next)
    ]

pub dependencies_collect-Ends :
    (libraries : FixedVec (Bytes × ℕ)) (cache : DyldSharedCache)
    → Ends Anything (dependencies_collect libraries cache)
unfolding dependencies_collect
dependencies_collect-Ends libraries cache =
    bind-Ends (deref-Ends_any libraries) λ names. dependencies_loop-Ends cache names (new_array 32)

under_rpath-Ends :
    (rpath : Option Rpath) (exec_dir rest : Bytes) → Ends Anything (under_rpath rpath exec_dir rest)
unfolding under_rpath
under_rpath-Ends (some at_loader_path) exec_dir rest = returned tt
under_rpath-Ends (some at_executable_path) exec_dir rest = returned tt
under_rpath-Ends (some at_rpath) exec_dir rest = panicked
under_rpath-Ends none exec_dir rest = returned tt

resolved_path-Ends :
    (name : Bytes) (rpath : Option Rpath) (exec_dir : Bytes)
    → Ends Anything (resolved_path name rpath exec_dir)
unfolding resolved_path
resolved_path-Ends name rpath exec_dir = elim (Option-cases (strip_prefix name rpath_prefix)) [
  | inr (rest, e) ↦ rw (resolved_path, e) (under_rpath-Ends rpath exec_dir rest)
  | inl e ↦ elim (Option-cases (strip_prefix name loader_path_prefix)) [
    | inr (rest, e') ↦ rw (resolved_path, e, e') (returned tt)
    | inl e' ↦ elim (Option-cases (strip_prefix name executable_path_prefix)) [
      | inr (rest, e'') ↦ rw (resolved_path, e, e', e'') (returned tt)
      | inl e'' ↦ rw (resolved_path, e, e', e'') (returned tt)
    ]
  ]
]

pub path-Ends :
    (name : Bytes) (rpath : Option Rpath) (exec_dir : Bytes)
    → Ends Anything (user_dylib_disk_path_resolve name rpath exec_dir)
unfolding user_dylib_disk_path_resolve
path-Ends name rpath exec_dir =
    bind-Ends (resolved_path-Ends name rpath exec_dir) λ path. returned tt

module _ {W : Type 0} (load : Bytes → W → Result ((ℕ × ℕ) × W)) (exec_dir : Bytes)
    (rpath : Option Rpath) where
  -- Loading from the path of a dependency ends.
  abbrev pub LoadEnds : Bytes × Bool → Type 0
  LoadEnds (name, true) = Unit {0}
  LoadEnds (name, false) =
      (w : W)
      → Ends Anything (user_dylib_disk_path_resolve name rpath exec_dir >>= λ path. load path w)

  user_dylib_load-Ends :
      (name : Bytes) (is_system : Bool) (w : W)
      → LoadEnds (name, is_system)
      → Ends Anything (user_dylib_load load exec_dir rpath name is_system w)
  unfolding user_dylib_load
  user_dylib_load-Ends name true w h = returned tt
  user_dylib_load-Ends name false w h =
      subst (Ends Anything)
        (sym (
          bind_assoc (user_dylib_disk_path_resolve name rpath exec_dir) (λ path. load path w)
            (λ (r : (ℕ × ℕ) × W). ok (loaded_user r.0.0 r.0.1, r.1)) _ (λ path. refl)))
        (bind-Ends (h w) λ r. returned tt)

  pub user_dylibs-Ends :
      (dependencies : List (Bytes × Bool)) (w : W)
      → All LoadEnds dependencies
      → Ends Anything (user_dylibs_load_recursively load exec_dir rpath dependencies w)
  unfolding user_dylibs_load_recursively
  user_dylibs-Ends [] w h = returned tt
  user_dylibs-Ends ((name, is_system) ∷ dependencies) w (here, h) =
      bind-Ends (user_dylib_load-Ends name is_system w here)
        λ (library, w'). bind-Ends (user_dylibs-Ends dependencies w' h) λ (loaded, w''). returned tt
