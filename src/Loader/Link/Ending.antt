-- ===== src/Loader/Link/Ending.antt =====
-- src/loader.rs: the loader ends, if user dylibs do not depend on each other in a circle.
use dynld.Prelude.{
  ℕ, zero, suc, ◌%◌, ◌^◌, ◌<◌, ◌≢◌, inl, inr, Bool, true, false, Option, some, List, [], ◌∷◌, map,
  Bool-cases, length, All, Bytes, ◌>>=◌, Result, Ends-mono, Ends-ne_out_of_fuel, Ends, returned,
  refused, panicked, ok, err, panic, out_of_fuel,
}
use dynld.Container.{Container, IsBounded}
use dynld.Container.Reads.{Anything, bind-Ends, ok_or-Ends}
use dynld.Scroll.{Scroll}
use dynld.Array.{deref}
use dynld.Array.Ending.{deref-Ends_any}
use dynld.Image.{Segment}
use dynld.Fixups.Apply.Ending.{fixup_all-Ends}
use dynld.SharedCache.{DyldSharedCache}
use dynld.SharedCache.Resolve.{symbol_resolve}
use dynld.SharedCache.Resolve.Ending.{symbol_resolve-Ends}
use dynld.Loader.Parser.{ParsedImage, Rpath, macho_parser}
use dynld.Loader.Parser.Invariant.{macho_parser-Ends}
use dynld.Loader.Dependencies.{LoadedLibrary, dependencies_collect, user_dylib_disk_path_resolve}
use dynld.Loader.Dependencies.Ending.{
  dependencies_collect-Ends, path-Ends, LoadEnds, user_dylibs-Ends,
}
use dynld.Loader.Link.{
  library_in, disk_path_mmap, at, Process, System, macho_segments_map_to_vm, protect_one,
  macho_segments_vm_protect, image_finalize, image_fixups_apply, dylib_load, load_image,
  macho_loader,
}

-- What holds of the value, if the call returns one.
abbrev pub OnOk {ℓ} : {A : Type ℓ} → (A → Type 0) → Result A → Type 0
OnOk P (ok a) = P a
OnOk P (err e) = Unit {0}
OnOk P panic = Unit {0}
OnOk P out_of_fuel = Unit {0}

OnOk-bind {ℓ κ} :
    {A : Type ℓ} {B : Type κ} (P : A → Type 0) (m : Result A) (f : A → Result B)
    → Ends Anything m
    → OnOk P m
    → ((a : A) → P a → Ends Anything (f a))
    → Ends Anything (m >>= f)
OnOk-bind P (ok a) f h p k = k a p
OnOk-bind P (err e) f h p k = refused
OnOk-bind P panic f h p k = panicked
OnOk-bind P out_of_fuel f h p k = elim h [ ]

module _ (sys : System) (s : Scroll) (cache : DyldSharedCache) (exec_dir : Bytes) where
  -- A dependency in the cache, or one whose file satisfies `P`.
  abbrev pub DependencyIs : (Container → Type 0) → Option Rpath → Bytes × Bool → Type 0
  DependencyIs P rpath (name, true) = Unit {0}
  DependencyIs P rpath (name, false) =
      OnOk (λ path. OnOk P (disk_path_mmap sys path))
        (user_dylib_disk_path_resolve name rpath exec_dir)

  -- The dependencies of an image, as the loader collects them.
  abbrev pub DependenciesAre : (Container → Type 0) → ParsedImage → Type 0
  DependenciesAre P parsed =
      OnOk (λ dependencies. OnOk (All (DependencyIs P parsed.rpath)) (deref dependencies))
        (dependencies_collect parsed.libraries cache)

  -- From this image on, user dylibs depend on each other less than `n` deep, and all the images are below
  -- 4 GiB.
  abbrev pub IsShallow : ℕ → Container → Type 0
  IsShallow zero image = ⊥
  IsShallow (suc n) image =
      length image.bytes < 2 ^ 32 × OnOk (DependenciesAre (IsShallow n)) (macho_parser s image)

  protect_one-Ends :
      (vm : ℕ) (seg : Segment) (set_max : Bool) (p : Process)
      → Ends Anything (protect_one sys vm seg set_max p)
  unfolding protect_one
  protect_one-Ends vm seg set_max p =
      elim (Bool-cases (sys.vm_protect (at vm seg.vm_addr) seg.vm_size set_max seg.prot)) [
        | inl e ↦ rw e (returned tt)
        | inr e ↦ rw e refused
      ]

  protect-Ends :
      (vm : ℕ) (segments : List Segment) (p : Process)
      → Ends Anything (macho_segments_vm_protect sys vm segments p)
  unfolding macho_segments_vm_protect
  protect-Ends vm [] p = returned tt
  protect-Ends vm (seg ∷ segments) p =
      bind-Ends (protect_one-Ends vm seg true p)
        λ p'. bind-Ends (protect_one-Ends vm seg false p') λ p''. protect-Ends vm segments p''

  finalize-Ends :
      (vm : ℕ) (parsed : ParsedImage) (segments : List Segment) (is_executable : Bool) (p : Process)
      → Ends Anything (image_finalize sys vm parsed segments is_executable p)
  unfolding image_finalize
  finalize-Ends vm parsed segments is_executable p =
      bind-Ends (protect-Ends vm segments _) λ p'. returned tt

  map-Ends :
      (skip : Bool) (image : Container) (segments : List Segment) (p : Process)
      → Ends Anything (macho_segments_map_to_vm sys skip image segments p)
  unfolding macho_segments_map_to_vm
  map-Ends skip image segments p = bind-Ends (ok_or-Ends _ _) λ vm. returned tt

  apply-Ends :
      (vm : ℕ) (parsed : ParsedImage) (libraries : List LoadedLibrary) (is_executable : Bool)
      (p : Process)
      → Ends Anything (image_fixups_apply sys s cache vm parsed libraries is_executable p)
  unfolding image_fixups_apply
  apply-Ends vm parsed libraries is_executable p =
      bind-Ends
        (fixup_all-Ends s vm _ parsed.symbols (map (library_in p.memory) libraries)
          (symbol_resolve s cache) (symbol_resolve-Ends s cache) parsed.fixups p.memory)
        λ memory. returned tt

  disk_path_mmap-Ends : (path : Bytes) → Ends Anything (disk_path_mmap sys path)
  unfolding disk_path_mmap
  disk_path_mmap-Ends path = bind-Ends (ok_or-Ends (sys.open_file path) "could not open path") λ fd.
      bind-Ends (ok_or-Ends (sys.fstat (fd % 2 ^ 32)) "could not stat cache file") λ size.
        bind-Ends (ok_or-Ends (sys.mmap_file size (fd % 2 ^ 32)) "could not mmap cache file")
          λ bytes. returned tt

  module _ (n : ℕ) (loader : Bytes → Container → Process → Result ((ℕ × ℕ) × Process))
      (loads : (path : Bytes) (file : Container) (p : Process)
        → IsShallow n file
        → Ends Anything (loader path file p)) where
    dylib_load-Ends :
        (path : Bytes) (p : Process)
        → OnOk (IsShallow n) (disk_path_mmap sys path)
        → Ends Anything (dylib_load sys loader path p)
    unfolding dylib_load
    dylib_load-Ends path p shallow =
        OnOk-bind (IsShallow n) (disk_path_mmap sys path) _ (disk_path_mmap-Ends path) shallow
          λ file here. loads path file p here

    dependency-LoadEnds :
        (rpath : Option Rpath) (dependency : Bytes × Bool)
        → DependencyIs (IsShallow n) rpath dependency
        → LoadEnds (dylib_load sys loader) exec_dir rpath dependency
    dependency-LoadEnds rpath (name, true) h = tt
    dependency-LoadEnds rpath (name, false) h = λ w.
        OnOk-bind _ (user_dylib_disk_path_resolve name rpath exec_dir) _
          (path-Ends name rpath exec_dir) h λ path here. dylib_load-Ends path w here

    dependencies-LoadEnds :
        (rpath : Option Rpath) (dependencies : List (Bytes × Bool))
        → All (DependencyIs (IsShallow n) rpath) dependencies
        → All (LoadEnds (dylib_load sys loader) exec_dir rpath) dependencies
    dependencies-LoadEnds rpath [] h = tt
    dependencies-LoadEnds rpath (d ∷ ds) (here, h) =
        (dependency-LoadEnds rpath d here, dependencies-LoadEnds rpath ds h)

    module _ (u32_bounded : IsBounded s.u32 4) (u64_bounded : IsBounded s.u64 8) where
      load_image-Ends :
          (is_executable : Bool) (image : Container) (p : Process)
          → IsShallow (suc n) image
          → Ends Anything (load_image sys s cache loader is_executable image exec_dir p)
      unfolding load_image
      load_image-Ends is_executable image p (small, shallow) =
          OnOk-bind _ (macho_parser s image) _
            (Ends-mono (macho_parser-Ends s image u32_bounded u64_bounded small) λ a h. tt) shallow
            λ parsed deep.
              OnOk-bind _ (dependencies_collect parsed.libraries cache) _
                (dependencies_collect-Ends parsed.libraries cache) deep
                λ dependencies each.
                  OnOk-bind _ (deref dependencies) _ (deref-Ends_any dependencies) each λ names all.
                    bind-Ends
                      (user_dylibs-Ends _ exec_dir parsed.rpath names p
                        (dependencies-LoadEnds parsed.rpath names all))
                      λ (libraries, p1). bind-Ends (deref-Ends_any parsed.segments) λ segments.
                        bind-Ends (map-Ends is_executable image segments p1) λ ((vm, size), p2).
                          bind-Ends (apply-Ends vm parsed libraries is_executable p2) λ p3.
                            bind-Ends (finalize-Ends vm parsed segments is_executable p3)
                              λ p4. returned tt

  -- The loader ends, with an answer, an error or a panic, on an image from which user dylibs depend on
  -- one another less deep than its fuel, all of them below 4 GiB, if the deserialisers refuse a number
  -- past the end of the bytes.
  pub macho_loader-Ends :
      (fuel : ℕ) (image : Container) (dylib_dir : Option Bytes) (p : Process)
      → IsBounded s.u32 4
      → IsBounded s.u64 8
      → IsShallow fuel image
      → macho_loader sys s cache fuel image exec_dir dylib_dir p ≢ out_of_fuel
  unfolding macho_loader
  macho_loader-Ends fuel image dylib_dir p u32_bounded u64_bounded shallow =
      Ends-ne_out_of_fuel (go fuel image dylib_dir p shallow)
    where
      go :
          (fuel : ℕ) (image : Container) (dylib_dir : Option Bytes) (p : Process)
          → IsShallow fuel image
          → Ends Anything (macho_loader sys s cache fuel image exec_dir dylib_dir p)
      go zero image dylib_dir p h = absurd h
      go (suc n) image dylib_dir p h =
          load_image-Ends n _ (λ path file p' h'. go n file (some path) p' h') u32_bounded
            u64_bounded _ image p h
