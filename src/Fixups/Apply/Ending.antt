-- ===== src/Fixups/Apply/Ending.antt =====
-- src/fixups.rs: applying the fixups ends, if the lookups in the shared cache do.
use dynld.Prelude.{
  ℕ, inl, inr, false, some, List, [], ◌∷◌, ◌==◌, Bool-cases, Bytes, Ends, returned, refused,
  panicked,
}
use dynld.Container.Reads.{Anything, bind-Ends, unwrap-Ends, ok_or-Ends}
use dynld.Scroll.{Scroll}
use dynld.Image.{Symbol}
use dynld.Dylib.{DylibSymbol, defined, reexported}
use dynld.Dylib.Ending.{dylib_symbol_resolve-Ends}
use dynld.Fixups.{FixupKind, rebase, bind, Fixup}
use dynld.Fixups.Apply.{
  Memory, Library, system, user, SymbolResolve, fixup_dylib_weak_symbol, defined_store,
  system_store, fixup_regular_symbol, bind_apply, fixup_apply, fixup_all_chained_fixups,
}

module _ (s : Scroll) (dst page_zero_size : ℕ) (symbols : List Symbol) (dylibs : List Library)
    (resolve : SymbolResolve)
    (resolves : (path symbol : Bytes) → Ends Anything (resolve path symbol)) where
  weak-Ends :
      (offset : ℕ) (name : Bytes) (memory : Memory)
      → Ends Anything (fixup_dylib_weak_symbol s dst page_zero_size offset symbols name memory)
  unfolding fixup_dylib_weak_symbol
  weak-Ends offset name memory = bind-Ends (ok_or-Ends _ _) λ symbol. returned tt

  defined_store-Ends :
      (offset address : ℕ) (symbol : DylibSymbol) (memory : Memory)
      → Ends Anything (defined_store s dst page_zero_size offset address symbol memory)
  unfolding defined_store
  defined_store-Ends offset address (defined o) memory = returned tt
  defined_store-Ends offset address (reexported path name) memory = panicked

  regular-Ends :
      (offset : ℕ) (name : Bytes) (library : Library) (memory : Memory)
      → Ends Anything
          (fixup_regular_symbol s dst page_zero_size offset name library (some resolve) memory)
  unfolding fixup_regular_symbol system_store
  regular-Ends offset name (system path) memory =
      bind-Ends (resolves path name)
        λ resolved. bind-Ends (ok_or-Ends resolved _) λ address. returned tt
  regular-Ends offset name (user container address) memory =
      bind-Ends (dylib_symbol_resolve-Ends s container name) λ resolved.
        bind-Ends (ok_or-Ends resolved _) λ symbol. defined_store-Ends offset address symbol memory

  bind_apply-Ends :
      (offset : ℕ) (name : Bytes) (ordinal : ℕ) (memory : Memory)
      → Ends Anything
          (bind_apply s dst page_zero_size symbols dylibs (some resolve) offset name ordinal memory)
  unfolding bind_apply
  bind_apply-Ends offset name ordinal memory = elim (Bool-cases (ordinal == 0)) [
    | inl e ↦ rw e refused
    | inr e ↦ elim (Bool-cases (ordinal == 255)) [
      | inl e1 ↦ rw (e, e1) refused
      | inr e1 ↦ elim (Bool-cases (ordinal == 254)) [
        | inl e2 ↦ rw (e, e1, e2) refused
        | inr e2 ↦ elim (Bool-cases (ordinal == 253)) [
          | inl e3 ↦ rw (e, e1, e2, e3) (weak-Ends offset name memory)
          | inr e3 ↦
              rw (e, e1, e2, e3)
                (bind-Ends (unwrap-Ends _) λ library. regular-Ends offset name library memory)
        ]
      ]
    ]
  ]

  fixup_apply-Ends :
      (offset : ℕ) (kind : FixupKind) (memory : Memory)
      → Ends Anything
          (fixup_apply s dst page_zero_size symbols dylibs (some resolve) false offset kind memory)
  unfolding fixup_apply
  fixup_apply-Ends offset (rebase target) memory = returned tt
  fixup_apply-Ends offset (bind name ordinal is_auth addend) memory =
      bind_apply-Ends offset name ordinal memory

  pub fixup_all-Ends :
      (fixups : List Fixup) (memory : Memory)
      → Ends Anything (
          fixup_all_chained_fixups s dst page_zero_size symbols dylibs
            (some resolve)
            false
            fixups
            memory)
  unfolding fixup_all_chained_fixups
  fixup_all-Ends [] memory = returned tt
  fixup_all-Ends (fixup ∷ fixups) memory =
      bind-Ends (fixup_apply-Ends fixup.offset fixup.kind memory)
        λ memory'. fixup_all-Ends fixups memory'
