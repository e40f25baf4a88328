-- ===== src/Fixups/Apply/Writes.antt =====
-- What applying fixups does to the memory.
pub mod Inside
use dynld.Prelude.{
  ℕ, ◌+◌, ◌-◌, ◌*◌, ◌/◌, ◌%◌, ◌^◌, ◌≤◌, ◌<◌, ◌≡◌, refl, sym, ap, ◌∙◌, ◌⊎◌, inl, inr, Bool, true,
  false, ◌&&◌, Option, none, some, List, [], ◌∷◌, ◌++◌, arith, ltb, leb, ◌==◌, Bool-cases,
  get_elem?, All, Bytes, ◌>>=◌, ◌>>◌, ok_or, unwrap, ok_injective, by_bind, bind_assoc, ok,
}
use mathlib.Core.Path.{subst}
use dynld.Scroll.{Scroll}
use dynld.Image.{Symbol}
use dynld.Dylib.{DylibSymbol, defined, reexported, dylib_symbol_resolve}
use dynld.Fixups.{FixupKind, rebase, bind, Fixup, fixup_rebase}
use dynld.Fixups.Apply.{
  Memory, store_u64, Library, system, user, SymbolResolve, symbol_find, pointer,
  fixup_dylib_weak_symbol, defined_store, system_store, fixup_regular_symbol, bind_apply,
  fixup_apply, fixup_all_chained_fixups,
}

-- The `u64` at an address, least significant byte first.
unfoldable pub load_u64 : Memory → ℕ → ℕ
load_u64 m a =
    m a
    + m (a + 1) * 256
    + m (a + 2) * 256 ^ 2
    + m (a + 3) * 256 ^ 3
    + m (a + 4) * 256 ^ 4
    + m (a + 5) * 256 ^ 5
    + m (a + 6) * 256 ^ 6
    + m (a + 7) * 256 ^ 7

store_u64-frame :
    (addr value : ℕ) (m : Memory) (a : ℕ)
    → (a < addr) ⊎ (addr + 8 ≤ a)
    → store_u64 addr value m a ≡ m a
unfolding store_u64
store_u64-frame addr value m a (inl below) = ground arith
store_u64-frame addr value m a (inr above) = ground arith

-- Byte `k` of a word that was stored.
store_u64-byte :
    (addr value : ℕ) (m : Memory) (k a : ℕ)
    → a ≡ addr + k
    → k < 8
    → store_u64 addr value m a ≡ value / 256 ^ k % 256
unfolding store_u64
store_u64-byte addr value m k a e small =
    let d : a - addr ≡ k = omega arith in
    let inside : (leb addr a && ltb a (addr + 8)) ≡ true = ground arith in rw (inside, d) refl

load_u64-store_u64 :
    (addr value : ℕ) (m : Memory) → value < 2 ^ 64 → load_u64 (store_u64 addr value m) addr ≡ value
unfolding load_u64
load_u64-store_u64 addr value m fits =
    let byte : (k a : ℕ) → a ≡ addr + k → k < 8 → store_u64 addr value m a ≡ value / 256 ^ k % 256 =
      store_u64-byte addr value m in
    omega (
      arith,
      byte 0 addr (omega arith) (omega arith),
      byte 1 (addr + 1) refl (omega arith),
      byte 2 (addr + 2) refl (omega arith),
      byte 3 (addr + 3) refl (omega arith),
      byte 4 (addr + 4) refl (omega arith),
      byte 5 (addr + 5) refl (omega arith),
      byte 6 (addr + 6) refl (omega arith),
      byte 7 (addr + 7) refl (omega arith),
    )

module _ (s : Scroll) (dst page_zero_size : ℕ) where
  -- The memory stays as it is, or the word that the fixup points to is replaced.
  abbrev pub Writes : ℕ → Memory → Memory → Type 0
  Writes offset m m' =
      (m' ≡ m) ⊎ ((value : ℕ) × (m' ≡ store_u64 (pointer dst page_zero_size offset) value m))

  weak-Writes :
      (offset : ℕ) (symbols : List Symbol) (symbol_name : Bytes) (m : Memory) {m' : Memory}
      → fixup_dylib_weak_symbol s dst page_zero_size offset symbols symbol_name m ≡ ok m'
      → Writes offset m m'
  unfolding fixup_dylib_weak_symbol
  weak-Writes offset symbols symbol_name m h =
      by_bind (ok_or (symbol_find symbols symbol_name) _) _ h
        λ symbol e h'. inr (_, sym (ok_injective h'))

  defined-Writes :
      (offset address : ℕ) (resolved : DylibSymbol) (m : Memory) {m' : Memory}
      → defined_store s dst page_zero_size offset address resolved m ≡ ok m'
      → Writes offset m m'
  unfolding defined_store
  defined-Writes offset address (defined from_header) m h = inr (_, sym (ok_injective h))
  defined-Writes offset address (reexported path symbol) m h = absurd cc

  system-Writes :
      (offset : ℕ) (symbol_name path : Bytes) (cache : Option SymbolResolve) (m : Memory)
      {m' : Memory}
      → system_store s dst page_zero_size offset symbol_name path cache m ≡ ok m'
      → Writes offset m m'
  unfolding system_store
  system-Writes offset symbol_name path none m h = absurd cc
  system-Writes offset symbol_name path (some symbol_resolve) m h =
      by_bind (symbol_resolve path symbol_name) _ h λ resolved e h'.
        by_bind (ok_or resolved _) _ h' λ address e' h''. inr (_, sym (ok_injective h''))

  regular-Writes :
      (offset : ℕ) (symbol_name : Bytes) (library : Library) (cache : Option SymbolResolve)
      (m : Memory) {m' : Memory}
      → fixup_regular_symbol s dst page_zero_size offset symbol_name library cache m ≡ ok m'
      → Writes offset m m'
  unfolding fixup_regular_symbol
  regular-Writes offset symbol_name (system path) cache m h =
      system-Writes offset symbol_name path cache m h
  regular-Writes offset symbol_name (user container address) cache m h =
      by_bind (dylib_symbol_resolve s container symbol_name) _ h λ resolved e h'.
        by_bind (ok_or resolved _) _ h' λ symbol e' h''. defined-Writes offset address symbol m h''

  module _ (symbols : List Symbol) (dylibs : List Library) (cache : Option SymbolResolve) where
    bind-Writes :
        (offset : ℕ) (symbol_name : Bytes) (ordinal : ℕ) (m : Memory) {m' : Memory}
        → bind_apply s dst page_zero_size symbols dylibs cache offset symbol_name ordinal m ≡ ok m'
        → Writes offset m m'
    unfolding bind_apply
    bind-Writes offset symbol_name ordinal m h = elim (Bool-cases (ordinal == 0)) [
      | inl e ↦ absurd (let q = rw e at h in cc)
      | inr e ↦ elim (Bool-cases (ordinal == 255)) [
        | inl e' ↦ absurd (let q = rw (e, e') at h in cc)
        | inr e' ↦ elim (Bool-cases (ordinal == 254)) [
          | inl e'' ↦ absurd (let q = rw (e, e', e'') at h in cc)
          | inr e'' ↦ elim (Bool-cases (ordinal == 253)) [
            | inl w ↦ weak-Writes offset symbols symbol_name m (rw (e, e', e'', w) at h)
            | inr w ↦
                by_bind (unwrap (get_elem? dylibs (ordinal - 1))) _ (rw (e, e', e'', w) at h)
                  λ library found h'. regular-Writes offset symbol_name library cache m h'
          ]
        ]
      ]
    ]

    fixup_apply-Writes :
        (ignore_binds : Bool) (offset : ℕ) (kind : FixupKind) (m : Memory) {m' : Memory}
        → fixup_apply s dst page_zero_size symbols dylibs cache ignore_binds offset kind m ≡ ok m'
        → Writes offset m m'
    unfolding fixup_apply
    fixup_apply-Writes ignore_binds offset (rebase target) m h = inr (_, sym (ok_injective h))
    fixup_apply-Writes true offset (bind symbol_name ordinal is_auth addend) m h =
        inl (sym (ok_injective h))
    fixup_apply-Writes false offset (bind symbol_name ordinal is_auth addend) m h =
        bind-Writes offset symbol_name ordinal m h

    -- The address is in none of the words that the fixups point to.
    abbrev pub Avoids : ℕ → List Fixup → Type 0
    Avoids a = All (λ (f : Fixup).
        (a < pointer dst page_zero_size f.offset) ⊎ (pointer dst page_zero_size f.offset + 8 ≤ a))

    Writes-frame :
        (offset a : ℕ) (m m' : Memory)
        → (a < pointer dst page_zero_size offset) ⊎ (pointer dst page_zero_size offset + 8 ≤ a)
        → Writes offset m m'
        → m' a ≡ m a
    Writes-frame offset a m m' away (inl same) = ap (λ f. f a) same
    Writes-frame offset a m m' away (inr (value, e)) =
        ap (λ f. f a) e ∙ store_u64-frame (pointer dst page_zero_size offset) value m a away

    -- When all fixups are applied, rebases and binds alike, a byte that lies in none of the eight-byte
    -- words that they point to is what it was.
    pub fixup_all-frame :
        (ignore_binds : Bool) (fixups : List Fixup) (m m' : Memory) (a : ℕ)
        → fixup_all_chained_fixups s dst page_zero_size symbols dylibs cache ignore_binds fixups m
          ≡ ok m'
        → Avoids a fixups
        → m' a ≡ m a
    unfolding fixup_all_chained_fixups
    fixup_all-frame ignore_binds [] m m' a h away = ap (λ f. f a) (sym (ok_injective h))
    fixup_all-frame ignore_binds (f ∷ fs) m m' a h (here, away) =
        by_bind
          (fixup_apply s dst page_zero_size symbols dylibs cache ignore_binds f.offset f.kind m) _ h
          λ m'' e h'.
            fixup_all-frame ignore_binds fs m'' m' a h' away
            ∙ Writes-frame f.offset a m m'' here
                (fixup_apply-Writes ignore_binds f.offset f.kind m e)

    load_u64-frame :
        (ignore_binds : Bool) (fixups : List Fixup) (m m' : Memory) (a : ℕ)
        → fixup_all_chained_fixups s dst page_zero_size symbols dylibs cache ignore_binds fixups m
          ≡ ok m'
        → ((k : ℕ) → k < 8 → Avoids (a + k) fixups)
        → load_u64 m' a ≡ load_u64 m a
    unfolding load_u64
    load_u64-frame ignore_binds fixups m m' a h away =
        let same : (k : ℕ) → k < 8 → m' (a + k) ≡ m (a + k) =
          λ k small. fixup_all-frame ignore_binds fixups m m' (a + k) h (away k small) in
        let first : m' a ≡ m a =
          fixup_all-frame ignore_binds fixups m m' a h
            (subst (λ x. Avoids x fixups) (omega arith) (away 0 (omega arith))) in
        omega (
          arith,
          first,
          same 1 (omega arith),
          same 2 (omega arith),
          same 3 (omega arith),
          same 4 (omega arith),
          same 5 (omega arith),
          same 6 (omega arith),
          same 7 (omega arith),
        )

    fixup_all-append :
        (ignore_binds : Bool) (before after : List Fixup) (m : Memory)
        → fixup_all_chained_fixups s dst page_zero_size symbols dylibs cache ignore_binds
            (before ++ after)
            m
          ≡ (fixup_all_chained_fixups s dst page_zero_size symbols dylibs cache ignore_binds before
                m
              >>= fixup_all_chained_fixups s dst page_zero_size symbols dylibs cache ignore_binds
                  after)
    unfolding fixup_all_chained_fixups
    fixup_all-append ignore_binds [] after m = refl
    fixup_all-append ignore_binds (f ∷ fs) after m =
        bind_assoc
          (fixup_apply s dst page_zero_size symbols dylibs cache ignore_binds f.offset f.kind m) _ _
          _ (λ m'. fixup_all-append ignore_binds fs after m')

    -- When all fixups are applied, the word that a rebase points to holds the address of its target, if
    -- the fixups after it leave that word alone.
    pub fixup_all-rebase :
        (ignore_binds : Bool) (before after : List Fixup) (offset target : ℕ) (m m' : Memory)
        → fixup_all_chained_fixups s dst page_zero_size symbols dylibs cache ignore_binds
            (before ++ (fixup_rebase offset target ∷ after))
            m
          ≡ ok m'
        → ((k : ℕ) → k < 8 → Avoids (pointer dst page_zero_size offset + k) after)
        → load_u64 m' (pointer dst page_zero_size offset) ≡ pointer dst page_zero_size target
    unfolding fixup_all_chained_fixups fixup_apply
    fixup_all-rebase ignore_binds before after offset target m m' h away =
        by_bind
          (fixup_all_chained_fixups s dst page_zero_size symbols dylibs cache ignore_binds before m)
          _ (sym (fixup_all-append ignore_binds before (fixup_rebase offset target ∷ after) m) ∙ h)
          λ m'' e h'.
            load_u64-frame ignore_binds after _ m' (pointer dst page_zero_size offset) h' away
            ∙ load_u64-store_u64 (pointer dst page_zero_size offset)
                (pointer dst page_zero_size target) m'' (omega arith)
