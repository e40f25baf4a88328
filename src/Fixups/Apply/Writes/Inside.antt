-- ===== src/Fixups/Apply/Writes/Inside.antt =====
-- The fixups of an image that are parsed from it and applied to it.
use dynld.Prelude.{
  ℕ, ◌+◌, ◌^◌, ◌≤◌, ◌<◌, ◌≡◌, ◌⊎◌, inl, inr, Bool, Option, List, [], ◌∷◌, arith, length, ok,
}
use dynld.Container.{Container, IsBounded}
use dynld.Scroll.{Scroll}
use dynld.Image.{Symbol}
use dynld.Fixups.{Fixup}
use dynld.Fixups.Parse.{chained_fixups_parse_all}
use dynld.Fixups.Parse.Bounds.{AllInside, parse_all-AllInside}
use dynld.Fixups.Apply.{Memory, Library, SymbolResolve, fixup_all_chained_fixups}
use dynld.Fixups.Apply.Writes.{Avoids, fixup_all-frame}

module _ (s : Scroll) (c : Container) (u64_bounded : IsBounded s.u64 8)
    (in_memory : length c.bytes < 2 ^ 63) (dst page_zero_size : ℕ)
    (mapped : dst + page_zero_size + length c.bytes ≤ 2 ^ 64) (symbols : List Symbol)
    (dylibs : List Library) (cache : Option SymbolResolve) where
  pub outside-Avoids :
      (a : ℕ) (fixups : List Fixup)
      → (a < dst + page_zero_size) ⊎ (dst + page_zero_size + length c.bytes ≤ a)
      → AllInside s c u64_bounded in_memory fixups
      → Avoids s dst page_zero_size symbols dylibs cache a fixups
  outside-Avoids a [] outside inside = tt
  outside-Avoids a (f ∷ fs) outside (here, inside) = (
    elim outside [ inl below ↦ inl (omega arith) | inr above ↦ inr (omega arith) ],
    outside-Avoids a fs outside inside,
  )

  -- The fixups that are parsed from an image of less than 2^63 bytes, with a deserialiser that refuses a
  -- `u64` past the end, and applied to that image where it is mapped, change no byte outside of it.
  pub fixups-outside :
      (ignore_binds : Bool) (fixups : List Fixup) (m m' : Memory) (a : ℕ)
      → chained_fixups_parse_all s c ≡ ok fixups
      → fixup_all_chained_fixups s dst page_zero_size symbols dylibs cache ignore_binds fixups m
        ≡ ok m'
      → (a < dst + page_zero_size) ⊎ (dst + page_zero_size + length c.bytes ≤ a)
      → m' a ≡ m a
  fixups-outside ignore_binds fixups m m' a parsed applied outside =
      fixup_all-frame s dst page_zero_size symbols dylibs cache ignore_binds fixups m m' a applied (
        outside-Avoids a fixups outside
          (parse_all-AllInside s c u64_bounded in_memory fixups parsed))
