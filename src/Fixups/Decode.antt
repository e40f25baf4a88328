-- ===== src/Fixups/Decode.antt =====
-- The decoders on values that are packed as the pointer formats document.
use dynld.Prelude.{
  ℕ, ◌+◌, ◌*◌, ◌/◌, ◌%◌, ◌^◌, ◌<◌, bit_and, ◌≡◌, refl, true, false, arith, ◌==◌, bit_or_high,
  bit_and_mask, Bytes, ok,
}
use dynld.Container.{Container}
use dynld.Scroll.{Scroll}
use dynld.Bindings.ChainedPtr.{ptr_64_bind_ordinal, ptr_64_bind_addend, ptr_64_bind_next}
use dynld.Bindings.ChainedPtr.Layout.{pack_64, pack_arm64e, ptr_64_rebase-pack, arm64e_rebase-pack}
use dynld.Fixups.{
  Imports, fixup_rebase, fixup_bind, bind_parse, import_symbol_parse, fixup_64_parse_one,
  fixup_arm64e_parse_one,
}

-- The high byte of a pointer on top of its target.
abbrev pub with_high8 : (target high8 : ℕ) → ℕ
with_high8 target high8 = target + high8 * 2 ^ 56

-- Ordinal, addend, 19 reserved bits, the distance and the bind flag of a DYLD_CHAINED_PTR_64 bind.
abbrev pub pack_64_bind : (ordinal addend reserved next : ℕ) → ℕ
pack_64_bind ordinal addend reserved next =
    ordinal + addend * 2 ^ 24 + reserved * 2 ^ 32 + next * 2 ^ 51 + 2 ^ 63

module _ (s : Scroll) (c : Container) (imports : Imports) (offset : ℕ) where
  -- A packed DYLD_CHAINED_PTR_64 rebase decodes to a rebase to its target with the high byte on top,
  -- and to a distance of `next` words of four bytes.
  pub fixup_64-rebase :
      (target high8 reserved next : ℕ)
      → target < 2 ^ 36
      → high8 < 2 ^ 8
      → reserved < 2 ^ 7
      → next < 2 ^ 12
      → fixup_64_parse_one s c (pack_64 target high8 reserved next 0) offset imports
        ≡ ok (next * 4, fixup_rebase offset (with_high8 target high8))
  unfolding fixup_64_parse_one
  fixup_64-rebase target high8 reserved next ht hh hr hn =
      let (et, eh, en) = ptr_64_rebase-pack target high8 reserved next 0 ht hh hr hn in
      let plain : (pack_64 target high8 reserved next 0 / 2 ^ 63 % 2 == 1) ≡ false = ground arith in
      rw (plain, et, eh, en, bit_or_high 56 target high8 (omega arith)) refl

  -- A packed DYLD_CHAINED_PTR_64 bind decodes to a bind to the import with that ordinal, with the
  -- addend, and to a distance of `next` words of four bytes.
  pub fixup_64-bind :
      (ordinal addend reserved next lib_ordinal : ℕ) (symbol_name : Bytes)
      → ordinal < 2 ^ 24
      → addend < 2 ^ 8
      → reserved < 2 ^ 19
      → next < 2 ^ 12
      → import_symbol_parse s c ordinal imports ≡ ok (lib_ordinal, symbol_name)
      → fixup_64_parse_one s c (pack_64_bind ordinal addend reserved next) offset imports
        ≡ ok (next * 4, fixup_bind offset symbol_name lib_ordinal addend false)
  unfolding fixup_64_parse_one bind_parse ptr_64_bind_ordinal ptr_64_bind_addend ptr_64_bind_next
  fixup_64-bind ordinal addend reserved next lib_ordinal symbol_name ho ha hr hn imported =
      let x = pack_64_bind ordinal addend reserved next in
      let flag : (x / 2 ^ 63 % 2 == 1) ≡ true = ground arith in
      let eo : bit_and x 0x00FF_FFFF ≡ ordinal = omega (arith, bit_and_mask 24 x) in
      let ea : bit_and (x / 2 ^ 24) 0xFF ≡ addend = omega (arith, bit_and_mask 8 (x / 2 ^ 24)) in
      let en : bit_and (x / 2 ^ 51) 0xFFF ≡ next = omega (arith, bit_and_mask 12 (x / 2 ^ 51)) in
      rw (flag, eo, ea, en, imported) refl

  -- A packed arm64e rebase without authentication decodes to a rebase to its target with the high
  -- byte on top, and to a distance of `next` words of eight bytes.
  pub fixup_arm64e-rebase :
      (target high8 next : ℕ)
      → target < 2 ^ 43
      → high8 < 2 ^ 8
      → next < 2 ^ 11
      → fixup_arm64e_parse_one s c (pack_arm64e target high8 next 0) offset imports
        ≡ ok (next * 8, fixup_rebase offset (with_high8 target high8))
  unfolding fixup_arm64e_parse_one
  fixup_arm64e-rebase target high8 next ht hh hn =
      let (et, eh, en) = arm64e_rebase-pack target high8 next 0 ht hh hn in
      let x = pack_arm64e target high8 next 0 in
      let no_bind : (x / 2 ^ 62 % 2 == 1) ≡ false = ground arith in
      let no_auth : (x / 2 ^ 63 % 2 == 1) ≡ false = ground arith in
      rw (no_bind, no_auth, et, eh, en, bit_or_high 56 target high8 (omega arith)) refl
