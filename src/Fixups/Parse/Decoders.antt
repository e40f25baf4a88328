-- ===== src/Fixups/Parse/Decoders.antt =====
-- What the decoders of a single pointer and of an import return: an offset that they were given.
use dynld.Prelude.{
  ℕ, ◌+◌, ◌*◌, ◌/◌, ◌%◌, ◌^◌, ◌<◌, bit_and, ◌≡◌, refl, inl, inr, Bool, true, false, arith, leb,
  ◌==◌, Bool-cases, bit_and_mask, length, Ends-bind, Ends, returned, panicked,
}
use dynld.Container.{Container}
use dynld.Container.Reads.{Anything, string-Ends, Ends-deserialize}
use dynld.Scroll.{Scroll}
use dynld.Bindings.Chained.{
  DyldChainedPtrFormatVariants, dyld_chained_ptr_64, dyld_chained_ptr_64_offset,
  dyld_chained_ptr_arm64e, dyld_chained_ptr_arm64e_userland, dyld_chained_ptr_arm64e_userland24,
  DyldChainedImportFormatVariants, dyld_chained_import, dyld_chained_import_addend,
  dyld_chained_import_addend64,
}
use dynld.Bindings.ChainedPtr.{
  arm64e_rebase_next, arm64e_bind_next, arm64e_auth_rebase_next, arm64e_auth_bind_next,
  ptr_64_rebase_next, ptr_64_bind_next, arm64e_bind_24_next, arm64e_auth_bind_24_next,
}
use dynld.Fixups.{
  Fixup, Imports, import_read, import_symbol_parse, bind_parse, fixup_64_parse_one,
  fixup_arm64e_parse_one, fixup_arm64e_userland24_parse_one,
}
use dynld.Fixups.Parse.{fixup_parse_one}

-- What a decoder returns: a distance that is small, and a fixup at the offset that it was given.
abbrev pub At : ℕ → ℕ × Fixup → Type 0
At offset (next, fixup) = (next < 2 ^ 16) × (fixup.offset ≡ offset)

module _ (s : Scroll) (c : Container) where
  import_read-Ends :
      (format : DyldChainedImportFormatVariants) (ordinal imports_offset : ℕ)
      → Ends Anything (import_read s c format ordinal imports_offset)
  unfolding import_read
  import_read-Ends dyld_chained_import ordinal offset =
      Ends-bind (Ends-deserialize s.dyld_chained_import c _ _) λ a e. returned tt
  import_read-Ends dyld_chained_import_addend ordinal offset =
      Ends-bind (Ends-deserialize s.dyld_chained_import_addend c _ _) λ a e. returned tt
  import_read-Ends dyld_chained_import_addend64 ordinal offset =
      Ends-bind (Ends-deserialize s.dyld_chained_import_addend64 c _ _) λ a e. returned tt

  import_symbol_parse-Ends :
      (ordinal : ℕ) (imports : Imports) → Ends Anything (import_symbol_parse s c ordinal imports)
  unfolding import_symbol_parse
  import_symbol_parse-Ends ordinal imports =
      Ends-bind (import_read-Ends imports.format ordinal imports.imports_offset)
        λ (lib, name_offset) _.
          Ends-bind (string-Ends c (imports.symbols_offset + name_offset)) λ name _.
            elim (Bool-cases (leb (length name) 128)) [
              | inl fits ↦ rw fits (returned tt)
              | inr long ↦ rw long panicked
            ]

  bind_parse-Ends :
      (next ordinal offset addend : ℕ) (is_auth : Bool) (imports : Imports)
      → next < 2 ^ 16
      → Ends (At offset) (bind_parse s c next ordinal offset addend is_auth imports)
  unfolding bind_parse
  bind_parse-Ends next ordinal offset addend is_auth imports small =
      Ends-bind (import_symbol_parse-Ends ordinal imports) λ (lib, name) _. returned (small, refl)

  fixup_64-Ends :
      (value offset : ℕ) (imports : Imports)
      → Ends (At offset) (fixup_64_parse_one s c value offset imports)
  unfolding fixup_64_parse_one ptr_64_bind_next ptr_64_rebase_next
  fixup_64-Ends value offset imports = elim (Bool-cases (value / 2 ^ 63 % 2 == 1)) [
    | inl b ↦ rw b (
        bind_parse-Ends _ _ offset _ false imports
          (omega (arith, bit_and_mask 12 (value / 2 ^ 51))))
    | inr r ↦ rw r (returned (omega (arith, bit_and_mask 12 (value / 2 ^ 51)), refl))
  ]

  fixup_arm64e-Ends :
      (value offset : ℕ) (imports : Imports)
      → Ends (At offset) (fixup_arm64e_parse_one s c value offset imports)
  unfolding fixup_arm64e_parse_one arm64e_auth_bind_next arm64e_bind_next arm64e_auth_rebase_next
      arm64e_rebase_next
  fixup_arm64e-Ends value offset imports =
      let small : bit_and (value / 2 ^ 51) 0x7FF * 8 < 2 ^ 16 =
        omega (arith, bit_and_mask 11 (value / 2 ^ 51)) in
      elim (Bool-cases (value / 2 ^ 62 % 2 == 1)) [
        | inl b ↦ elim (Bool-cases (value / 2 ^ 63 % 2 == 1)) [
          | inl a ↦ rw (b, a) (bind_parse-Ends _ _ offset _ true imports small)
          | inr p ↦ rw (b, p) (bind_parse-Ends _ _ offset _ false imports small)
        ]
        | inr r ↦ elim (Bool-cases (value / 2 ^ 63 % 2 == 1)) [
          | inl a ↦ rw (r, a) (returned (small, refl))
          | inr p ↦ rw (r, p) (returned (small, refl))
        ]
      ]

  fixup_userland24-Ends :
      (value offset : ℕ) (imports : Imports)
      → Ends (At offset) (fixup_arm64e_userland24_parse_one s c value offset imports)
  unfolding fixup_arm64e_userland24_parse_one arm64e_auth_bind_24_next arm64e_bind_24_next
  fixup_userland24-Ends value offset imports =
      let small : bit_and (value / 2 ^ 51) 0x7FF * 8 < 2 ^ 16 =
        omega (arith, bit_and_mask 11 (value / 2 ^ 51)) in
      elim (Bool-cases (value / 2 ^ 62 % 2 == 1)) [
        | inl b ↦ elim (Bool-cases (value / 2 ^ 63 % 2 == 1)) [
          | inl a ↦ rw (b, a) (bind_parse-Ends _ _ offset _ true imports small)
          | inr p ↦ rw (b, p) (bind_parse-Ends _ _ offset _ false imports small)
        ]
        | inr r ↦ rw r (fixup_arm64e-Ends value offset imports)
      ]

  pub fixup_parse_one-Ends :
      (format : DyldChainedPtrFormatVariants) (value offset : ℕ) (imports : Imports)
      → Ends (At offset) (fixup_parse_one s c format value offset imports)
  unfolding fixup_parse_one
  fixup_parse_one-Ends dyld_chained_ptr_64 value offset imports = fixup_64-Ends value offset imports
  fixup_parse_one-Ends dyld_chained_ptr_64_offset value offset imports =
      fixup_64-Ends value offset imports
  fixup_parse_one-Ends dyld_chained_ptr_arm64e value offset imports =
      fixup_arm64e-Ends value offset imports
  fixup_parse_one-Ends dyld_chained_ptr_arm64e_userland value offset imports =
      fixup_arm64e-Ends value offset imports
  fixup_parse_one-Ends dyld_chained_ptr_arm64e_userland24 value offset imports =
      fixup_userland24-Ends value offset imports
  fixup_parse_one-Ends _ value offset imports = panicked
