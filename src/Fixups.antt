-- ===== src/Fixups.antt =====
-- src/fixups.rs: the parser of chained fixups. Sums of `u32` and `u64` fields wrap as they do in a
-- release build. A `Vec` that is pushed to is a list that is appended to.
pub mod Parse
pub mod Decode
pub mod Apply
mod Runs
use dynld.Prelude.{
  ◌>>=◌, ℕ, ◌+◌, ◌*◌, ◌/◌, ◌%◌, ◌^◌, bit_or, Bool, true, false, leb, ◌==◌, if◌then◌else◌, length,
  Bytes, Result, map_err, ok, panic,
}
use dynld.Container.{Container, deserialize_type_at_offset, deserialize_string_at_offset}
use dynld.Scroll.{Scroll}
use dynld.Bindings.Chained.{
  DyldChainedImportFormatVariants, dyld_chained_import, dyld_chained_import_addend,
  dyld_chained_import_addend64,
}
use dynld.Bindings.ChainedPtr.{
  arm64e_rebase_target, arm64e_rebase_high8, arm64e_rebase_next, arm64e_bind_ordinal,
  arm64e_bind_addend, arm64e_bind_next, arm64e_auth_rebase_target, arm64e_auth_rebase_next,
  arm64e_auth_bind_ordinal, arm64e_auth_bind_next, ptr_64_rebase_target, ptr_64_rebase_high8,
  ptr_64_rebase_next, ptr_64_bind_ordinal, ptr_64_bind_addend, ptr_64_bind_next,
  arm64e_bind_24_ordinal, arm64e_bind_24_addend, arm64e_bind_24_next, arm64e_auth_bind_24_ordinal,
  arm64e_auth_bind_24_next, import_lib_ordinal, import_name_offset,
}
use dynld.Image.{symbol_name_len}

pub data FixupKind : Type 0 where
  rebase : (target : ℕ) → FixupKind
  bind : (symbol_name : Bytes) → (ordinal : ℕ) → (is_auth : Bool) → (addend : ℕ) → FixupKind

pub record Fixup : Type 0 where
  pub offset : ℕ
  pub kind : FixupKind

abbrev pub fixup_rebase : ℕ → ℕ → Fixup
fixup_rebase offset target = record { offset = offset; kind = rebase target }

abbrev pub fixup_bind : ℕ → Bytes → ℕ → ℕ → Bool → Fixup
fixup_bind offset symbol_name ordinal addend is_auth = record {
  offset = offset;
  kind = bind symbol_name ordinal is_auth addend;
}

-- What every decoder is given about the imports.
pub record Imports : Type 0 where
  pub format : DyldChainedImportFormatVariants
  pub imports_offset : ℕ
  pub symbols_offset : ℕ

-- `ArrayString::try_from_str(name).unwrap()`
abbrev pub array_string : Bytes → Result Bytes
array_string name = if leb (length name) symbol_name_len then ok name else panic

module _ (s : Scroll) (container : Container) where
  -- The library ordinal of an import and the offset of its name. With an addend, the code takes the
  -- addend for the offset.
  import_read : DyldChainedImportFormatVariants → ℕ → ℕ → Result (ℕ × ℕ)
  import_read dyld_chained_import ordinal imports_offset = do
    import ←
        map_err
          (deserialize_type_at_offset ⦃p = s.dyld_chained_import⦄ container
            (imports_offset + ordinal * 4 % 2 ^ 32))
          "error: could parse a dyld_chained_import_format_variants::DYLD_CHAINED_IMPORT from imports_offset"
    ok (import_lib_ordinal import, import_name_offset import)
  import_read dyld_chained_import_addend ordinal imports_offset = do
    import ←
        map_err
          (deserialize_type_at_offset ⦃p = s.dyld_chained_import_addend⦄ container
            (imports_offset + ordinal * 8 % 2 ^ 32))
          "error: could parse a dyld_chained_import_format_variants::DYLD_CHAINED_IMPORT_ADDEND from imports_offset"
    ok (import_lib_ordinal import.header, import.addend)
  import_read dyld_chained_import_addend64 ordinal imports_offset = do
    import ←
        map_err
          (deserialize_type_at_offset ⦃p = s.dyld_chained_import_addend64⦄ container
            (imports_offset + ordinal * 16 % 2 ^ 32))
          "error: could parse a dyld_chained_import_format_variants::DYLD_CHAINED_IMPORT_ADDEND64 from imports_offset"
    ok (import_lib_ordinal import.header, import.addend % 2 ^ 32)

  unfoldable pub import_symbol_parse : ℕ → Imports → Result (ℕ × Bytes)
  unfolding import_read
  import_symbol_parse ordinal imports = do
    (lib_ordinal, name_offset) ← import_read imports.format ordinal imports.imports_offset
    name ← deserialize_string_at_offset container (imports.symbols_offset + name_offset)
    symbol_name ← array_string name
    ok (lib_ordinal, symbol_name)

  -- A bind at `offset`, after `next` bytes the next pointer of the chain.
  bind_parse : (next ordinal offset addend : ℕ) → Bool → Imports → Result (ℕ × Fixup)
  bind_parse next ordinal offset addend is_auth imports = do
    (lib_ordinal, symbol_name) ← import_symbol_parse ordinal imports
    ok (next, fixup_bind offset symbol_name lib_ordinal addend is_auth)

  -- Each decoder returns the distance to the next pointer in bytes, and the fixup.
  unfoldable pub fixup_64_parse_one : ℕ → ℕ → Imports → Result (ℕ × Fixup)
  unfolding bind_parse
  fixup_64_parse_one value offset imports =
      if value / 2 ^ 63 % 2 == 1
      then bind_parse (ptr_64_bind_next value * 4) (ptr_64_bind_ordinal value) offset
          (ptr_64_bind_addend value) false imports
      else ok (
        ptr_64_rebase_next value * 4,
        fixup_rebase offset
            (bit_or (ptr_64_rebase_target value) (ptr_64_rebase_high8 value * 2 ^ 56)),
      )

  unfoldable pub fixup_arm64e_parse_one : ℕ → ℕ → Imports → Result (ℕ × Fixup)
  unfolding bind_parse
  fixup_arm64e_parse_one value offset imports =
      let is_bind = value / 2 ^ 62 % 2 == 1 in
      let is_auth = value / 2 ^ 63 % 2 == 1 in
      if is_bind
      then (if is_auth
          then bind_parse (arm64e_auth_bind_next value * 8) (arm64e_auth_bind_ordinal value) offset
              0 true imports
          else bind_parse (arm64e_bind_next value * 8) (arm64e_bind_ordinal value) offset
              (arm64e_bind_addend value) false imports)
      else if is_auth
      then ok
          (arm64e_auth_rebase_next value * 8, fixup_rebase offset (arm64e_auth_rebase_target value))
      else ok (
        arm64e_rebase_next value * 8,
        fixup_rebase offset
            (bit_or (arm64e_rebase_target value) (arm64e_rebase_high8 value * 2 ^ 56)),
      )

  unfoldable pub fixup_arm64e_userland24_parse_one : ℕ → ℕ → Imports → Result (ℕ × Fixup)
  unfolding bind_parse
  fixup_arm64e_userland24_parse_one value offset imports =
      if value / 2 ^ 62 % 2 == 1
      then (if value / 2 ^ 63 % 2 == 1
          then bind_parse (arm64e_auth_bind_24_next value * 8) (arm64e_auth_bind_24_ordinal value)
              offset 0 true imports
          else bind_parse (arm64e_bind_24_next value * 8) (arm64e_bind_24_ordinal value) offset
              (arm64e_bind_24_addend value) false imports)
      else fixup_arm64e_parse_one value offset imports
