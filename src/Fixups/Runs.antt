-- ===== src/Fixups/Runs.antt =====
-- An image with a chain of two rebases, mapped at 0x1000, and the theorems at it.
use dynld.Prelude.{
  ℕ, ◌+◌, ◌^◌, ◌<◌, ◌≡◌, refl, ◌≢◌, inl, inr, true, false, none, List, [], ◌∷◌, ◌++◌, arith, ltb→lt,
  length, Bytes, bytes_eq, ok, out_of_fuel,
}
use dynld.Container.{
  Container, little, deserialize_type_at_offset, deserialize_string_at_offset, nul_position,
  is_utf8,
}
use dynld.Scroll.Sample.{sample, sample-IsBounded, le_bytes}
use dynld.Scroll.Images.{fixups_image}
use dynld.Bindings.Chained.{dyld_chained_import}
use dynld.Bindings.ChainedPtr.{
  import_lib_ordinal, import_name_offset, ptr_64_rebase_target, ptr_64_rebase_high8,
  ptr_64_rebase_next,
}
use dynld.Bindings.ChainedPtr.Layout.{pack_64, pack_arm64e, pack_import}
use dynld.Image.{Symbol, make_regular_export, array_string_cmp, try_with_container, try_next}
use dynld.Fixups.{
  Fixup, Imports, fixup_rebase, fixup_bind, import_symbol_parse, fixup_64_parse_one,
  fixup_arm64e_parse_one,
}
use dynld.Fixups.Parse.{
  is_chained_fixups, chained_fixups_header_and_offset_find, fixup_parse_one, chain_loop,
  chained_fixups_parse_all,
}
use dynld.Fixups.Parse.Bounds.{AllInside, parse_all-ends, parse_all-AllInside}
use dynld.Fixups.Decode.{
  with_high8, pack_64_bind, fixup_64-rebase, fixup_64-bind, fixup_arm64e-rebase,
}
use dynld.Fixups.Apply.{
  Memory, store_u64, symbol_find, fixup_dylib_weak_symbol, bind_apply, fixup_apply,
  fixup_all_chained_fixups,
}
use dynld.Fixups.Apply.Writes.{load_u64, Avoids, fixup_all-frame, fixup_all-rebase}
use dynld.Fixups.Apply.Writes.Inside.{fixups-outside}

abbrev rebases : List Fixup
rebases = fixup_rebase 108 0x10 ∷ fixup_rebase 116 0x20 ∷ []

parses : chained_fixups_parse_all sample fixups_image ≡ ok rebases
unfolding chained_fixups_parse_all chained_fixups_header_and_offset_find try_with_container try_next
    is_chained_fixups deserialize_type_at_offset fixup_parse_one chain_loop fixup_64_parse_one
    ptr_64_rebase_target ptr_64_rebase_high8 ptr_64_rebase_next
parses = refl

small : length fixups_image.bytes < 2 ^ 63
small = ltb→lt _ _ refl

parse_all-ends_example : chained_fixups_parse_all sample fixups_image ≢ out_of_fuel
parse_all-ends_example = parse_all-ends sample fixups_image sample-IsBounded small

parse_all-AllInside_example : AllInside sample fixups_image sample-IsBounded small rebases
parse_all-AllInside_example =
    parse_all-AllInside sample fixups_image sample-IsBounded small rebases parses

-- One import, of `_a`, for the weak lookup.
abbrev import_image : Container
import_image = record {
  bytes = le_bytes 4 (pack_import 253 0 0) ++ (b'_' ∷ b'a' ∷ 0 ∷ []);
  endian = little;
}

abbrev imports : Imports
imports = record { format = dyld_chained_import; imports_offset = 0; symbols_offset = 4 }

abbrev symbol : Bytes
symbol = b'_' ∷ b'a' ∷ []

imported : import_symbol_parse sample import_image 0 imports ≡ ok (253, symbol)
unfolding import_symbol_parse deserialize_type_at_offset import_lib_ordinal import_name_offset
    deserialize_string_at_offset nul_position is_utf8
imported = refl

fixup_64-rebase_example :
    fixup_64_parse_one sample import_image (pack_64 0x10 0x80 3 2 0) 108 imports
    ≡ ok (8, fixup_rebase 108 (with_high8 0x10 0x80))
fixup_64-rebase_example =
    fixup_64-rebase sample import_image imports 108 0x10 0x80 3 2 (omega arith) (omega arith)
      (omega arith) (omega arith)

fixup_64-bind_example :
    fixup_64_parse_one sample import_image (pack_64_bind 0 7 3 2) 108 imports
    ≡ ok (8, fixup_bind 108 symbol 253 7 false)
fixup_64-bind_example =
    fixup_64-bind sample import_image imports 108 0 7 3 2 253 symbol (omega arith) (omega arith)
      (omega arith) (omega arith) imported

fixup_arm64e-rebase_example :
    fixup_arm64e_parse_one sample import_image (pack_arm64e 0x4000 0x80 2 0) 108 imports
    ≡ ok (16, fixup_rebase 108 (with_high8 0x4000 0x80))
fixup_arm64e-rebase_example =
    fixup_arm64e-rebase sample import_image imports 108 0x4000 0x80 2 (omega arith) (omega arith)
      (omega arith)

abbrev symbols : List Symbol
symbols = make_regular_export symbol 0x40 1 false false ∷ []

-- A weak bind between two rebases.
abbrev binds : List Fixup
binds = fixup_bind 124 symbol 253 0 false ∷ rebases

abbrev memory : Memory
memory a = 0

abbrev after : Memory
after = store_u64 0x1074 0x1020 (store_u64 0x106C 0x1010 (store_u64 0x107C 0x1040 memory))

abbrev rebased : Memory
rebased = store_u64 0x1074 0x1020 (store_u64 0x106C 0x1010 memory)

applies : fixup_all_chained_fixups sample 0x1000 0 symbols [] none false binds memory ≡ ok after
unfolding fixup_all_chained_fixups fixup_apply bind_apply fixup_dylib_weak_symbol symbol_find
    array_string_cmp make_regular_export bytes_eq
applies = refl

rebases_apply :
    fixup_all_chained_fixups sample 0x1000 0 symbols [] none true rebases memory ≡ ok rebased
unfolding fixup_all_chained_fixups fixup_apply
rebases_apply = refl

fixup_all-frame_example : after 0x1084 ≡ memory 0x1084
fixup_all-frame_example =
    fixup_all-frame sample 0x1000 0 symbols [] none false binds memory after 0x1084 applies
      (inr (omega arith), (inr (omega arith), (inr (omega arith), tt)))

away :
    (k : ℕ)
    → k < 8
    → Avoids sample 0x1000 0 symbols [] none (0x106C + k) (fixup_rebase 116 0x20 ∷ [])
away k few = (inl (omega arith), tt)

fixup_all-rebase_example : load_u64 after 0x106C ≡ 0x1010
fixup_all-rebase_example =
    fixup_all-rebase sample 0x1000 0 symbols [] none false (fixup_bind 124 symbol 253 0 false ∷ [])
      (fixup_rebase 116 0x20 ∷ []) 108 0x10 memory after applies away

fixups-outside_example : rebased 0xFFF ≡ memory 0xFFF
fixups-outside_example =
    fixups-outside sample fixups_image sample-IsBounded small 0x1000 0 (ltb→lt _ _ refl) symbols []
      none true rebases memory rebased 0xFFF parses rebases_apply (inl (omega arith))
