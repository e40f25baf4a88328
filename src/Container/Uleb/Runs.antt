-- ===== src/Container/Uleb/Runs.antt =====
-- Concrete runs of `read_uleb128`, and the theorems at concrete inputs.
use dynld.Prelude.{◌%◌, ◌^◌, ◌≤◌, ◌≡◌, refl, some, [], ◌∷◌, ◌++◌, arith, length, Bytes}
use dynld.Container.Uleb.{read_uleb128}
use dynld.Container.Uleb.Value.{group_value, read_uleb128-group_value}
use dynld.Container.Uleb.RoundTrip.{encode_uleb128, read_uleb128-encode}

abbrev three_bytes : Bytes
three_bytes = 0xe5 ∷ 0x8e ∷ 0x26 ∷ []

reads : read_uleb128 three_bytes ≡ some (624485, 3)
unfolding read_uleb128
reads = refl

-- The tenth byte keeps one bit: `2 ^ 64` is read as 0.
abbrev too_wide : Bytes
too_wide = 0x80 ∷ 0x80 ∷ 0x80 ∷ 0x80 ∷ 0x80 ∷ 0x80 ∷ 0x80 ∷ 0x80 ∷ 0x80 ∷ 2 ∷ []

wraps : read_uleb128 too_wide ≡ some (0, 10)
unfolding read_uleb128
wraps = refl

read_uleb128-group_value_example :
    (1 ≤ 10) × (10 ≤ 10) × (10 ≤ 10) × (0 ≡ group_value too_wide % 2 ^ 64)
read_uleb128-group_value_example = read_uleb128-group_value too_wide 0 10 wraps

read_uleb128-encode_example :
    read_uleb128 (encode_uleb128 9 624485 ++ (7 ∷ []))
    ≡ some (624485, length (encode_uleb128 9 624485))
read_uleb128-encode_example = read_uleb128-encode 624485 (7 ∷ []) (omega arith)
