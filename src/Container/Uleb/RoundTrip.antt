-- ===== src/Container/Uleb/RoundTrip.antt =====
-- `read_uleb128` against the encoder of the format.
use dynld.Prelude.{
  ℕ, zero, suc, ◌+◌, ◌*◌, ◌/◌, ◌%◌, ◌^◌, ◌≤◌, ◌<◌, ◌≡◌, ap, some, [], ◌∷◌, ◌++◌, arith, ltb,
  if◌then◌else◌, bit_and_one_bit, length, Bytes,
}
use native.Mathlib.Decide.{ℕ_discrete}
use dynld.Container.Uleb.{uleb128_loop, read_uleb128}
use dynld.Container.Uleb.Value.{kept, next_result, pow_seven, next_fits}

-- ULEB128 as the DWARF standard defines it: groups of seven bits, the lowest first, bit 7 set on
-- all but the last. `k` bounds the bytes that may still follow the first.
unfoldable pub encode_uleb128 : ℕ → ℕ → Bytes
encode_uleb128 zero v = v ∷ []
encode_uleb128 (suc k) v =
    let rest = encode_uleb128 k (v / 128) in if ltb v 128 then v ∷ [] else (v % 128 + 128) ∷ rest

kept_whole : (r s j w : ℕ) → s ≡ 7 * j → w < 128 → r + w * 2 ^ s < 2 ^ 64 → kept j w ≡ w
kept_whole r s j w at small fits = elim (ℕ_discrete j 9) [
  | yes e ↦
      let top : s ≡ 63 = omega arith in
      let fits' : r + w * 2 ^ 63 < 2 ^ 64 = rw top at fits in rw e (omega arith)
  | no e ↦ ground arith
]

module _ (rest : Bytes) (i r s j : ℕ) (at : s ≡ 7 * j) (fits : r < 2 ^ s) where
  last_byte :
      (w : ℕ)
      → j ≤ 9
      → w < 128
      → r + w * 2 ^ s < 2 ^ 64
      → uleb128_loop (w ∷ rest) i r s ≡ some (r + w * 2 ^ s, i + 1)
  unfolding uleb128_loop
  last_byte w in_word small whole =
      ground
        (arith, bit_and_one_bit 7 w, next_result r s j w at in_word fits, kept_whole r s j w at)

  inner_byte :
      (g : ℕ)
      → j < 9
      → g < 128
      → uleb128_loop ((g + 128) ∷ rest) i r s ≡ uleb128_loop rest (i + 1) (r + g * 2 ^ s) (s + 7)
  unfolding uleb128_loop
  inner_byte g in_word small =
      ground (arith, bit_and_one_bit 7 (g + 128), next_result r s j (g + 128) at (omega arith) fits)

-- A number is its lowest group and the groups above it.
carry_groups : (s v : ℕ) → v / 128 * 2 ^ (s + 7) + v % 128 * 2 ^ s ≡ v * 2 ^ s
carry_groups s v =
    let above : v / 128 * 2 ^ (s + 7) ≡ v / 128 * (2 ^ s * 128) =
      ap (λ x. v / 128 * x) (omega (arith, pow_seven s)) in
    let whole : (v / 128 * 128 + v % 128) * 2 ^ s ≡ v * 2 ^ s = ap (λ x. x * 2 ^ s) (omega arith) in
    omega (arith, above, whole)

uleb128_loop-encode :
    (k w i r s j : ℕ) (rest : Bytes)
    → s ≡ 7 * j
    → j + k ≤ 9
    → r < 2 ^ s
    → w < 128 ^ suc k
    → r + w * 2 ^ s < 2 ^ 64
    → uleb128_loop (encode_uleb128 k w ++ rest) i r s
      ≡ some (r + w * 2 ^ s, i + length (encode_uleb128 k w))
unfolding encode_uleb128
uleb128_loop-encode zero w i r s j rest at room fits small whole =
    last_byte rest i r s j at fits w (omega arith) (omega arith) whole
uleb128_loop-encode (suc k) w i r s j rest at room fits small whole = ground (
  arith,
  last_byte rest i r s j at fits w,
  carry_groups s w,
  next_fits r s j w at (omega arith) fits (omega arith),
  inner_byte (encode_uleb128 k (w / 128) ++ rest) i r s j at fits (w % 128),
  uleb128_loop-encode k (w / 128) (i + 1) (r + w % 128 * 2 ^ s) (s + 7) (j + 1) rest,
)

-- `read_uleb128` reads back every `u64` that the format's encoder wrote, whatever follows it, and
-- reports the length of the encoding.
pub read_uleb128-encode :
    (v : ℕ) (rest : Bytes)
    → v < 2 ^ 64
    → read_uleb128 (encode_uleb128 9 v ++ rest) ≡ some (v, length (encode_uleb128 9 v))
unfolding read_uleb128
read_uleb128-encode v rest h = ground (arith, uleb128_loop-encode 9 v 0 0 0 0 rest)
