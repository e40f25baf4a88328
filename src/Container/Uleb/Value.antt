-- ===== src/Container/Uleb/Value.antt =====
-- What `read_uleb128` returns, in plain arithmetic.
use dynld.Prelude.{
  ℕ, zero, suc, ◌+◌, ◌-◌, ◌*◌, ◌%◌, ◌^◌, ◌≤◌, ◌<◌, bit_and, bit_or, ◌≡◌, ap, ◌∙◌, inl, inr, some,
  [], ◌∷◌, arith, ◌==◌, if◌then◌else◌, Bool-cases, bit_or_high, bit_and_mask, length, take, Bytes,
}
use native.Mathlib.Nat.{pow-suc, pow-le-pow_right}
use mathlib.Core.Path.{subst₂}
use native.Mathlib.Decide.{dec_lt}
use native.Mathlib.Numerals.{towards_suc}
use dynld.Container.Uleb.{shifted_group, uleb128_loop, read_uleb128}

-- Groups of seven bits, the lowest first.
unfoldable pub group_value : Bytes → ℕ
group_value [] = 0
group_value (b ∷ bs) = b % 128 + 128 * group_value bs

-- The last group sits at bit 63, and keeps one bit of its seven.
abbrev pub kept : ℕ → ℕ → ℕ
kept j b = if j == 9 then b % 2 else b % 128

shifted_group_lem : (j b : ℕ) → j ≤ 9 → shifted_group b (7 * j) ≡ kept j b * 2 ^ (7 * j)
shifted_group_lem zero b h = ground (arith, bit_and_mask 7 b)
shifted_group_lem (suc zero) b h = omega (arith, bit_and_mask 7 b)
shifted_group_lem (suc (suc zero)) b h = omega (arith, bit_and_mask 7 b)
shifted_group_lem (suc (suc (suc zero))) b h = omega (arith, bit_and_mask 7 b)
shifted_group_lem (suc (suc (suc (suc zero)))) b h = omega (arith, bit_and_mask 7 b)
shifted_group_lem (suc (suc (suc (suc (suc zero))))) b h = omega (arith, bit_and_mask 7 b)
shifted_group_lem (suc (suc (suc (suc (suc (suc zero)))))) b h = omega (arith, bit_and_mask 7 b)
shifted_group_lem (suc (suc (suc (suc (suc (suc (suc zero))))))) b h =
    omega (arith, bit_and_mask 7 b)
shifted_group_lem (suc (suc (suc (suc (suc (suc (suc (suc zero)))))))) b h =
    omega (arith, bit_and_mask 7 b)
shifted_group_lem (suc (suc (suc (suc (suc (suc (suc (suc (suc zero))))))))) b h =
    omega (arith, bit_and_mask 7 b)
shifted_group_lem (suc (suc (suc (suc (suc (suc (suc (suc (suc (suc k)))))))))) b h =
    absurd (omega arith)

pub pow_seven : (s : ℕ) → 2 ^ (s + 7) ≡ 128 * 2 ^ s
pow_seven s =
    simp towards_suc (omega (arith, pow-suc 2 s, pow-suc 2 (suc s), pow-suc 2 (suc (suc s))))

group_fits : (r m p : ℕ) → r < p → m < 128 → r + m * p < 128 * p
group_fits r m p hr hm = grind arith

module _ (r s j b : ℕ) (at : s ≡ 7 * j) (in_word : j ≤ 9) (fits : r < 2 ^ s) where
  pub next_result : bit_or r (shifted_group b s) ≡ r + kept j b * 2 ^ s
  next_result =
      rw (at, shifted_group_lem j b in_word) (bit_or_high (7 * j) r (kept j b) (rw at at fits))

  -- Before the last place the seven bits are all kept, and the result stays below the next shift.
  pub next_fits : j < 9 → r + b % 128 * 2 ^ s < 2 ^ (s + 7)
  next_fits h = rw (pow_seven s) (group_fits r (b % 128) (2 ^ s) fits (omega arith))

  last_inside : j < 9 → r + kept j b * 2 ^ s ≡ (r + b % 128 * 2 ^ s) % 2 ^ 64
  last_inside h = ground (
    arith,
    next_fits h,
    pow-le-pow_right {n = 2} (omega arith) {i = s + 7} {j = 63} (omega arith),
  )

  last_outside : j ≡ 9 → r + kept j b * 2 ^ s ≡ (r + b % 128 * 2 ^ s) % 2 ^ 64
  last_outside h =
      let top : s ≡ 63 = omega arith in
      let r_fits : r < 2 ^ 63 = rw top at fits in rw (h, top) (omega arith)

  last_value : r + kept j b * 2 ^ s ≡ (r + b % 128 * 2 ^ s) % 2 ^ 64
  last_value = elim (dec_lt j 9) [ yes h ↦ last_inside h | no h ↦ last_outside (omega arith) ]

-- `n` counts the bytes read, `i` of them before `bs`.
record IsRead (bs : Bytes) (i r s j v n : ℕ) : Type 0 where
  more : i < n
  inside : n ≤ i + length bs
  at_most : n + j ≤ i + 10
  value : v ≡ (r + group_value (take (n - i) bs) * 2 ^ s) % 2 ^ 64

IsRead-cons :
    (b : ℕ) (bs : Bytes) (i r s j v n : ℕ)
    → IsRead bs (i + 1) (r + b % 128 * 2 ^ s) (s + 7) (j + 1) v n
    → IsRead (b ∷ bs) i r s j v n
unfolding group_value
IsRead-cons b bs i r s j v n h =
    let e : n - i ≡ suc (n - (i + 1)) = omega (arith, h.more) in
    record {
      more = omega arith;
      inside = omega arith;
      at_most = omega arith;
      value = rw e (
          omega (
            arith,
            h.value,
            ap (λ (t : ℕ). group_value (take (n - (i + 1)) bs) * t) (pow_seven s),
          ));
    }

IsRead-last :
    (b : ℕ) (bs : Bytes) (i r s j : ℕ)
    → s ≡ 7 * j
    → j ≤ 9
    → r < 2 ^ s
    → IsRead (b ∷ bs) i r s j (bit_or r (shifted_group b s)) (i + 1)
unfolding group_value
IsRead-last b bs i r s j at in_word fits =
    let e : i + 1 - i ≡ suc 0 = omega arith in
    record {
      more = omega arith;
      inside = omega arith;
      at_most = omega arith;
      value = rw e (
          next_result r s j b at in_word fits
          ∙ last_value r s j b at in_word fits
          ∙ ap (λ t. (r + t * 2 ^ s) % 2 ^ 64) (omega arith));
    }

uleb128_loop-IsRead :
    (bs : Bytes) (i r s j v n : ℕ)
    → s ≡ 7 * j
    → j ≤ 9
    → r < 2 ^ s
    → uleb128_loop bs i r s ≡ some (v, n)
    → IsRead bs i r s j v n
unfolding uleb128_loop
uleb128_loop-IsRead [] i r s j v n at in_word fits e = cc
uleb128_loop-IsRead (b ∷ bs) i r s j v n at in_word fits e =
    elim (Bool-cases (bit_and b 0x80 == 0)) [
      | inl last ↦
          let got : (bit_or r (shifted_group b s) ≡ v) × (i + 1 ≡ n) = ground arith in
          subst₂ (λ v' n'. IsRead (b ∷ bs) i r s j v' n') got.0 got.1
            (IsRead-last b bs i r s j at in_word fits)
      | inr more ↦
          let low : j < 9 = ground arith in
          let sum : bit_or r (shifted_group b s) ≡ r + b % 128 * 2 ^ s =
            next_result r s j b at in_word fits ∙ ground arith in
          let again : uleb128_loop bs (i + 1) (r + b % 128 * 2 ^ s) (s + 7) ≡ some (v, n) =
            rw (← sum) (ground arith) in
          IsRead-cons b bs i r s j v n (
            uleb128_loop-IsRead bs (i + 1) (r + b % 128 * 2 ^ s) (s + 7) (j + 1) v n (omega arith)
              (omega arith) (next_fits r s j b at in_word fits low) again)
    ]

-- Whatever `read_uleb128` returns was read from 1 to 10 bytes at the front of the input, and is the
-- number that their groups of seven bits spell, modulo `2 ^ 64`.
pub read_uleb128-group_value :
    (bytes : Bytes) (v n : ℕ)
    → read_uleb128 bytes ≡ some (v, n)
    → (1 ≤ n) × (n ≤ length bytes) × (n ≤ 10) × (v ≡ group_value (take n bytes) % 2 ^ 64)
unfolding read_uleb128
read_uleb128-group_value bytes v n e =
    let h : IsRead bytes 0 0 0 0 v n =
      uleb128_loop-IsRead bytes 0 0 0 0 v n (omega arith) (omega arith) (omega arith) e in
    (
      h.more,
      omega (arith, h.inside),
      omega (arith, h.at_most),
      h.value ∙ (let e : n - 0 ≡ n = omega arith in rw e (omega arith)),
    )
