-- ===== src/Allocator/Align.antt =====
-- Rounding up to a power of two.
use dynld.Prelude.{
  ℕ, zero, suc, ◌+◌, ◌-◌, ◌*◌, ◌/◌, ◌%◌, ◌^◌, ◌≤◌, ◌<◌, bit_and, ◌≡◌, refl, ap, arith, bit_and_step,
  bit_and_mask,
}
use native.Mathlib.Nat.{
  pow-suc, one-le-pow, div-div-eq-div-mul, div-lt_iff_lt-mul, mod-eq_of_lt, lt-div-mul-add,
  mul-mod_left, div-mul-le_self, suc-mul,
}
use dynld.Allocator.{align_up}

-- A mask whose low `k` bits are clear clears them.
bit_and_high : (k x q : ℕ) → bit_and x (q * 2 ^ k) ≡ bit_and (x / 2 ^ k) q * 2 ^ k
bit_and_high zero x q = ground arith
bit_and_high (suc k) x q = ground (
  arith,
  bit_and_step x (q * 2 ^ suc k),
  pow-suc 2 k,
  ap (λ (t : ℕ). q * t) (pow-suc 2 k),
  ap (λ (t : ℕ). bit_and (x / 2 / 2 ^ k) q * t) (pow-suc 2 k),
  div-div-eq-div-mul x 2 (2 ^ k),
  bit_and_high k (x / 2) q,
)

pow_sum : (n k j : ℕ) → n ≡ k + j → 2 ^ n ≡ 2 ^ j * 2 ^ k
pow_sum n zero j e = let e' : n ≡ j = omega arith in rw e' (omega arith)
pow_sum zero (suc k) j e = absurd (omega arith)
pow_sum (suc n) (suc k) j e =
    omega (arith, pow-suc 2 n, pow_sum n k j (omega arith), ap (λ (t : ℕ). 2 ^ j * t) (pow-suc 2 k))

one_less : (q p : ℕ) → 1 ≤ q → q * p - p ≡ (q - 1) * p
one_less zero p h = absurd (omega arith)
one_less (suc q) p h =
    let e : suc q - 1 ≡ q = omega arith in omega (arith, suc-mul q p, ap (λ (t : ℕ). t * p) e)

pub align_up-eq :
    (addr k : ℕ)
    → k ≤ 64
    → addr + 2 ^ k ≤ 2 ^ 64
    → align_up addr (2 ^ k) ≡ (addr + 2 ^ k - 1) / 2 ^ k * 2 ^ k
unfolding align_up
align_up-eq addr k small fits =
    let x = addr + 2 ^ k - 1 in
    let whole : 2 ^ 64 ≡ 2 ^ (64 - k) * 2 ^ k = pow_sum 64 k (64 - k) (omega arith) in
    let mask : 2 ^ 64 - 2 ^ k ≡ (2 ^ (64 - k) - 1) * 2 ^ k =
      omega (arith, whole, one_less (2 ^ (64 - k)) (2 ^ k) (one-le-pow (64 - k) 2 (omega arith))) in
    let inside : x % 2 ^ 64 ≡ x = omega (arith, one-le-pow k 2 (omega arith)) in
    let below : x / 2 ^ k < 2 ^ (64 - k) =
      (div-lt_iff_lt-mul (one-le-pow k 2 (omega arith))).1
        (omega (arith, one-le-pow k 2 (omega arith))) in
    let same : x / 2 ^ k % 2 ^ (64 - k) ≡ x / 2 ^ k = mod-eq_of_lt below in
    rw (inside, mask, bit_and_high k x (2 ^ (64 - k) - 1), bit_and_mask (64 - k) (x / 2 ^ k), same)
      refl

-- Rounding an address up to a power of two gives the next multiple, where the sum of the two is at
-- most 2^64.
pub align_up-rounds :
    (addr k : ℕ)
    → k ≤ 64
    → addr + 2 ^ k ≤ 2 ^ 64
    → (addr ≤ align_up addr (2 ^ k))
      × (align_up addr (2 ^ k) < addr + 2 ^ k)
      × (align_up addr (2 ^ k) % 2 ^ k ≡ 0)
align_up-rounds addr k small fits =
    let e = align_up-eq addr k small fits in
    let one = one-le-pow k 2 (omega arith) in
    let up = lt-div-mul-add {a = addr + 2 ^ k - 1} one in
    let down : (addr + 2 ^ k - 1) / 2 ^ k * 2 ^ k ≤ addr + 2 ^ k - 1 = div-mul-le_self _ _ in
    (omega (arith, e, up), omega (arith, e, down, one), rw e (mul-mod_left _ _))
