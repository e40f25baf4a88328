-- ===== src/Prelude/Lists.antt =====
-- Lists measured and indexed by native numbers, and byte strings as lists of numbers.
use Prim.Native.Nat.{ℕ, zero, suc, ◌+◌, ◌-◌, ◌<◌, min}
use mathlib.Core.Path.{◌≡◌, refl, ap, subst}
use mathlib.Core.Bool.{Bool, true, false, ◌&&◌}
use mathlib.Core.List.{List, [], ◌∷◌, ◌++◌}
use mathlib.Core.Option.{Option, none, some}
use native.Mathlib.Omega.{arith}
use dynld.Prelude.Tests.{◌==◌}

module _ {ℓ} {A : Type ℓ} where
  abbrev pub length : List A → ℕ
  length [] = 0
  length (x ∷ xs) = suc (length xs)

  abbrev pub get_elem? : List A → ℕ → Option A
  get_elem? [] i = none
  get_elem? (x ∷ xs) zero = some x
  get_elem? (x ∷ xs) (suc i) = get_elem? xs i

  -- A write out of bounds changes nothing.
  abbrev pub set : List A → ℕ → A → List A
  set [] i v = []
  set (x ∷ xs) zero v = v ∷ xs
  set (x ∷ xs) (suc i) v = x ∷ set xs i v

  abbrev pub take : ℕ → List A → List A
  take zero xs = []
  take (suc n) [] = []
  take (suc n) (x ∷ xs) = x ∷ take n xs

  abbrev pub drop : ℕ → List A → List A
  drop zero xs = xs
  drop (suc n) [] = []
  drop (suc n) (x ∷ xs) = drop n xs

  abbrev pub replicate : ℕ → A → List A
  replicate zero a = []
  replicate (suc n) a = a ∷ replicate n a

module _ {ℓ} {A : Type ℓ} where
  pub length-append : (xs ys : List A) → length (xs ++ ys) ≡ length xs + length ys
  length-append [] ys = omega arith
  length-append (x ∷ xs) ys = omega (arith, length-append xs ys)

  pub length-take : (n : ℕ) (xs : List A) → length (take n xs) ≡ min n (length xs)
  length-take zero xs = omega arith
  length-take (suc n) [] = omega arith
  length-take (suc n) (x ∷ xs) = omega (arith, length-take n xs)

  pub length-drop : (n : ℕ) (xs : List A) → length (drop n xs) ≡ length xs - n
  length-drop zero xs = omega arith
  length-drop (suc n) [] = omega arith
  length-drop (suc n) (x ∷ xs) = omega (arith, length-drop n xs)

  pub length-replicate : (n : ℕ) (a : A) → length (replicate n a) ≡ n
  length-replicate zero a = refl
  length-replicate (suc n) a = ap suc (length-replicate n a)

  pub length-set : (xs : List A) (i : ℕ) (v : A) → length (set xs i v) ≡ length xs
  length-set [] i v = refl
  length-set (x ∷ xs) zero v = refl
  length-set (x ∷ xs) (suc i) v = ap suc (length-set xs i v)

module _ {ℓ κ} {A : Type ℓ} where
  abbrev pub All : (A → Type κ) → List A → Type κ
  All P [] = Unit {κ}
  All P (x ∷ xs) = P x × All P xs

pub some_injective {ℓ} : {A : Type ℓ} {a b : A} → some a ≡ some b → a ≡ b
some_injective e = cc

module _ {ℓ κ} {A : Type ℓ} (P : A → Type κ) where
  pub All-append : (xs ys : List A) → All P xs → All P ys → All P (xs ++ ys)
  All-append [] ys hx hy = hy
  All-append (x ∷ xs) ys hx hy = (hx.0, All-append xs ys hx.1 hy)

  pub All-drop : (n : ℕ) (xs : List A) → All P xs → All P (drop n xs)
  All-drop zero xs h = h
  All-drop (suc n) [] h = h
  All-drop (suc n) (x ∷ xs) h = All-drop n xs h.1

  pub All-get_elem? : (xs : List A) (i : ℕ) {x : A} → All P xs → get_elem? xs i ≡ some x → P x
  All-get_elem? [] i h e = cc
  All-get_elem? (x ∷ xs) zero h e = subst P (some_injective e) h.0
  All-get_elem? (x ∷ xs) (suc i) h e = All-get_elem? xs i h.1 e

abbrev pub IsByte : ℕ → Type 0
IsByte b = b < 256

abbrev pub Bytes : Type 0
Bytes = List ℕ

-- Two byte strings are the same.
unfoldable pub bytes_eq : Bytes → Bytes → Bool
bytes_eq [] [] = true
bytes_eq [] (y ∷ ys) = false
bytes_eq (x ∷ xs) [] = false
bytes_eq (x ∷ xs) (y ∷ ys) = (x == y) && bytes_eq xs ys

pub bytes_eq_sound : (xs ys : Bytes) → bytes_eq xs ys ≡ true → xs ≡ ys
unfolding bytes_eq
bytes_eq_sound [] [] h = refl
bytes_eq_sound [] (y ∷ ys) h = cc
bytes_eq_sound (x ∷ xs) [] h = cc
bytes_eq_sound (x ∷ xs) (y ∷ ys) h = ground (arith, bytes_eq_sound xs ys)

pub bytes_eq_refl : (xs : Bytes) → bytes_eq xs xs ≡ true
unfolding bytes_eq
bytes_eq_refl [] = refl
bytes_eq_refl (x ∷ xs) = ground (arith, bytes_eq_refl xs)

pub get_elem?-middle {ℓ} :
    {A : Type ℓ} (before : List A) (a : A) (after : List A)
    → get_elem? (before ++ (a ∷ after)) (length before) ≡ some a
get_elem?-middle [] a after = refl
get_elem?-middle (b ∷ bs) a after = get_elem?-middle bs a after
