-- ===== src/Array.antt =====
-- src/array.rs: vectors and strings in a storage of fixed size. A cell of the storage is `none` while
-- it is uninitialised; a read of such a cell is undefined behaviour, for which the model has `panic`.
-- What `pop` hands out is moved, so its cell is uninitialised again.
pub mod Shape
pub mod Holding
pub mod Refine
pub mod Drain
pub mod Text
pub mod Ending
mod Runs
use dynld.Prelude.{
  ℕ, zero, suc, ◌+◌, ◌-◌, ◌%◌, ◌^◌, Bool, true, false, Option, none, some, List, [], ◌∷◌, ltb, ◌==◌,
  if◌then◌else◌, length, get_elem?, set, take, replicate, Bytes, ◌>>=◌, ◌>>◌, unwrap, Outcome, ok,
  panic, out_of_fuel,
}

module _ {ℓ} where
  -- The storage is a list of its cells; its length is `N`, or the length of the borrowed slice.
  pub record FixedVec (A : Type ℓ) : Type ℓ where
    pub len : ℕ
    pub array : List (Option A)

  pub record IntoIter (A : Type ℓ) : Type ℓ where
    pub index : ℕ
    pub len : ℕ
    pub array : List (Option A)

module _ {ℓ} {A : Type ℓ} where
  unfoldable pub new : List (Option A) → FixedVec A
  new array = record { len = 0; array = array }

  unfoldable pub new_array : ℕ → FixedVec A
  unfolding new
  new_array n = new (replicate n none)

  unfoldable pub capacity : FixedVec A → ℕ
  capacity v = length v.array

  unfoldable pub remaining_capacity : FixedVec A → ℕ
  unfolding capacity
  remaining_capacity v = capacity v - v.len

  unfoldable pub is_full : FixedVec A → Bool
  unfolding remaining_capacity
  is_full v = remaining_capacity v == 0

  unfoldable pub is_empty : FixedVec A → Bool
  is_empty v = v.len == 0

  -- `array.as_mut_ptr().add(index).read()`
  unfoldable pub read : {E : Type 0} → List (Option A) → ℕ → Outcome E A
  read array index = elim (get_elem? array index) [ none ↦ panic | some cell ↦ unwrap cell ]

  -- The error of a full vector is the item, given back.
  unfoldable pub try_push : FixedVec A → A → FixedVec A × Option A
  unfolding is_full
  try_push v item =
      if is_full v
      then (v, some item)
      else (record { len = (v.len + 1) % 2 ^ 32; array = set v.array v.len (some item) }, none)

  -- `match self.try_push(item)`
  or_panic : {E : Type 0} → FixedVec A × Option A → Outcome E (FixedVec A)
  or_panic (v, none) = ok v
  or_panic (v, some given_back) = panic

  unfoldable pub push : {E : Type 0} → FixedVec A → A → Outcome E (FixedVec A)
  unfolding or_panic
  push v item = or_panic (try_push v item)

  unfoldable pub pop : {E : Type 0} → FixedVec A → Outcome E (FixedVec A × Option A)
  unfolding is_empty read
  pop v = if is_empty v then ok (v, none) else do
    item ← read v.array (v.len - 1)
    ok (record { len = v.len - 1; array = set v.array (v.len - 1) none }, some item)

  -- `while self.pop().is_some() {}`
  clear_loop : {E : Type 0} → ℕ → FixedVec A → Outcome E (FixedVec A)
  unfolding pop
  clear_loop zero v = out_of_fuel
  clear_loop (suc fuel) v = do
    (v', item) ← pop v
    elim item [ none ↦ ok v' | some dropped ↦ clear_loop fuel v' ]

  unfoldable pub clear : {E : Type 0} → FixedVec A → Outcome E (FixedVec A)
  unfolding clear_loop
  clear v = clear_loop (suc v.len) v

  -- The cells, all of them read.
  initialised : {E : Type 0} → List (Option A) → Outcome E (List A)
  initialised [] = ok []
  initialised (cell ∷ cells) = do item ← unwrap cell; items ← initialised cells; ok (item ∷ items)

  unfoldable pub deref : {E : Type 0} → FixedVec A → Outcome E (List A)
  unfolding initialised
  deref v = initialised (take v.len v.array)

  unfoldable pub extend : {E : Type 0} → FixedVec A → List A → Outcome E (FixedVec A)
  extend v [] = ok v
  extend v (item ∷ items) = push v item >>= λ v'. extend v' items

  unfoldable pub into_iter : FixedVec A → IntoIter A
  into_iter v = record { index = 0; len = v.len; array = v.array }

  unfoldable pub next : {E : Type 0} → IntoIter A → Outcome E (IntoIter A × Option A)
  unfolding read
  next it = if it.index == it.len then ok (it, none) else do
    item ← read it.array it.index
    ok (record it { index = it.index + 1; array = set it.array it.index none }, some item)

  unfoldable pub next_back : {E : Type 0} → IntoIter A → Outcome E (IntoIter A × Option A)
  unfolding read
  next_back it = if it.index == it.len then ok (it, none) else do
    item ← read it.array (it.len - 1)
    ok (record it { len = it.len - 1; array = set it.array (it.len - 1) none }, some item)

  unfoldable pub size_hint : IntoIter A → ℕ × Option ℕ
  size_hint it = let remaining = it.len - it.index in (remaining, some remaining)

-- An `ArrayString<N>` holds the bytes of a `&str`.
pub record FixedString : Type 0 where
  pub vec : FixedVec ℕ

unfoldable pub new_string : ℕ → FixedString
new_string n = record { vec = new_array n }

unfoldable pub as_str : {E : Type 0} → FixedString → Outcome E Bytes
as_str t = deref t.vec

-- `for &b in s.as_bytes() { let _ = self.vec.try_push(b); }`
push_bytes : FixedVec ℕ → Bytes → FixedVec ℕ
push_bytes v [] = v
push_bytes v (b ∷ bs) = push_bytes (try_push v b).0 bs

unfoldable pub try_push_str : FixedString → Bytes → FixedString × Bool
unfolding push_bytes
try_push_str t text =
    if ltb (remaining_capacity t.vec) (length text)
    then (t, false)
    else (record { vec = push_bytes t.vec text }, true)

unfoldable pub try_from_str : ℕ → Bytes → Option FixedString
try_from_str n text =
    let (this, pushed) = try_push_str (new_string n) text in if pushed then some this else none
