-- ===== src/Array/Holding.antt =====
-- src/array.rs: a vector that holds a list of items in its first cells, and what its operations do.
use dynld.Prelude.{
  ℕ, ◌+◌, ◌-◌, ◌^◌, ◌≤◌, ◌<◌, ◌≡◌, refl, sym, ap, ◌∙◌, Option, none, List, [], ◌∷◌, ◌++◌, arith,
  length, replicate, length-append, length-replicate, Result, Ends, returned, panicked, ok,
}
use mathlib.Core.Path.{subst}
use dynld.Array.Shape.{push-shape_full, push-shape_room, length-cells, shape, deref-shape}
use dynld.Array.{push, FixedVec, new, new_array, capacity, remaining_capacity, deref}

module _ {ℓ} {A : Type ℓ} where
  -- The vector has `n` cells and holds the items. The length is kept in an `u32`.
  pub record Holds (n : ℕ) (v : FixedVec A) (items : List A) : Type ℓ where
    pub rest : List (Option A)
    pub is_shape : v ≡ shape items rest
    pub capacity_is : length items + length rest ≡ n
    pub capacity_fits : n < 2 ^ 32

  pub new_array-Holds : (n : ℕ) → n < 2 ^ 32 → Holds n (new_array n) []
  unfolding new_array new
  new_array-Holds n fits = record {
    rest = replicate n none;
    is_shape = refl;
    capacity_is = omega (arith, length-replicate {A = Option A} n none);
    capacity_fits = fits;
  }

  pub shape-Holds :
      (n : ℕ) (items : List A) (rest : List (Option A))
      → length items + length rest ≡ n
      → n < 2 ^ 32
      → Holds n (shape items rest) items
  shape-Holds n items rest l fits = record {
    rest = rest;
    is_shape = refl;
    capacity_is = l;
    capacity_fits = fits;
  }

  pub remaining_is :
      (n : ℕ) (items : List A) (rest : List (Option A))
      → length items + length rest ≡ n
      → remaining_capacity (shape items rest) ≡ n - length items
  unfolding remaining_capacity capacity
  remaining_is n items rest l = omega (arith, length-cells items rest)

  pub remaining_capacity-Holds :
      {n : ℕ} {v : FixedVec A} {items : List A}
      → Holds n v items
      → remaining_capacity v ≡ n - length items
  remaining_capacity-Holds {n} {items} h =
      ap remaining_capacity h.is_shape ∙ remaining_is n items h.rest h.capacity_is

  pub deref-Holds :
      {n : ℕ} {v : FixedVec A} {items : List A}
      → Holds n v items
      → (let m : Result (List A) = deref v in m) ≡ ok items
  deref-Holds {items} h = ap deref h.is_shape ∙ deref-shape items h.rest

  -- A push on a vector that is not full.
  pub push-room :
      {n : ℕ} {v : FixedVec A} {items : List A} (x : A)
      → Holds n v items
      → length items < n
      → (v' : FixedVec A) × ((let m : Result (FixedVec A) = push v x in m) ≡ ok v')
        × Holds n v' (items ++ (x ∷ []))
  push-room {n} {v} {items} x h room = go h.rest h.is_shape h.capacity_is
    where
      go :
          (rest : List (Option A))
          → v ≡ shape items rest
          → length items + length rest ≡ n
          → (v' : FixedVec A) × ((let m : Result (FixedVec A) = push v x in m) ≡ ok v')
            × Holds n v' (items ++ (x ∷ []))
      go [] e l = absurd (omega arith)
      go (cell ∷ rest) e l = (
        shape (items ++ (x ∷ [])) rest,
        rw e (push-shape_room items x cell rest (omega (arith, h.capacity_fits))),
        shape-Holds n (items ++ (x ∷ [])) rest (omega (arith, length-append items (x ∷ [])))
            h.capacity_fits,
      )

  pub len-Holds : {n : ℕ} {v : FixedVec A} {items : List A} → Holds n v items → v.len ≡ length items
  len-Holds h = rw h.is_shape refl

  pub room-Holds : {n : ℕ} {v : FixedVec A} {items : List A} → Holds n v items → length items ≤ n
  room-Holds {items} h = omega (arith, h.capacity_is)

  -- A push ends, and where it does not panic the vector has one more item.
  pub push-Ends :
      {n : ℕ} {v : FixedVec A} {items : List A} (x : A)
      → Holds n v items
      → Ends (λ v'. Holds n v' (items ++ (x ∷ []))) (let m : Result (FixedVec A) = push v x in m)
  push-Ends {n} {items} x h =
      subst
        (λ v.
          Ends (λ v'. Holds n v' (items ++ (x ∷ []))) (let m : Result (FixedVec A) = push v x in m))
        (sym h.is_shape) (go h.rest h.capacity_is)
    where
      go :
          (rest : List (Option A))
          → length items + length rest ≡ n
          → Ends
              (λ v'. Holds n v' (items ++ (x ∷ [])))
              (let m : Result (FixedVec A) = push (shape items rest) x in m)
      go [] l = rw (push-shape_full items x) panicked
      go (cell ∷ rest) l = rw (push-shape_room items x cell rest (omega (arith, h.capacity_fits))) (
          returned (
            shape-Holds n (items ++ (x ∷ [])) rest (omega (arith, length-append items (x ∷ [])))
              h.capacity_fits))
