-- ===== src/Array/Shape.antt =====
-- src/array.rs: what the calls do to a vector whose first cells are given.
use dynld.Prelude.{
  ℕ, zero, suc, ◌+◌, ◌-◌, ◌%◌, ◌^◌, ◌≤◌, ◌<◌, ◌≡◌, ◌∙◌, refl, ap, ◌⊎◌, inl, inr, true, false,
  Option, none, some, List, [], ◌∷◌, ◌++◌, map, append-nil, append_assoc, arith, ◌==◌, length,
  get_elem?, set, take, length-append, Result, ok, panic,
}
use dynld.Array.{
  FixedVec, capacity, remaining_capacity, is_full, is_empty, read, try_push, or_panic, push, pop,
  clear_loop, clear, initialised, deref, extend,
}

module _ {ℓ} {A : Type ℓ} where
  -- The last item, with those before it.
  abbrev pub split_last : List A → Option (List A × A)
  split_last [] = none
  split_last (x ∷ xs) = elim (split_last xs) [
    | none ↦ some ([], x)
    | some (before, last) ↦ some (x ∷ before, last)
  ]

  -- The vector whose first cells are the items.
  abbrev pub shape : List A → List (Option A) → FixedVec A
  shape items rest = record { len = length items; array = map some items ++ rest }

  pub length-cells :
      (items : List A) (rest : List (Option A))
      → length (map some items ++ rest) ≡ length items + length rest
  length-cells [] rest = omega arith
  length-cells (x ∷ xs) rest = omega (arith, length-cells xs rest)

  pub set-cells :
      (items : List A) (cell new_cell : Option A) (rest : List (Option A))
      → set (map some items ++ (cell ∷ rest)) (length items) new_cell
        ≡ map some items ++ (new_cell ∷ rest)
  set-cells [] cell new_cell rest = refl
  set-cells (x ∷ xs) cell new_cell rest = ap (λ t. some x ∷ t) (set-cells xs cell new_cell rest)

  pub get-cells :
      (items : List A) (cell : Option A) (rest : List (Option A))
      → get_elem? (map some items ++ (cell ∷ rest)) (length items) ≡ some cell
  get-cells [] cell rest = refl
  get-cells (x ∷ xs) cell rest = get-cells xs cell rest

  pub snoc-cells :
      (items : List A) (x : A) (rest : List (Option A))
      → map some (items ++ (x ∷ [])) ++ rest ≡ map some items ++ (some x ∷ rest)
  snoc-cells [] x rest = refl
  snoc-cells (y ∷ ys) x rest = ap (λ t. some y ∷ t) (snoc-cells ys x rest)

  deref-cells :
      (items : List A) (rest : List (Option A))
      → (let m : Result (List A) = initialised (take (length items) (map some items ++ rest)) in m)
        ≡ ok items
  unfolding initialised
  deref-cells [] rest = refl
  deref-cells (x ∷ xs) rest = rw (deref-cells xs rest) refl

  pub try_push-shape_room :
      (items : List A) (x : A) (cell : Option A) (rest : List (Option A))
      → length items + suc (length rest) < 2 ^ 32
      → try_push (shape items (cell ∷ rest)) x ≡ (shape (items ++ (x ∷ [])) rest, none)
  unfolding try_push is_full remaining_capacity capacity
  try_push-shape_room items x cell rest fits =
      let room : ((length items + suc (length rest)) - length items == 0) ≡ false = ground arith in
      let grown : (length items + 1) % 2 ^ 32 ≡ length (items ++ (x ∷ [])) =
        omega (arith, length-append items (x ∷ [])) in
      rw
        (
          length-cells items (cell ∷ rest),
          room,
          grown,
          set-cells items cell (some x) rest,
          snoc-cells items x rest,
        )
        refl

  pub try_push-shape_full :
      (items : List A) (x : A) → try_push (shape items []) x ≡ (shape items [], some x)
  unfolding try_push is_full remaining_capacity capacity
  try_push-shape_full items x =
      let none_left : ((length items + 0) - length items == 0) ≡ true = ground arith in
      rw (length-cells items [], none_left) refl

  pub pop-shape :
      (items : List A) (x : A) (rest : List (Option A))
      → (let m : Result (FixedVec A × Option A) = pop (shape (items ++ (x ∷ [])) rest) in m)
        ≡ ok (shape items (none ∷ rest), some x)
  unfolding pop is_empty read
  pop-shape items x rest =
      let some_items : (length (items ++ (x ∷ [])) == 0) ≡ false =
        ground (arith, length-append items (x ∷ [])) in
      let shorter : length (items ++ (x ∷ [])) - 1 ≡ length items =
        omega (arith, length-append items (x ∷ [])) in
      rw
        (
          some_items,
          shorter,
          snoc-cells items x rest,
          read,
          get-cells items (some x) rest,
          set-cells items (some x) none rest,
        )
        refl

  pub split_last-cases :
      (items : List A)
      → ((items ≡ []) × (split_last items ≡ none))
        ⊎ ((before : List A) × (last : A) × (items ≡ before ++ (last ∷ []))
            × (split_last items ≡ some (before, last)))
  split_last-cases [] = inl (refl, refl)
  split_last-cases (x ∷ xs) = elim (split_last-cases xs) [
    | inl (e, h) ↦ inr ([], x, ap (λ t. x ∷ t) e, rw h refl)
    | inr (before, last, e, h) ↦ inr (x ∷ before, last, ap (λ t. x ∷ t) e, rw h refl)
  ]

  pub pop-shape_nil :
      (rest : List (Option A))
      → (let m : Result (FixedVec A × Option A) = pop (shape [] rest) in m)
        ≡ ok (shape [] rest, none)
  unfolding pop is_empty
  pop-shape_nil rest = refl

  clear_loop-shape :
      (fuel : ℕ) (items : List A) (rest : List (Option A))
      → length items < fuel
      → (rest' : List (Option A)) × (length rest' ≡ length items + length rest)
        × ((let m : Result (FixedVec A) = clear_loop fuel (shape items rest) in m)
            ≡ ok (shape [] rest'))
  unfolding clear_loop
  clear_loop-shape zero items rest enough = absurd (omega arith)
  clear_loop-shape (suc fuel) items rest enough = elim (split_last-cases items) [
    | inl (e, h) ↦ (rest, rw e (omega arith), rw e refl)
    | inr (before, last, e, h) ↦
        let same : length items ≡ suc (length before) =
          ap length e ∙ omega (arith, length-append before (last ∷ [])) in
        let fewer : length before < fuel = omega arith in
        let (rest', l, g) = clear_loop-shape fuel before (none ∷ rest) fewer in
        let step : (let m : Result (FixedVec A) = clear_loop (suc fuel) (shape items rest) in m)
            ≡ clear_loop fuel (shape before (none ∷ rest)) =
          rw (e, pop-shape before last rest) refl in
        (rest', omega arith, step ∙ g)
  ]

  pub clear-shape :
      (items : List A) (rest : List (Option A))
      → (rest' : List (Option A)) × (length rest' ≡ length items + length rest)
        × ((let m : Result (FixedVec A) = clear (shape items rest) in m) ≡ ok (shape [] rest'))
  unfolding clear
  clear-shape items rest = clear_loop-shape (suc (length items)) items rest (omega arith)

  pub push-shape_room :
      (items : List A) (x : A) (cell : Option A) (rest : List (Option A))
      → length items + suc (length rest) < 2 ^ 32
      → (let m : Result (FixedVec A) = push (shape items (cell ∷ rest)) x in m)
        ≡ ok (shape (items ++ (x ∷ [])) rest)
  unfolding push or_panic
  push-shape_room items x cell rest fits = ap or_panic (try_push-shape_room items x cell rest fits)

  pub push-shape_full :
      (items : List A) (x : A)
      → (let m : Result (FixedVec A) = push (shape items []) x in m) ≡ panic
  unfolding push or_panic
  push-shape_full items x = ap or_panic (try_push-shape_full items x)

  pub extend-shape_room :
      (items more : List A) (rest : List (Option A))
      → length items + length rest < 2 ^ 32
      → length more ≤ length rest
      → (rest' : List (Option A)) × (length rest ≡ length more + length rest')
        × ((let m : Result (FixedVec A) = extend (shape items rest) more in m)
            ≡ ok (shape (items ++ more) rest'))
  unfolding extend
  extend-shape_room items [] rest fits room = (rest, omega arith, rw (append-nil items) refl)
  extend-shape_room items (x ∷ more) [] fits room = absurd (omega arith)
  extend-shape_room items (x ∷ more) (cell ∷ rest) fits room =
      let (rest', l, h) =
        extend-shape_room (items ++ (x ∷ [])) more rest
          (omega (arith, length-append items (x ∷ []))) (omega arith) in
      (
        rest',
        omega arith,
        rw (push-shape_room items x cell rest fits, h, append_assoc items (x ∷ []) more) refl,
      )

  pub extend-shape_full :
      (items more : List A) (rest : List (Option A))
      → length items + length rest < 2 ^ 32
      → length rest < length more
      → (let m : Result (FixedVec A) = extend (shape items rest) more in m) ≡ panic
  unfolding extend push
  extend-shape_full items [] rest fits room = absurd (omega arith)
  extend-shape_full items (x ∷ more) [] fits room = rw (extend, push-shape_full items x) refl
  extend-shape_full items (x ∷ more) (cell ∷ rest) fits room =
      rw (extend, push-shape_room items x cell rest fits)
        (extend-shape_full (items ++ (x ∷ [])) more rest
          (omega (arith, length-append items (x ∷ []))) (omega arith))

  pub deref-shape :
      (items : List A) (rest : List (Option A))
      → (let m : Result (List A) = deref (shape items rest) in m) ≡ ok items
  unfolding deref
  deref-shape items rest = deref-cells items rest
