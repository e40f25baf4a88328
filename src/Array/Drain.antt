-- ===== src/Array/Drain.antt =====
-- src/array.rs: the iterator that a vector is turned into, from both ends.
use dynld.Prelude.{
  ℕ, suc, ◌+◌, ◌-◌, ◌≡◌, refl, ap, ◌∙◌, inl, inr, true, false, Option, none, some, List, [], ◌∷◌,
  ◌++◌, map, append_assoc, arith, ◌==◌, length, get_elem?, set, length-append, get_elem?-middle,
  ◌>>=◌, Result, ok,
}
use dynld.Array.{FixedVec, IntoIter, read, into_iter, next, next_back, size_hint}
use dynld.Array.Shape.{split_last, split_last-cases, snoc-cells, get-cells, set-cells, shape}
use dynld.Array.Holding.{Holds}

pub data End : Type 0 where
  front back : End

module _ {ℓ} {A : Type ℓ} where
  -- An item is taken from one end of a list.
  unfoldable pub list_take : End → List A → List A × Option A
  list_take front [] = ([], none)
  list_take front (x ∷ xs) = (xs, some x)
  list_take back items = elim (split_last items) [
    | none ↦ (items, none)
    | some (before, last) ↦ (before, some last)
  ]

  unfoldable pub iter_take : IntoIter A → End → Result (IntoIter A × Option A)
  iter_take it front = next it
  iter_take it back = next_back it

  abbrev pub list_takes : List A → List End → List A × List (Option A)
  list_takes items [] = (items, [])
  list_takes items (end ∷ ends) =
      let (rest, item) = list_take end items in
      let (last, taken) = list_takes rest ends in (last, item ∷ taken)

  abbrev pub iter_takes : IntoIter A → List End → Result (IntoIter A × List (Option A))
  iter_takes it [] = ok (it, [])
  iter_takes it (end ∷ ends) = do
    (it', item) ← iter_take it end
    (last, taken) ← iter_takes it' ends
    ok (last, item ∷ taken)

  -- The items are still there, after the cells that the front has passed.
  abbrev pub drained :
      (passed : List (Option A)) (items : List A) (rest : List (Option A)) → IntoIter A
  drained passed items rest = record {
    index = length passed;
    len = length passed + length items;
    array = passed ++ (map some items ++ rest);
  }

  pub record Iterates (it : IntoIter A) (items : List A) : Type ℓ where
    pub passed : List (Option A)
    pub rest : List (Option A)
    pub is_drained : it ≡ drained passed items rest

  get-passed :
      (passed cells : List (Option A)) (i : ℕ)
      → get_elem? (passed ++ cells) (length passed + i) ≡ get_elem? cells i
  get-passed [] cells i = ap (get_elem? cells) (omega arith)
  get-passed (p ∷ ps) cells i =
      let shift : suc (length ps) + i ≡ suc (length ps + i) = omega arith in
      rw shift (get-passed ps cells i)

  set-passed :
      (passed cells : List (Option A)) (i : ℕ) (c : Option A)
      → set (passed ++ cells) (length passed + i) c ≡ passed ++ set cells i c
  set-passed [] cells i c = ap (λ j. set cells j c) (omega arith)
  set-passed (p ∷ ps) cells i c =
      let shift : suc (length ps) + i ≡ suc (length ps + i) = omega arith in
      rw shift (ap (λ t. p ∷ t) (set-passed ps cells i c))

  set-middle :
      (passed : List (Option A)) (a b : Option A) (after : List (Option A))
      → set (passed ++ (a ∷ after)) (length passed) b ≡ passed ++ (b ∷ after)
  set-middle [] a b after = refl
  set-middle (p ∷ ps) a b after = ap (λ t. p ∷ t) (set-middle ps a b after)

  next-drained_nil :
      (passed rest : List (Option A))
      → (let m : Result (IntoIter A × Option A) = next (drained passed [] rest) in m)
        ≡ ok (drained passed [] rest, none)
  unfolding next
  next-drained_nil passed rest =
      let at_end : (length passed == length passed + 0) ≡ true = ground arith in rw at_end refl

  next_back-drained_nil :
      (passed rest : List (Option A))
      → (let m : Result (IntoIter A × Option A) = next_back (drained passed [] rest) in m)
        ≡ ok (drained passed [] rest, none)
  unfolding next_back
  next_back-drained_nil passed rest =
      let at_end : (length passed == length passed + 0) ≡ true = ground arith in rw at_end refl

  next-drained :
      (passed : List (Option A)) (x : A) (xs : List A) (rest : List (Option A))
      → (let m : Result (IntoIter A × Option A) = next (drained passed (x ∷ xs) rest) in m)
        ≡ ok (drained (passed ++ (none ∷ [])) xs rest, some x)
  unfolding next read
  next-drained passed x xs rest =
      let more : (length passed == length passed + suc (length xs)) ≡ false = ground arith in
      let one : length (passed ++ (none ∷ [])) ≡ length passed + 1 =
        length-append passed (none ∷ []) in
      let moved : length passed + suc (length xs) ≡ length passed + 1 + length xs = omega arith in
      let after = map some xs ++ rest in
      rw
        (
          more,
          read,
          get_elem?-middle passed (some x) after,
          set-middle passed (some x) none after,
          one,
          moved,
          append_assoc passed (none ∷ []) after,
        )
        refl

  next_back-drained :
      (passed : List (Option A)) (xs : List A) (x : A) (rest : List (Option A))
      → (let m : Result (IntoIter A × Option A) =
            next_back (drained passed (xs ++ (x ∷ [])) rest) in
          m)
        ≡ ok (drained passed xs (none ∷ rest), some x)
  unfolding next_back read
  next_back-drained passed xs x rest =
      let n : length (xs ++ (x ∷ [])) ≡ length xs + 1 = length-append xs (x ∷ []) in
      let more : (length passed == length passed + (length xs + 1)) ≡ false = ground arith in
      let shorter : length passed + (length xs + 1) - 1 ≡ length passed + length xs = omega arith in
      rw
        (
          n,
          more,
          shorter,
          snoc-cells xs x rest,
          read,
          get-passed passed (map some xs ++ (some x ∷ rest)) (length xs),
          get-cells xs (some x) rest,
          set-passed passed (map some xs ++ (some x ∷ rest)) (length xs) none,
          set-cells xs (some x) none rest,
        )
        refl

  take-Iterates :
      (it : IntoIter A) (items : List A) (end : End)
      → Iterates it items
      → (it' : IntoIter A) × (iter_take it end ≡ ok (it', (list_take end items).1))
        × Iterates it' (list_take end items).0
  unfolding iter_take list_take
  take-Iterates it [] front h = (it, rw h.is_drained (next-drained_nil h.passed h.rest), h)
  take-Iterates it (x ∷ xs) front h = (
    drained (h.passed ++ (none ∷ [])) xs h.rest,
    rw h.is_drained (next-drained h.passed x xs h.rest),
    record { passed = h.passed ++ (none ∷ []); rest = h.rest; is_drained = refl },
  )
  take-Iterates it items back h = elim (split_last-cases items) [
    | inl (e, g) ↦
        let empty : it ≡ drained h.passed [] h.rest =
          h.is_drained ∙ ap (λ t. drained h.passed t h.rest) e in
        (it, rw (list_take, g, empty) (next_back-drained_nil h.passed h.rest), rw (list_take, g) h)
    | inr (before, last, e, g) ↦
        let whole : it ≡ drained h.passed (before ++ (last ∷ [])) h.rest =
          h.is_drained ∙ ap (λ t. drained h.passed t h.rest) e in
        (
          drained h.passed before (none ∷ h.rest),
          rw (list_take, g, whole) (next_back-drained h.passed before last h.rest),
          rw (list_take, g) (record { passed = h.passed; rest = none ∷ h.rest; is_drained = refl }),
        )
  ]

  takes-Iterates :
      (it : IntoIter A) (items : List A) (ends : List End)
      → Iterates it items
      → (it' : IntoIter A) × (iter_takes it ends ≡ ok (it', (list_takes items ends).1))
        × Iterates it' (list_takes items ends).0
  takes-Iterates it items [] h = (it, refl, h)
  takes-Iterates it items (end ∷ ends) h =
      let (it', e, h') = take-Iterates it items end h in
      let (last, es, h'') = takes-Iterates it' (list_take end items).0 ends h' in
      (last, rw (e, es) refl, h'')

  -- The items that are left are what `size_hint` says.
  size_hint-Iterates :
      (it : IntoIter A) (items : List A)
      → Iterates it items
      → size_hint it ≡ (length items, some (length items))
  unfolding size_hint
  size_hint-Iterates it items h =
      let left : length h.passed + length items - length h.passed ≡ length items = omega arith in
      rw (h.is_drained, left) refl

  into_iter-Iterates :
      (n : ℕ) (v : FixedVec A) (items : List A) → Holds n v items → Iterates (into_iter v) items
  unfolding into_iter
  into_iter-Iterates n v items h =
      let from_zero : into_iter (shape items h.rest) ≡ drained [] items h.rest =
        let sum : 0 + length items ≡ length items = omega arith in rw sum refl in
      record { passed = []; rest = h.rest; is_drained = ap into_iter h.is_shape ∙ from_zero }

  -- A vector of a capacity below 2^32 that is turned into an iterator hands its items out from whichever ends are asked, in any
  -- order of `next` and `next_back`: each call returns what a list loses at that end, `none` once it is
  -- empty, and the size hint is the number of items left. No read is of an uninitialised cell.
  pub into_iter-takes :
      (n : ℕ) (v : FixedVec A) (items : List A) (ends : List End)
      → Holds n v items
      → (it : IntoIter A) × (iter_takes (into_iter v) ends ≡ ok (it, (list_takes items ends).1))
        × (size_hint it ≡ (let left = length (list_takes items ends).0 in (left, some left)))
  into_iter-takes n v items ends h =
      let (it, e, h') = takes-Iterates (into_iter v) items ends (into_iter-Iterates n v items h) in
      (it, e, size_hint-Iterates it _ h')
