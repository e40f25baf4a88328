-- ===== src/Array/Refine.antt =====
-- src/array.rs: a vector refines a list of bounded length. The calls are those that a client can make,
-- each with what it returns.
use dynld.Prelude.{
  ℕ, ◌+◌, ◌-◌, ◌^◌, ◌<◌, ◌≡◌, sym, inl, inr, Option, none, some, List, [], ◌∷◌, ◌++◌, arith, ltb,
  leb, if◌then◌else◌, lt→ltb, le→ltb, leb→le, Bool-cases, length, length-append, ◌>>=◌, Result, ok,
  panic,
}
use mathlib.Core.Path.{subst}
use dynld.Array.Shape.{
  shape, split_last, split_last-cases, try_push-shape_room, try_push-shape_full, pop-shape,
  pop-shape_nil, clear-shape, extend-shape_room, extend-shape_full, deref-shape,
}
use dynld.Array.{FixedVec, new_array, remaining_capacity, try_push, pop, clear, deref, extend}
use dynld.Array.Holding.{Holds, new_array-Holds, shape-Holds, remaining_is}

module _ {ℓ} (A : Type ℓ) where
  pub data Call : Type ℓ where
    call_try_push : A → Call
    call_pop : Call
    call_clear : Call
    call_extend : List A → Call
    call_deref : Call
    call_remaining : Call

  pub data Reply : Type ℓ where
    accepted : Reply
    rejected : A → Reply
    popped : Option A → Reply
    listed : List A → Reply
    counted : ℕ → Reply

module _ {ℓ} {A : Type ℓ} where
  -- The call on a list that holds at most `n` items.
  unfoldable pub list_call : ℕ → List A → Call A → Result (List A × Reply A)
  list_call n items (call_try_push item) =
      if ltb (length items) n
      then ok (items ++ (item ∷ []), accepted)
      else ok (items, rejected item)
  list_call n items call_pop = elim (split_last items) [
    | none ↦ ok (items, popped none)
    | some (before, last) ↦ ok (before, popped (some last))
  ]
  list_call n items call_clear = ok ([], accepted)
  list_call n items (call_extend more) =
      if leb (length items + length more) n then ok (items ++ more, accepted) else panic
  list_call n items call_deref = ok (items, listed items)
  list_call n items call_remaining = ok (items, counted (n - length items))

  try_push_reply : FixedVec A × Option A → Result (FixedVec A × Reply A)
  try_push_reply (v, none) = ok (v, accepted)
  try_push_reply (v, some given_back) = ok (v, rejected given_back)

  unfoldable pub vec_call : FixedVec A → Call A → Result (FixedVec A × Reply A)
  unfolding try_push_reply
  vec_call v (call_try_push item) = try_push_reply (try_push v item)
  vec_call v call_pop = pop v >>= λ (v', item). ok (v', popped item)
  vec_call v call_clear = clear v >>= λ v'. ok (v', accepted)
  vec_call v (call_extend more) = extend v more >>= λ v'. ok (v', accepted)
  vec_call v call_deref = deref v >>= λ items. ok (v, listed items)
  vec_call v call_remaining = ok (v, counted (remaining_capacity v))

  -- A run of calls, with the replies in order.
  abbrev pub run_calls :
      {S : Type ℓ}
      → (S → Call A → Result (S × Reply A))
      → S
      → List (Call A)
      → Result (S × List (Reply A))
  run_calls step st [] = ok (st, [])
  run_calls step st (call ∷ calls) = do
    (st', reply) ← step st call
    (last, replies) ← run_calls step st' calls
    ok (last, reply ∷ replies)

  -- Both return, with the same replies and with states that match, or both panic.
  pub data Agree (n : ℕ) {R : Type ℓ} : Result (FixedVec A × R) → Result (List A × R) → Type ℓ where
    both_return :
        {v : FixedVec A} {items : List A} {reply : R}
        → Holds n v items
        → Agree n (ok (v, reply)) (ok (items, reply))
    both_panic : Agree n panic panic

  Agree-bind :
      {n : ℕ} {R T : Type ℓ} {m : Result (FixedVec A × R)} {m' : Result (List A × R)}
      (f : FixedVec A × R → Result (FixedVec A × T)) (f' : List A × R → Result (List A × T))
      → Agree n m m'
      → ((v : FixedVec A) (items : List A) (reply : R)
          → Holds n v items
          → Agree n (f (v, reply)) (f' (items, reply)))
      → Agree n (m >>= f) (m' >>= f')
  Agree-bind f f' (both_return h) k = k _ _ _ h
  Agree-bind f f' both_panic k = both_panic

  Agree-reply :
      {n : ℕ} {m : Result (FixedVec A × List (Reply A))} {m' : Result (List A × List (Reply A))}
      (reply : Reply A)
      → Agree n m m'
      → Agree n
          (m >>= λ (last, replies). ok (last, reply ∷ replies))
          (m' >>= λ (last, replies). ok (last, reply ∷ replies))
  Agree-reply reply a = Agree-bind _ _ a (λ v items replies h. both_return h)

  -- A call on a vector does what it does on the list.
  call-Agree :
      (n : ℕ) (items : List A) (rest : List (Option A)) (call : Call A)
      → length items + length rest ≡ n
      → n < 2 ^ 32
      → Agree n (vec_call (shape items rest) call) (list_call n items call)
  unfolding vec_call list_call
  call-Agree n items [] (call_try_push item) l fits =
      rw (le→ltb (length items) n (omega arith), try_push-shape_full items item)
        (both_return (shape-Holds n items [] l fits))
  call-Agree n items (cell ∷ rest) (call_try_push item) l fits =
      rw
        (
          lt→ltb (length items) n (omega arith),
          try_push-shape_room items item cell rest (omega arith),
        )
        (both_return (
          shape-Holds n (items ++ (item ∷ [])) rest (omega (arith, length-append items (item ∷ [])))
            fits))
  call-Agree n items rest call_pop l fits = elim (split_last-cases items) [
    | inl (e, h) ↦
        rw (e, pop-shape_nil rest)
          (both_return (shape-Holds n [] rest (let q = rw e at l in q) fits))
    | inr (before, last, e, h) ↦
        rw (list_call, h, e, pop-shape before last rest)
          (both_return (
            shape-Holds n before (none ∷ rest)
              (let q = rw e at l in omega (arith, length-append before (last ∷ []))) fits))
  ]
  call-Agree n items rest call_clear l fits =
      let (rest', l', h) = clear-shape items rest in
      rw h (both_return (shape-Holds n [] rest' (omega arith) fits))
  call-Agree n items rest (call_extend more) l fits =
      elim (Bool-cases (leb (length items + length more) n)) [
        | inl e ↦
            let (rest', l', h) =
              extend-shape_room items more rest (omega arith) (ground (arith, leb→le _ _ e)) in
            rw (e, h)
              (both_return (
                shape-Holds n (items ++ more) rest' (omega (arith, length-append items more)) fits))
        | inr e ↦ rw (e, extend-shape_full items more rest (omega arith) (ground arith)) both_panic
      ]
  call-Agree n items rest call_deref l fits =
      rw (deref-shape items rest) (both_return (shape-Holds n items rest l fits))
  call-Agree n items rest call_remaining l fits =
      rw (remaining_is n items rest l) (both_return (shape-Holds n items rest l fits))

  run-Agree :
      (n : ℕ) (v : FixedVec A) (items : List A) (calls : List (Call A))
      → Holds n v items
      → Agree n (run_calls vec_call v calls) (run_calls (list_call n) items calls)
  run-Agree n v items [] h = both_return h
  run-Agree n v items (call ∷ calls) h =
      let first =
        subst (λ v. Agree n (vec_call v call) (list_call n items call)) (sym h.is_shape)
          (call-Agree n items h.rest call h.capacity_is h.capacity_fits) in
      Agree-bind _ _ first
        (λ v' items' reply h'. Agree-reply reply (run-Agree n v' items' calls h'))

  -- Whatever calls are made on a new vector of capacity `n` below 2^32, `try_push`, `pop`, `clear`, `extend`,
  -- `deref` and `remaining_capacity` in any order, it replies as a list of at most `n` items does that
  -- is pushed and popped at its end: it panics when the list would be extended past `n`, and otherwise
  -- returns and holds the items of the list. No read is of an uninitialised cell.
  pub new_array-refines :
      (n : ℕ) (calls : List (Call A))
      → n < 2 ^ 32
      → Agree n (run_calls vec_call (new_array n) calls) (run_calls (list_call n) [] calls)
  new_array-refines n calls fits = run-Agree n (new_array n) [] calls (new_array-Holds n fits)
