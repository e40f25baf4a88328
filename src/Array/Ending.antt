-- ===== src/Array/Ending.antt =====
-- src/array.rs: pushing and reading end, on any vector.
use dynld.Prelude.{Option, none, some, List, [], ◌∷◌, take, Result, Ends, returned, panicked}
use dynld.Container.Reads.{Anything, bind-Ends, unwrap-Ends}
use dynld.Array.{FixedVec, try_push, or_panic, push, initialised, deref}

module _ {ℓ} {A : Type ℓ} where
  or_panic-Ends :
      (r : FixedVec A × Option A) → Ends Anything (let m : Result (FixedVec A) = or_panic r in m)
  unfolding or_panic
  or_panic-Ends (v, none) = returned tt
  or_panic-Ends (v, some item) = panicked

  pub push-Ends_any :
      (v : FixedVec A) (item : A) → Ends Anything (let m : Result (FixedVec A) = push v item in m)
  unfolding push
  push-Ends_any v item = or_panic-Ends (try_push v item)

  initialised-Ends :
      (cells : List (Option A)) → Ends Anything (let m : Result (List A) = initialised cells in m)
  unfolding initialised
  initialised-Ends [] = returned tt
  initialised-Ends (cell ∷ cells) =
      bind-Ends (unwrap-Ends cell) λ item. bind-Ends (initialised-Ends cells) λ items. returned tt

  pub deref-Ends_any : (v : FixedVec A) → Ends Anything (let m : Result (List A) = deref v in m)
  unfolding deref
  deref-Ends_any v = initialised-Ends (take v.len v.array)
