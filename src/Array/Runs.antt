-- ===== src/Array/Runs.antt =====
-- A vector of two cells and a short string, and the theorems at them.
use mathlib.Core.Option
use dynld.Prelude.{
  ℕ, String, ◌≡◌, refl, none, some, List, [], ◌∷◌, arith, leb, if◌then◌else◌, length, Bytes, ok,
  panic,
}
use dynld.Array.{FixedVec, new_array, as_str, try_from_str, into_iter, size_hint, IntoIter}
use dynld.Array.Shape.{shape}
use dynld.Array.Holding.{Holds, shape-Holds}
use dynld.Array.Refine.{
  Call, Agree, call_try_push, call_pop, call_clear, call_extend, call_deref, call_remaining, Reply,
  accepted, rejected, popped, listed, counted, run_calls, vec_call, list_call, new_array-refines,
}
use dynld.Array.Drain.{front, back, End, iter_takes, list_take, list_takes, into_iter-takes}
use dynld.Array.Text.{try_from_str-as_str}

-- The third push is refused, the pop and the extension fit, and the last extension panics.
abbrev calls : List (Call ℕ)
calls =
    call_try_push 7
    ∷ call_try_push 8
    ∷ call_try_push 9
    ∷ call_pop
    ∷ call_extend (5 ∷ [])
    ∷ call_deref
    ∷ call_clear
    ∷ call_remaining
    ∷ []

abbrev replies : List (Reply ℕ)
replies =
    accepted
    ∷ accepted
    ∷ rejected 9
    ∷ popped (some 8)
    ∷ accepted
    ∷ listed (7 ∷ 5 ∷ [])
    ∷ accepted
    ∷ counted 2
    ∷ []

list_replies : run_calls (list_call 2) [] calls ≡ ok ([], replies)
unfolding list_call
list_replies = refl

list_overflows : run_calls {A = ℕ} (list_call 2) [] (call_extend (1 ∷ 2 ∷ 3 ∷ []) ∷ []) ≡ panic
unfolding list_call
list_overflows = refl

new_array-refines_example :
    Agree 2 (run_calls vec_call (new_array 2) calls) (run_calls (list_call 2) [] calls)
new_array-refines_example = new_array-refines 2 calls (omega arith)

abbrev items : List ℕ
items = 1 ∷ 2 ∷ 3 ∷ []

abbrev vector : FixedVec ℕ
vector = shape items (none ∷ [])

vector-Holds : Holds 4 vector items
vector-Holds = shape-Holds 4 items (none ∷ []) refl (omega arith)

abbrev ends : List End
ends = back ∷ front ∷ front ∷ back ∷ []

taken : (list_takes items ends).1 ≡ some 3 ∷ some 1 ∷ some 2 ∷ none ∷ []
unfolding list_take
taken = refl

into_iter-takes_example :
    (it : IntoIter ℕ) × (iter_takes (into_iter vector) ends ≡ ok (it, (list_takes items ends).1))
    × (size_hint it ≡ (let left = length (list_takes items ends).0 in (left, some left)))
into_iter-takes_example = into_iter-takes 4 vector items ends vector-Holds

abbrev text : Bytes
text = b'_' ∷ b'a' ∷ []

try_from_str-as_str_example :
    Option.map (as_str {E = String}) (try_from_str 2 text)
    ≡ (if leb (length text) 2 then some (ok text) else none)
try_from_str-as_str_example = try_from_str-as_str 2 text (omega arith)
