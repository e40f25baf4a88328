-- ===== src/Array/Text.antt =====
-- src/array.rs: `FixedString`.
use mathlib.Core.Option
use dynld.Prelude.{
  ℕ, ◌+◌, ◌^◌, ◌≤◌, ◌<◌, String, ◌≡◌, refl, ap, ◌∙◌, ◌⊎◌, inl, inr, true, false, Option, none, some,
  List, [], ◌∷◌, ◌++◌, append-nil, append_assoc, arith, ltb, leb, if◌then◌else◌, ltb→lt, le→leb,
  lt→leb, leb→le, Bool-cases, length, length-append, some_injective, Bytes, Result, ok,
}
use dynld.Array.{
  FixedString, new_string, remaining_capacity, as_str, push_bytes, try_push_str, try_from_str,
}
use dynld.Array.Shape.{shape, try_push-shape_room}
use dynld.Array.Holding.{Holds, shape-Holds, new_array-Holds, remaining_capacity-Holds, deref-Holds}

push_bytes-shape :
    (items bs : Bytes) (rest : List (Option ℕ))
    → length items + length rest < 2 ^ 32
    → length bs ≤ length rest
    → (rest' : List (Option ℕ)) × (length rest ≡ length bs + length rest')
      × (push_bytes (shape items rest) bs ≡ shape (items ++ bs) rest')
unfolding push_bytes
push_bytes-shape items [] rest fits room = (rest, omega arith, rw (append-nil items) refl)
push_bytes-shape items (b ∷ bs) [] fits room = absurd (omega arith)
push_bytes-shape items (b ∷ bs) (cell ∷ rest) fits room =
    let (rest', l, h) =
      push_bytes-shape (items ++ (b ∷ [])) bs rest (omega (arith, length-append items (b ∷ [])))
        (omega arith) in
    (
      rest',
      omega arith,
      rw (push_bytes, try_push-shape_room items b cell rest fits, h, append_assoc items (b ∷ []) bs)
          refl,
    )

-- The string has a capacity of `n` bytes, and `text` are those in it.
abbrev pub HoldsText : ℕ → FixedString → Bytes → Type 0
HoldsText n t text = Holds n t.vec text

-- A string that fits is appended; of any other nothing is, and the answer is `false`.
pub try_push_str-HoldsText :
    (n : ℕ) (t : FixedString) (text more : Bytes)
    → HoldsText n t text
    → (length text + length more ≤ n
        × (t' : FixedString) × (try_push_str t more ≡ (t', true))
        × HoldsText n t' (text ++ more))
      ⊎ (n < length text + length more × (try_push_str t more ≡ (t, false)))
unfolding try_push_str
try_push_str-HoldsText n t text more h =
    let room = remaining_capacity-Holds h in
    let whole = h.capacity_is in
    elim (Bool-cases (ltb (remaining_capacity t.vec) (length more))) [
      | inl e ↦ inr (omega (arith, ltb→lt _ _ e), rw e refl)
      | inr e ↦
          let fits : length more ≤ length h.rest = ground arith in
          let (rest', l, g) =
            push_bytes-shape text more h.rest (omega (arith, h.capacity_fits)) fits in
          let filled : push_bytes t.vec more ≡ shape (text ++ more) rest' =
            ap (λ v. push_bytes v more) h.is_shape ∙ g in
          inl (
            omega arith,
            record { vec = shape (text ++ more) rest' },
            rw (e, filled) refl,
            shape-Holds n (text ++ more) rest' (omega (arith, length-append text more))
                h.capacity_fits,
          )
    ]

-- `try_from_str` succeeds exactly on the strings of at most `N` bytes, for `N` below 2^32, and then `as_str` gives the
-- string back.
pub try_from_str-as_str :
    (n : ℕ) (text : Bytes)
    → n < 2 ^ 32
    → Option.map (as_str {E = String}) (try_from_str n text)
      ≡ (if leb (length text) n then some (ok text) else none)
unfolding try_from_str new_string as_str
try_from_str-as_str n text fits =
    elim (try_push_str-HoldsText n (new_string n) [] text (new_array-Holds n fits)) [
      | inl (room, t', e, h) ↦
          rw (le→leb (length text) n (omega arith), try_from_str, e, as_str, deref-Holds h) refl
      | inr (past, e) ↦ rw (lt→leb (length text) n (omega arith), try_from_str, e) refl
    ]

-- A string that was made has the text, which fits.
pub try_from_str-some :
    (n : ℕ) (text : Bytes) (t : FixedString)
    → n < 2 ^ 32
    → try_from_str n text ≡ some t
    → (length text ≤ n) × ((let m : Result Bytes = as_str t in m) ≡ ok text)
try_from_str-some n text t fits e =
    let made = let q = try_from_str-as_str n text fits in rw e at q in
    elim (Bool-cases (leb (length text) n)) [
      | inl room ↦ (leb→le _ _ room, some_injective (let q = rw room at made in q))
      | inr past ↦ absurd (let q = rw past at made in cc)
    ]
