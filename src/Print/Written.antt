-- ===== src/Print/Written.antt =====
-- src/print.rs: what `write_all` has written when it returns.
use dynld.Prelude.{
  ℕ, zero, suc, ◌+◌, ◌≤◌, ◌<◌, ◌≡◌, refl, sym, ap, ◌∙◌, true, [], ◌∷◌, ◌++◌, append-nil,
  append_assoc, arith, leb, le→leb, length, take, drop, length-drop, Bytes, Outcome, ok, err, panic,
  out_of_fuel,
}
use dynld.Print.{Output, Write, Accepted, answered, write_loop, write_all}

-- All of the buffer was written, or a part from its front and then an error.
pub data Wrote (buf before : Bytes) : Outcome ℕ (Unit {0}) × Output → Type 0 where
  wrote_all : {out' : Output} → out'.written ≡ before ++ buf → Wrote buf before (ok tt, out')
  wrote_part :
      {e : ℕ} {out' : Output} (n : ℕ)
      → n < length buf
      → out'.written ≡ before ++ take n buf
      → Wrote buf before (err e, out')

take-then-drop : (n : ℕ) (xs : Bytes) → take n xs ++ drop n xs ≡ xs
take-then-drop zero xs = refl
take-then-drop (suc n) [] = refl
take-then-drop (suc n) (x ∷ xs) = ap (λ t. x ∷ t) (take-then-drop n xs)

take-sum :
    (n k : ℕ) (xs : Bytes) → n ≤ length xs → take n xs ++ take k (drop n xs) ≡ take (n + k) xs
take-sum zero k xs h = ap (λ i. take i xs) (omega arith)
take-sum (suc n) k [] h = absurd (omega arith)
take-sum (suc n) k (x ∷ xs) h =
    let next : suc n + k ≡ suc (n + k) = omega arith in
    rw next (ap (λ t. x ∷ t) (take-sum n k xs (omega arith)))

-- What the rest of the buffer comes to, after `n` bytes of it.
Wrote-after :
    (n : ℕ) (buf : Bytes) (out out1 : Output) (r : Outcome ℕ (Unit {0}) × Output)
    → n ≤ length buf
    → out1.written ≡ out.written ++ take n buf
    → Wrote (drop n buf) out1.written r
    → Wrote buf out.written r
Wrote-after n buf out out1 _ fits first (wrote_all e) = wrote_all (
    e
    ∙ ap (λ t. t ++ drop n buf) first
    ∙ append_assoc out.written (take n buf) (drop n buf)
    ∙ ap (λ t. out.written ++ t) (take-then-drop n buf))
Wrote-after n buf out out1 _ fits first (wrote_part k short e) =
    wrote_part (n + k) (omega (arith, length-drop n buf)) (
      e
      ∙ ap (λ t. t ++ take k (drop n buf)) first
      ∙ append_assoc out.written (take n buf) (take k (drop n buf))
      ∙ ap (λ t. out.written ++ t) (take-sum n k buf fits))

module _ (write : Write) where
  answered-Wrote :
      (answer : Outcome ℕ ℕ) (buf : Bytes) (out : Output)
      (next : Bytes → Output → Outcome ℕ (Unit {0}) × Output)
      → Accepted buf answer
      → 0 < length buf
      → ((n : ℕ) (out1 : Output)
          → 0 < n
          → n ≤ length buf
          → Wrote (drop n buf) out1.written (next (drop n buf) out1))
      → Wrote buf out.written (answered write answer buf out next)
  unfolding answered
  answered-Wrote (ok zero) buf out next fits some_left k =
      wrote_part 0 some_left (sym (append-nil out.written))
  answered-Wrote (ok (suc n)) buf out next fits some_left k =
      let room : leb (suc n) (length buf) ≡ true = le→leb (suc n) (length buf) fits in
      let out1 : Output = record out { written = out.written ++ take (suc n) buf } in
      rw (answered, room)
        (Wrote-after (suc n) buf out out1 _ fits refl (k (suc n) out1 (omega arith) fits))
  answered-Wrote (err e) buf out next fits some_left k =
      wrote_part 0 some_left (sym (append-nil out.written))
  answered-Wrote panic buf out next fits some_left k = absurd fits
  answered-Wrote out_of_fuel buf out next fits some_left k = absurd fits

  module _ (documented : (calls : ℕ) (buf : Bytes) → Accepted buf (write calls buf)) where
    write_loop-Wrote :
        (fuel : ℕ) (buf : Bytes) (out : Output)
        → length buf < fuel
        → Wrote buf out.written (write_loop write fuel buf out)
    unfolding write_loop
    write_loop-Wrote zero buf out enough = absurd (omega arith)
    write_loop-Wrote (suc fuel) [] out enough = wrote_all (sym (append-nil out.written))
    write_loop-Wrote (suc fuel) (b ∷ bs) out enough =
        answered-Wrote (write out.calls (b ∷ bs)) (b ∷ bs) (record out { calls = out.calls + 1 })
          (write_loop write fuel) (documented out.calls (b ∷ bs)) (omega arith)
          λ n out1 more fits.
            write_loop-Wrote fuel (drop n (b ∷ bs)) out1 (omega (arith, length-drop n (b ∷ bs)))

    -- Writing a buffer ends, whatever the calls answer as long as none takes more bytes than it is given:
    -- with success, when every byte was written, once and in order, or with an error, when only a part
    -- from the front was. It does not panic.
    pub write_all-Wrote :
        (buf : Bytes) (out : Output) → Wrote buf out.written (write_all write buf out)
    unfolding write_all
    write_all-Wrote buf out = write_loop-Wrote (suc (length buf)) buf out (omega arith)
