-- ===== src/Print.antt =====
-- src/print.rs: `write_all`, which writes a buffer by as many calls as it takes.
pub mod Written
mod Runs
use dynld.Prelude.{
  ℕ, zero, suc, ◌+◌, ◌≤◌, none, some, [], ◌∷◌, ◌++◌, length, take, Bytes, Outcome, ok, err, panic,
  out_of_fuel,
}
use dynld.Container.{get_from}

-- What was written so far, and how many calls were made.
pub record Output : Type 0 where
  pub written : Bytes
  pub calls : ℕ

-- `libc::write(fd, buf)`: a number of bytes, or an error number. It can answer each call in another way.
abbrev pub Write : Type 0
Write = (calls : ℕ) → Bytes → Outcome ℕ ℕ

-- What write(2) documents: no more bytes are taken than there are, and a call returns.
abbrev pub Accepted : Bytes → Outcome ℕ ℕ → Type 0
Accepted buf (ok n) = n ≤ length buf
Accepted buf (err e) = Unit {0}
Accepted buf panic = ⊥
Accepted buf out_of_fuel = ⊥

module _ (write : Write) where
  -- The answer to a call, with what the caller does next; the bytes that were taken are written.
  answered :
      Outcome ℕ ℕ
      → Bytes
      → Output
      → (Bytes → Output → Outcome ℕ (Unit {0}) × Output)
      → Outcome ℕ (Unit {0}) × Output
  answered (ok zero) buf out next = (err 0, out)
  answered (ok (suc n)) buf out next = elim (get_from buf (suc n)) [
    | none ↦ (panic, out)
    | some rest ↦ next rest (record out { written = out.written ++ take (suc n) buf })
  ]
  answered (err e) buf out next = (err e, out)
  answered panic buf out next = (panic, out)
  answered out_of_fuel buf out next = (out_of_fuel, out)

  write_loop : ℕ → Bytes → Output → Outcome ℕ (Unit {0}) × Output
  unfolding answered
  write_loop zero buf out = (out_of_fuel, out)
  write_loop (suc fuel) [] out = (ok tt, out)
  write_loop (suc fuel) (b ∷ bs) out =
      answered (write out.calls (b ∷ bs)) (b ∷ bs) (record out { calls = out.calls + 1 })
        (write_loop fuel)

  -- Each round takes a byte at least.
  unfoldable pub write_all : Bytes → Output → Outcome ℕ (Unit {0}) × Output
  unfolding write_loop
  write_all buf out = write_loop (suc (length buf)) buf out
