-- ===== src/Print/Runs.antt =====
-- A call that takes two bytes at a time, and one that fails at the second call.
use dynld.Prelude.{ℕ, min, ◌≡◌, refl, [], ◌∷◌, arith, ◌==◌, if◌then◌else◌, length, Bytes, ok, err}
use dynld.Print.{Output, Write, Accepted, write_all}
use dynld.Print.Written.{Wrote, write_all-Wrote}

abbrev two_by_two : Write
two_by_two calls buf = ok (min 2 (length buf))

two_by_two-Accepted : (calls : ℕ) (buf : Bytes) → Accepted buf (two_by_two calls buf)
two_by_two-Accepted calls buf = omega arith

abbrev start : Output
start = record { written = []; calls = 0 }

abbrev text : Bytes
text = 1 ∷ 2 ∷ 3 ∷ 4 ∷ 5 ∷ []

writes : write_all two_by_two text start ≡ (ok tt, record { written = text; calls = 3 })
unfolding write_all
writes = refl

abbrev broken : Write
broken calls buf = if calls == 0 then ok 1 else err 9

fails : write_all broken text start ≡ (err 9, record { written = 1 ∷ []; calls = 2 })
unfolding write_all
fails = refl

write_all-Wrote_example : Wrote text start.written (write_all two_by_two text start)
write_all-Wrote_example = write_all-Wrote two_by_two two_by_two-Accepted text start
