-- ===== src/Container/Uleb/Stability.antt =====
-- `read_uleb128` looks at no byte behind the number.
use dynld.Prelude.{ℕ, ◌+◌, bit_or, ◌≡◌, some, [], ◌∷◌, ◌++◌, arith, Bytes}
use dynld.Container.Uleb.{shifted_group, uleb128_loop, read_uleb128}

uleb128_loop-append :
    (bs more : Bytes) (i r s v n : ℕ)
    → uleb128_loop bs i r s ≡ some (v, n)
    → uleb128_loop (bs ++ more) i r s ≡ some (v, n)
unfolding uleb128_loop
uleb128_loop-append [] more i r s v n e = cc
uleb128_loop-append (b ∷ bs) more i r s v n e =
    ground (arith, uleb128_loop-append bs more (i + 1) (bit_or r (shifted_group b s)) (s + 7) v n)

-- A number that was read is read again when bytes are added behind the input.
read_uleb128-append :
    (bytes more : Bytes) (v n : ℕ)
    → read_uleb128 bytes ≡ some (v, n)
    → read_uleb128 (bytes ++ more) ≡ some (v, n)
unfolding read_uleb128
read_uleb128-append bytes more v n e = uleb128_loop-append bytes more 0 0 0 v n e
