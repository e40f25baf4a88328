-- ===== src/Container/Uleb.antt =====
-- src/container.rs: `read_uleb128`.
pub mod Value
pub mod RoundTrip
pub mod Stability
mod Runs
use dynld.Prelude.{
  ℕ, ◌+◌, ◌*◌, ◌%◌, ◌^◌, bit_and, bit_or, Option, none, some, [], ◌∷◌, leb, ◌==◌, if◌then◌else◌,
  Bytes,
}

-- `((b & 0x7f) as u64) << shift`: bits pushed past the top are lost.
abbrev pub shifted_group : ℕ → ℕ → ℕ
shifted_group b shift = bit_and b 0x7f * 2 ^ shift % 2 ^ 64

-- The loop over the bytes not yet read, `i` of them read so far.
uleb128_loop : Bytes → (i result shift : ℕ) → Option (ℕ × ℕ)
uleb128_loop [] i result shift = none
uleb128_loop (b ∷ bs) i result shift =
    let result' = bit_or result (shifted_group b shift) in
    let rest = uleb128_loop bs (i + 1) result' (shift + 7) in
    if bit_and b 0x80 == 0 then some (result', i + 1) else if leb 64 (shift + 7) then none else rest

-- The number at the front of `bytes`, and how many bytes it takes.
unfoldable pub read_uleb128 : Bytes → Option (ℕ × ℕ)
unfolding uleb128_loop
read_uleb128 bytes = uleb128_loop bytes 0 0 0
