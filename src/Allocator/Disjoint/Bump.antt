-- ===== src/Allocator/Disjoint/Bump.antt =====
-- What a chunk hands out, and when it is full.
use dynld.Prelude.{
  ℕ, zero, suc, ◌+◌, ◌-◌, ◌%◌, ◌^◌, ◌≤◌, ◌<◌, ◌≡◌, refl, ◌⊎◌, inl, inr, Option, none, some, arith,
  ltb, leb, Bool-cases,
}
use native.Mathlib.Nat.{pow-le-pow_right}
use dynld.Allocator.{Chunk, align_up, non_null, bump_chunk}
use dynld.Allocator.Align.{align_up-rounds}
use dynld.Allocator.Disjoint.{within, chunk_left, IsChunk}

-- A part of a range, and what comes after the part.
within-part :
    (a lo hi p size : ℕ)
    → lo ≤ p
    → p + size ≤ hi
    → within a p size + within a (p + size) (hi - (p + size)) ≤ within a lo (hi - lo)
unfolding within
within-part a lo hi p size above below = ground arith

non_null-some : (p : ℕ) → 0 < p → non_null p ≡ some p
non_null-some zero h = absurd (omega arith)
non_null-some (suc p) h = refl

-- A block that is taken from a chunk is aligned, and is part of what was left of the chunk.
abbrev pub Bumped : Chunk → (size align : ℕ) → ℕ × Chunk → Type 0
Bumped c size align (p, c') =
    (p % align ≡ 0)
    × IsChunk (some c')
    × ((a : ℕ) → within a p size + chunk_left a (some c') ≤ chunk_left a (some c))

-- The chunk, if any, has fewer bytes left.
abbrev pub IsFull : Option Chunk → ℕ → Type 0
IsFull none n = Unit {0}
IsFull (some c) n = c.size < c.offset + n

pub bump_chunk-cases :
    (c : Chunk) (size k : ℕ)
    → k ≤ 62
    → IsChunk (some c)
    → ((bump_chunk c size (2 ^ k) ≡ (none, c)) × IsFull (some c) (size + 2 ^ k))
      ⊎ ((p : ℕ) × (c' : Chunk) × (bump_chunk c size (2 ^ k) ≡ (some p, c'))
          × Bumped c size (2 ^ k) (p, c'))
unfolding bump_chunk chunk_left
bump_chunk-cases c size k small (based, used, low) =
    let plain : (c.base + c.offset) % 2 ^ 64 ≡ c.base + c.offset = omega arith in
    let aligned = align_up (c.base + c.offset) (2 ^ k) in
    let power : 2 ^ k ≤ 2 ^ 62 = pow-le-pow_right (omega arith) small in
    let (up, near, multiple) =
      align_up-rounds (c.base + c.offset) k (omega arith) (omega (arith, power)) in
    elim (Bool-cases (leb (2 ^ 64) (aligned + size))) [
      | inl big ↦ inl (rw (plain, big) refl, ground arith)
      | inr no_wrap ↦ elim (Bool-cases (ltb (aligned + size) c.base)) [
        | inl below ↦ absurd (ground arith)
        | inr above ↦ elim (Bool-cases (ltb c.size (aligned + size - c.base))) [
          | inl full ↦ inl (rw (plain, no_wrap, above, full) refl, ground arith)
          | inr fits ↦
              let c' : Chunk = record c { offset = aligned + size - c.base } in
              let room : aligned + size ≤ c.base + c.size = ground arith in
              let end : c.base + (aligned + size - c.base) ≡ aligned + size = omega arith in
              let left : c.size - (aligned + size - c.base) ≡ c.base + c.size - (aligned + size) =
                omega arith in
              let all : c.size - c.offset ≡ c.base + c.size - (c.base + c.offset) = omega arith in
              inr (
                aligned,
                c',
                rw (plain, no_wrap, above, fits, non_null-some aligned (omega arith)) refl,
                (
                  multiple,
                  (based, omega arith, low),
                  λ a.
                      rw (end, left, all)
                        (within-part a (c.base + c.offset) (c.base + c.size) aligned size up room),
                ),
              )
        ]
      ]
    ]
