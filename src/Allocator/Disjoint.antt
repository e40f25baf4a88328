-- ===== src/Allocator/Disjoint.antt =====
-- No byte belongs to two blocks. The number of blocks that an address lies in is counted, over the free
-- list, what is left of the chunk, and the blocks that were handed out.
pub mod Bump
pub mod Alloc
use dynld.Prelude.{
  ℕ, ◌+◌, ◌-◌, ◌%◌, ◌^◌, ◌≤◌, ◌<◌, ◌≡◌, refl, ◌≢◌, ◌⊎◌, inl, inr, ◌&&◌, Option, none, some, List,
  [], ◌∷◌, arith, ltb, leb, ◌==◌, if◌then◌else◌, Bool-cases, Option-cases, All, some_injective,
}
use mathlib.Core.Path.{subst}
use dynld.Allocator.{Block, Chunk, State, min_reuse, unlink_first, split, take_from_free_list}

-- 1 for an address in the range, and 0 for another.
unfoldable pub within : (a addr size : ℕ) → ℕ
within a addr size = if leb addr a && ltb a (addr + size) then 1 else 0

unfoldable pub covered : ℕ → List Block → ℕ
covered a [] = 0
covered a (b ∷ bs) = within a b.addr b.size + covered a bs

unfoldable pub chunk_left : ℕ → Option Chunk → ℕ
chunk_left a none = 0
chunk_left a (some c) = within a (c.base + c.offset) (c.size - c.offset)

-- Every address lies in one block at most, among those that are free, in the chunk, or `live`.
abbrev pub IsDisjoint : State → List Block → Type 0
IsDisjoint state live =
    (a : ℕ) → covered a state.free + chunk_left a state.chunk + covered a live ≤ 1

-- A chunk that the allocator works in, in the lower half of the address space.
abbrev pub IsChunk : Option Chunk → Type 0
IsChunk none = Unit {0}
IsChunk (some c) = (0 < c.base) × (c.offset ≤ c.size) × (c.base + c.size ≤ 2 ^ 63)

-- The block is too small, or not aligned.
abbrev pub Unfit : (size align : ℕ) → Block → Type 0
Unfit size align b = (b.size < size) ⊎ (b.addr % align ≢ 0)

unlink_first-Unfit :
    (bs : List Block) (size align : ℕ)
    → unlink_first bs size align ≡ none
    → All (Unfit size align) bs
unfolding unlink_first
unlink_first-Unfit [] size align e = tt
unlink_first-Unfit (x ∷ xs) size align e =
    elim (Bool-cases (leb size x.size && (x.addr % align == 0))) [
      | inl fits ↦ absurd (let q : some (x, xs) ≡ none = rw fits at e in cc)
      | inr other ↦ elim (Option-cases (unlink_first xs size align)) [
        | inl stops ↦ (ground arith, unlink_first-Unfit xs size align stops)
        | inr ((y, ys), found) ↦
            absurd (let q : some (y, x ∷ ys) ≡ none = rw (other, found) at e in cc)
      ]
    ]

unlink_first-covered :
    (bs : List Block) (size align : ℕ) {b : Block} {bs' : List Block}
    → unlink_first bs size align ≡ some (b, bs')
    → (size ≤ b.size)
      × (b.addr % align ≡ 0)
      × ((a : ℕ) → covered a bs ≡ within a b.addr b.size + covered a bs')
unfolding unlink_first covered
unlink_first-covered [] size align e = absurd (let q : none ≡ some _ = e in cc)
unlink_first-covered (x ∷ xs) size align {b} {bs'} e =
    elim (Bool-cases (leb size x.size && (x.addr % align == 0))) [
      | inl fits ↦
          let same : (x, xs) ≡ (b, bs') = some_injective (rw fits at e) in
          subst
            (λ (p : Block × List Block).
              (size ≤ p.0.size)
              × (p.0.addr % align ≡ 0)
              × ((a : ℕ) → covered a (x ∷ xs) ≡ within a p.0.addr p.0.size + covered a p.1))
            same (ground arith, ground arith, λ a. refl)
      | inr other ↦ elim (Option-cases (unlink_first xs size align)) [
        | inl stops ↦ absurd (let q : none ≡ some _ = rw (other, stops) at e in cc)
        | inr ((y, ys), found) ↦
            let same : (y, x ∷ ys) ≡ (b, bs') = some_injective (rw (other, found) at e) in
            let (big, aligned, count) = unlink_first-covered xs size align found in
            subst
              (λ (p : Block × List Block).
                (size ≤ p.0.size)
                × (p.0.addr % align ≡ 0)
                × ((a : ℕ) → covered a (x ∷ xs) ≡ within a p.0.addr p.0.size + covered a p.1))
              same (big, aligned, λ a. omega (arith, count a))
      ]
    ]

-- The head of a block and what is left of it.
within-split :
    (a addr size part : ℕ)
    → part ≤ size
    → within a addr part + within a (addr + part) (size - part) ≡ within a addr size
unfolding within
within-split a addr size part fits = ground arith

split-covered :
    (b : Block) (bs : List Block) (size : ℕ)
    → size ≤ b.size
    → ((split b bs size).0 ≡ b.addr)
      × ((a : ℕ)
          → within a b.addr size + covered a (split b bs size).1
            ≤ within a b.addr b.size + covered a bs)
unfolding split covered
split-covered b bs size big = elim (Bool-cases (leb min_reuse (b.size - size))) [
  | inl room ↦ rw room (refl, λ a. omega (arith, within-split a b.addr b.size size big))
  | inr no_room ↦ rw no_room (refl, λ a. omega (arith, within-split a b.addr b.size size big))
]

-- A block that is taken from the list is aligned, and is part of what the list covered.
abbrev Taken : List Block → (size align : ℕ) → ℕ × List Block → Type 0
Taken free size align (p, free') =
    (p % align ≡ 0) × ((a : ℕ) → within a p size + covered a free' ≤ covered a free)

take-Taken :
    (free : List Block) (size align : ℕ) {taken : ℕ × List Block}
    → take_from_free_list free size align ≡ some taken
    → Taken free size align taken
unfolding take_from_free_list
take-Taken free size align e = elim (Option-cases (unlink_first free size align)) [
  | inl stops ↦ absurd (let q : none ≡ some _ = rw (take_from_free_list, stops) at e in cc)
  | inr ((b, bs), found) ↦
      let (big, aligned, count) = unlink_first-covered free size align found in
      let (at, less) = split-covered b bs size big in
      subst (Taken free size align) (some_injective (rw (take_from_free_list, found) at e))
        (rw at aligned, λ a. rw at (omega (arith, count a, less a)))
]

pub take-Unfit :
    (free : List Block) (size align : ℕ)
    → take_from_free_list free size align ≡ none
    → All (Unfit size align) free
unfolding take_from_free_list
take-Unfit free size align e = elim (Option-cases (unlink_first free size align)) [
  | inl stops ↦ unlink_first-Unfit free size align stops
  | inr ((b, bs), found) ↦
      absurd (let q : some (split b bs size) ≡ none = rw (take_from_free_list, found) at e in cc)
]
