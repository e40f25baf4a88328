-- ===== src/Allocator/Disjoint/Alloc.antt =====
-- Allocation keeps blocks apart.
use dynld.Prelude.{
  ℕ, zero, suc, ◌+◌, ◌-◌, ◌%◌, ◌^◌, ◌≤◌, ◌<◌, max, ◌≡◌, refl, ◌⊎◌, inl, inr, false, Option, none,
  some, List, ◌∷◌, arith, leb, ◌==◌, Bool-cases, Option-cases, All,
}
use native.Mathlib.Nat.{pow-le-pow_right}
use dynld.Allocator.{
  Block, Chunk, State, chunk_size, large_threshold, min_reuse, min_align, align_up, normalize,
  or_in_new_chunk, bump_alloc, take_from_free_list, fresh_chunk, alloc_in_new_chunk, alloc_small,
  alloc_impl, dealloc_impl,
}
use dynld.Allocator.Align.{align_up-rounds}
use dynld.Allocator.Disjoint.{
  within, covered, chunk_left, IsDisjoint, IsChunk, take-Taken, Unfit, take-Unfit,
}
use dynld.Allocator.Disjoint.Bump.{IsFull, bump_chunk-cases}

-- The kernel hands out memory of the lower half that belongs to no block that is free or live.
abbrev pub IsFresh : (ℕ → Option ℕ) → State → List Block → Type 0
IsFresh vm_alloc state live =
    (size base : ℕ)
    → vm_alloc size ≡ some base
    → (0 < base)
      × (base + size ≤ 2 ^ 63)
      × ((a : ℕ) → covered a state.free + within a base size + covered a live ≤ 1)

-- The memory that the kernel answers with: how often an address lies in it.
abbrev pub granted : Option ℕ → (a size : ℕ) → ℕ
granted none a size = 0
granted (some base) a size = within a base size

-- A block that is handed out is aligned, is taken from the free blocks, the chunk or what the kernel
-- grants, and again no byte belongs to two blocks. The answer is null only where no free block fits, the
-- chunk is full and the kernel has no memory, and then nothing changes.
abbrev pub Answer :
    (ℕ → Option ℕ) → State → List Block → (size align : ℕ) → Option ℕ × State → Type 0
Answer vm_alloc state live size align (none, state') =
    (state' ≡ state)
    × All (Unfit size align) state.free
    × IsFull state.chunk (size + align)
    × (vm_alloc (max chunk_size (size + align)) ≡ none)
Answer vm_alloc state live size align (some p, state') =
    (p % align ≡ 0)
    × IsChunk state'.chunk
    × ((a : ℕ)
        → within a p size + covered a state'.free + chunk_left a state'.chunk
          ≤ covered a state.free
            + chunk_left a state.chunk
            + granted (vm_alloc (max chunk_size (size + align))) a (max chunk_size (size + align)))
    × IsDisjoint state' (record { addr = p; size = size } ∷ live)

fresh_chunk-left :
    (a base size : ℕ) → chunk_left a (some (fresh_chunk base size)) ≡ within a base size
unfolding chunk_left
fresh_chunk-left a base size =
    let from : base + 0 ≡ base = omega arith in
    let all : size - 0 ≡ size = omega arith in rw (from, all) refl

abbrev state_of : Option Chunk → List Block → State
state_of chunk free = record { chunk = chunk; free = free }

module _ (vm_alloc : ℕ → Option ℕ) (free live : List Block) (size k : ℕ) (small : k ≤ 62) where
  in_new_chunk-Answer :
      (chunk : Option Chunk) (answer : Option ℕ)
      → IsFresh vm_alloc (state_of chunk free) live
      → All (Unfit size (2 ^ k)) free
      → IsFull chunk (size + 2 ^ k)
      → vm_alloc (max chunk_size (size + 2 ^ k)) ≡ answer
      → Answer vm_alloc
          (state_of chunk free)
          live
          size
          (2 ^ k)
          (alloc_in_new_chunk answer (state_of chunk free) size (2 ^ k))
  unfolding alloc_in_new_chunk covered
  in_new_chunk-Answer chunk none fresh unfit full e = (refl, unfit, full, e)
  in_new_chunk-Answer chunk (some base) fresh unfit full e =
      let n = max chunk_size (size + 2 ^ k) in
      let (based, low, apart) = fresh n base e in
      let c = fresh_chunk base n in
      elim (bump_chunk-cases c size k small (based, omega arith, low)) [
        | inl (_, no_room) ↦ absurd (omega arith)
        | inr (p, c', taken, (aligned, ok', less)) ↦
            rw (Answer, alloc_in_new_chunk, taken, e)
              (
                aligned,
                ok',
                λ a. omega (arith, fresh_chunk-left a base n, less a),
                λ a. omega (arith, apart a, fresh_chunk-left a base n, less a),
              )
      ]

  from_chunk-Answer :
      (chunk : Option Chunk)
      → IsChunk chunk
      → IsDisjoint (state_of chunk free) live
      → IsFresh vm_alloc (state_of chunk free) live
      → All (Unfit size (2 ^ k)) free
      → Answer vm_alloc (state_of chunk free) live size (2 ^ k) (
          or_in_new_chunk vm_alloc
            (state_of chunk free)
            size
            (2 ^ k)
            (bump_alloc chunk size (2 ^ k)))
  unfolding bump_alloc or_in_new_chunk covered
  from_chunk-Answer none chunk_ok disjoint fresh unfit =
      in_new_chunk-Answer none (vm_alloc (max chunk_size (size + 2 ^ k))) fresh unfit tt refl
  from_chunk-Answer (some c) chunk_ok disjoint fresh unfit =
      elim (bump_chunk-cases c size k small chunk_ok) [
        | inl (e, full) ↦
            rw (bump_alloc, e)
              (in_new_chunk-Answer (some c) (vm_alloc (max chunk_size (size + 2 ^ k))) fresh unfit
                full refl)
        | inr (p, c', taken, (aligned, ok', less)) ↦
            rw (bump_alloc, taken)
              (aligned, ok', λ a. omega (arith, less a), λ a. omega (arith, disjoint a, less a))
      ]

  alloc_small-Answer :
      (chunk : Option Chunk)
      → IsChunk chunk
      → IsDisjoint (state_of chunk free) live
      → IsFresh vm_alloc (state_of chunk free) live
      → Answer vm_alloc
          (state_of chunk free)
          live
          size
          (2 ^ k)
          (alloc_small vm_alloc (state_of chunk free) size (2 ^ k))
  unfolding alloc_small covered
  alloc_small-Answer chunk chunk_ok disjoint fresh =
      elim (Option-cases (take_from_free_list free size (2 ^ k))) [
        | inl nothing ↦
            rw (Answer, alloc_small, nothing)
              (from_chunk-Answer chunk chunk_ok disjoint fresh
                (take-Unfit free size (2 ^ k) nothing))
        | inr ((p, free'), taken) ↦
            let (aligned, less) = take-Taken free size (2 ^ k) taken in
            rw (Answer, alloc_small, taken)
              (
                aligned,
                chunk_ok,
                λ a. omega (arith, less a),
                λ a. omega (arith, disjoint a, less a),
              )
      ]

-- The alignment that is used for a request: eight bytes at least.
align_max : (k : ℕ) → max (2 ^ k) min_align ≡ 2 ^ max k 3
align_max zero = refl
align_max (suc zero) = refl
align_max (suc (suc zero)) = refl
align_max (suc (suc (suc j))) =
    let k = suc (suc (suc j)) in
    let big : 2 ^ 3 ≤ 2 ^ k = pow-le-pow_right (omega arith) {i = 3} (omega arith) in
    let same : max k 3 ≡ k = omega arith in rw same (omega (arith, big))

-- For a small request, aligned to a power of two up to 2^62, in a state with its chunk, if any, in the
-- lower half of the address space and no address in two blocks, and with a kernel that hands out unused
-- memory of the lower half: a block that is handed out is as large as was asked for at least, aligned to
-- the power of two and to eight, and taken from the free blocks, the chunk or the memory that the kernel
-- has for a new chunk; and again no address lies in two blocks, those that are free, in the chunk, or
-- handed out before or now. The answer is null only where no free block fits, the chunk has no room for
-- the size and the alignment, and the kernel has no memory for a new chunk; then nothing changes.
pub alloc_impl-Answer :
    (vm_alloc : ℕ → Option ℕ) (state : State) (live : List Block) (size k : ℕ)
    → k ≤ 62
    → size < 2 ^ 63
    → (normalize size (2 ^ k)).0 < large_threshold
    → IsChunk state.chunk
    → IsDisjoint state live
    → IsFresh vm_alloc state live
    → (size ≤ (normalize size (2 ^ k)).0)
      × Answer vm_alloc state live
          (normalize size (2 ^ k)).0
          (2 ^ max k 3)
          (alloc_impl vm_alloc state size (2 ^ k))
unfolding alloc_impl normalize
alloc_impl-Answer vm_alloc state live size k power fits small chunk_ok disjoint fresh =
    let size' = align_up (max size min_reuse) min_align in
    let (up, _, _) = align_up-rounds (max size min_reuse) 3 (omega arith) (omega arith) in
    let not_large : leb large_threshold size' ≡ false = ground arith in
    (
      omega (arith, up),
      rw (align_max k, not_large)
          (alloc_small-Answer vm_alloc state.free live size' (max k 3) (omega arith) state.chunk
            chunk_ok disjoint fresh),
    )

-- What giving back a small block comes to: a null pointer changes nothing, and otherwise the chunk stays,
-- and the free list covers the bytes of the block and those that it covered before.
abbrev pub GivenBack : (ptr size : ℕ) → (state state' : State) → Type 0
GivenBack ptr size state state' =
    ((ptr ≡ 0) × (state' ≡ state))
    ⊎ ((0 < ptr)
        × (state'.chunk ≡ state.chunk)
        × ((a : ℕ) → covered a state'.free ≡ within a ptr size + covered a state.free))

-- In a state in which no address lies in two of the blocks that are free, in the chunk, or handed out,
-- giving back a small block that is handed out, with its normalized size, keeps the blocks apart: no
-- address lies in two of those that are free, in the chunk, or still handed out. The free list then covers
-- the bytes of the block on top of those that it covered before, and the chunk stays; where the pointer is
-- null nothing changes.
pub dealloc_impl-IsDisjoint :
    (state : State) (live : List Block) (ptr size align : ℕ)
    → (normalize size align).0 < large_threshold
    → IsDisjoint state (record { addr = ptr; size = (normalize size align).0 } ∷ live)
    → IsDisjoint (dealloc_impl state ptr size align) live
      × GivenBack ptr (normalize size align).0 state (dealloc_impl state ptr size align)
unfolding dealloc_impl normalize covered
dealloc_impl-IsDisjoint state live ptr size align small disjoint =
    let not_large : leb large_threshold (align_up (max size min_reuse) min_align) ≡ false =
      ground arith in
    elim (Bool-cases (ptr == 0)) [
      | inl null ↦ rw null (λ a. omega (arith, disjoint a), inl (ground arith, refl))
      | inr block ↦
          rw (block, not_large)
            (λ a. omega (arith, disjoint a), inr (ground arith, refl, λ a. refl))
    ]
