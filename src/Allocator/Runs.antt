-- ===== src/Allocator/Runs.antt =====
-- An empty allocator and one that has a chunk, and the theorems at them.
use dynld.Prelude.{
  ℕ, ◌+◌, ◌%◌, ◌^◌, ◌≤◌, ◌<◌, max, ◌≡◌, refl, inl, inr, Option, none, some, [], ◌∷◌, arith, leb,
  if◌then◌else◌, leb→le, Bool-cases, some_injective,
}
use dynld.Allocator.{
  State, large_threshold, align_up, normalize, bump_chunk, bump_alloc, unlink_first, split,
  take_from_free_list, alloc_in_new_chunk, or_in_new_chunk, alloc_small, alloc_impl, dealloc_impl,
}
use dynld.Allocator.Align.{align_up-rounds}
use dynld.Allocator.Disjoint.{within, covered, chunk_left, IsDisjoint}
use dynld.Allocator.Disjoint.Alloc.{
  Answer, GivenBack, IsFresh, alloc_impl-Answer, dealloc_impl-IsDisjoint,
}

abbrev vm_alloc : ℕ → Option ℕ
vm_alloc size = if leb size 0x100_0000 then some 0x10_0000 else none

abbrev empty : State
empty = record { chunk = none; free = [] }

-- A chunk with 48 bytes in use.
abbrev busy : State
busy = record {
  chunk = some (record { base = 0x10_0000; size = 0x4_0000; offset = 48 });
  free = [];
}

allocates : alloc_impl vm_alloc empty 24 16 ≡ (
  some 0x10_0000,
  record { chunk = some (record { base = 0x10_0000; size = 0x4_0000; offset = 24 }); free = [] },
)
unfolding alloc_impl normalize align_up alloc_small take_from_free_list unlink_first bump_alloc
    alloc_in_new_chunk or_in_new_chunk bump_chunk
allocates = refl

reuses :
    alloc_impl vm_alloc (dealloc_impl busy 0x10_0000 48 8) 16 8
    ≡ (some 0x10_0000, record busy { free = record { addr = 0x10_0010; size = 32 } ∷ [] })
unfolding alloc_impl dealloc_impl normalize align_up alloc_small take_from_free_list unlink_first
    split
reuses = refl

empty-IsDisjoint : IsDisjoint empty []
unfolding covered chunk_left
empty-IsDisjoint a = omega arith

empty-IsFresh : IsFresh vm_alloc empty []
unfolding covered within
empty-IsFresh size base e = elim (Bool-cases (leb size 0x100_0000)) [
  | inl fits ↦
      let at : 0x10_0000 ≡ base = some_injective (rw fits at e) in
      let small : size ≤ 0x100_0000 = leb→le _ _ fits in
      (omega arith, omega arith, λ a. ground arith)
  | inr large ↦ absurd (let q : none ≡ some _ = rw large at e in cc)
]

small_request : (normalize 24 (2 ^ 4)).0 < large_threshold
unfolding normalize align_up
small_request = omega arith

align_up-rounds_example :
    (13 ≤ align_up 13 (2 ^ 3))
    × (align_up 13 (2 ^ 3) < 13 + 2 ^ 3)
    × (align_up 13 (2 ^ 3) % 2 ^ 3 ≡ 0)
align_up-rounds_example = align_up-rounds 13 3 (omega arith) (omega arith)

alloc_impl-Answer_example :
    (24 ≤ (normalize 24 (2 ^ 4)).0)
    × Answer vm_alloc empty []
        (normalize 24 (2 ^ 4)).0
        (2 ^ max 4 3)
        (alloc_impl vm_alloc empty 24 (2 ^ 4))
alloc_impl-Answer_example =
    alloc_impl-Answer vm_alloc empty [] 24 4 (omega arith) (omega arith) small_request tt
      empty-IsDisjoint empty-IsFresh

busy-IsDisjoint : IsDisjoint busy (record { addr = 0x10_0000; size = (normalize 48 8).0 } ∷ [])
unfolding covered chunk_left within normalize align_up
busy-IsDisjoint a = ground arith

small_block : (normalize 48 8).0 < large_threshold
unfolding normalize align_up
small_block = omega arith

dealloc_impl-IsDisjoint_example :
    IsDisjoint (dealloc_impl busy 0x10_0000 48 8) []
    × GivenBack 0x10_0000 (normalize 48 8).0 busy (dealloc_impl busy 0x10_0000 48 8)
dealloc_impl-IsDisjoint_example =
    dealloc_impl-IsDisjoint busy [] 0x10_0000 48 8 small_block busy-IsDisjoint
