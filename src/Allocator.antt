-- ===== src/Allocator.antt =====
-- src/allocator.rs: the bump allocator with a list of free blocks. The free list is the list of its
-- nodes in order: a node lies in the freed block that it describes, and only the allocator touches it.
-- A null pointer is `none`. The answer of the kernel to a request for memory is a parameter.
pub mod Align
pub mod Disjoint
mod Runs
use dynld.Prelude.{
  ℕ, zero, suc, ◌+◌, ◌-◌, ◌*◌, ◌/◌, ◌%◌, ◌^◌, max, bit_and, ◌&&◌, Option, none, some, List, [], ◌∷◌,
  ltb, leb, ◌==◌, if◌then◌else◌,
}

abbrev pub page_size : ℕ
page_size = 4096

abbrev pub chunk_size : ℕ
chunk_size = 64 * page_size

abbrev pub large_threshold : ℕ
large_threshold = chunk_size / 2

-- size_of::<FreeNode>() and align_of::<FreeNode>()
abbrev pub min_reuse : ℕ
min_reuse = 16

abbrev pub min_align : ℕ
min_align = 8

-- A free node with its own address.
pub record Block : Type 0 where
  pub addr : ℕ
  pub size : ℕ

pub record Chunk : Type 0 where
  pub base : ℕ
  pub size : ℕ
  pub offset : ℕ

pub record State : Type 0 where
  pub chunk : Option Chunk
  pub free : List Block

-- `(addr + align - 1) & !(align - 1)`
unfoldable pub align_up : ℕ → ℕ → ℕ
align_up addr align = bit_and ((addr + align - 1) % 2 ^ 64) (2 ^ 64 - align)

unfoldable pub normalize : ℕ → ℕ → ℕ × ℕ
normalize size align = (align_up (max size min_reuse) min_align, max align min_align)

-- `NonNull::new`
abbrev pub non_null : ℕ → Option ℕ
non_null zero = none
non_null (suc p) = some (suc p)

-- `bump_alloc` in a chunk: the pointer, and the chunk, which has its new offset whenever there is room.
unfoldable pub bump_chunk : Chunk → (size align : ℕ) → Option ℕ × Chunk
bump_chunk chunk size align =
    let aligned = align_up ((chunk.base + chunk.offset) % 2 ^ 64) align in
    if leb (2 ^ 64) (aligned + size)
    then (none, chunk)
    else if ltb (aligned + size) chunk.base
    then (none, chunk)
    else if ltb chunk.size (aligned + size - chunk.base)
    then (none, chunk)
    else (non_null aligned, record chunk { offset = aligned + size - chunk.base })

unfoldable pub bump_alloc : Option Chunk → (size align : ℕ) → Option ℕ × Option Chunk
bump_alloc none size align = (none, none)
bump_alloc (some chunk) size align =
    let (p, chunk') = bump_chunk chunk size align in (p, some chunk')

-- A block in front of the others.
abbrev pub keep : Block → Option (Block × List Block) → Option (Block × List Block)
keep block none = none
keep block (some (found, blocks)) = some (found, block ∷ blocks)

-- The first node that fits, and the list without it.
unfoldable pub unlink_first : List Block → (size align : ℕ) → Option (Block × List Block)
unlink_first [] size align = none
unlink_first (block ∷ blocks) size align =
    if leb size block.size && (block.addr % align == 0)
    then some (block, blocks)
    else keep block (unlink_first blocks size align)

-- What is left of a block goes back to the list if a node fits in it.
unfoldable pub split : Block → List Block → (size : ℕ) → ℕ × List Block
split block blocks size =
    if leb min_reuse (block.size - size)
    then (block.addr, record { addr = block.addr + size; size = block.size - size } ∷ blocks)
    else (block.addr, blocks)

unfoldable pub take_from_free_list : List Block → (size align : ℕ) → Option (ℕ × List Block)
take_from_free_list free size align = elim (unlink_first free size align) [
  | none ↦ none
  | some (block, blocks) ↦ some (split block blocks size)
]

abbrev pub fresh_chunk : (base size : ℕ) → Chunk
fresh_chunk base size = record { base = base; size = size; offset = 0 }

-- With a new chunk in place of the current one; `answer` is what the kernel says.
unfoldable pub alloc_in_new_chunk : Option ℕ → State → (size align : ℕ) → Option ℕ × State
alloc_in_new_chunk none state size align = (none, state)
alloc_in_new_chunk (some base) state size align =
    let chunk = fresh_chunk base (max chunk_size (size + align)) in
    let (p, chunk') = bump_chunk chunk size align in (p, record state { chunk = some chunk' })

-- Without a block in the chunk a new one is asked for.
unfoldable pub or_in_new_chunk :
    (ℕ → Option ℕ) → State → (size align : ℕ) → Option ℕ × Option Chunk → Option ℕ × State
or_in_new_chunk vm_alloc state size align (some p, chunk) = (some p, record state { chunk = chunk })
or_in_new_chunk vm_alloc state size align (none, chunk) =
    alloc_in_new_chunk (vm_alloc (max chunk_size (size + align))) (record state { chunk = chunk })
      size align

unfoldable pub alloc_small : (ℕ → Option ℕ) → State → (size align : ℕ) → Option ℕ × State
alloc_small vm_alloc state size align = elim (take_from_free_list state.free size align) [
  | some (p, free) ↦ (some p, record state { free = free })
  | none ↦ or_in_new_chunk vm_alloc state size align (bump_alloc state.chunk size align)
]

unfoldable pub alloc_impl : (ℕ → Option ℕ) → State → (size align : ℕ) → Option ℕ × State
alloc_impl vm_alloc state size align =
    let (size', align') = normalize size align in
    if leb large_threshold size'
    then (vm_alloc size', state)
    else alloc_small vm_alloc state size' align'

-- A null pointer is passed over, and a large block goes back to the kernel.
unfoldable pub dealloc_impl : State → (ptr size align : ℕ) → State
dealloc_impl state ptr size align =
    let (size', align') = normalize size align in
    if ptr == 0
    then state
    else if leb large_threshold size'
    then state
    else record state { free = record { addr = ptr; size = size' } ∷ state.free }
