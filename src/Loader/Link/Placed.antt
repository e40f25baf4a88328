-- ===== src/Loader/Link/Placed.antt =====
-- src/loader.rs: where the segments are copied to.
use mathlib.Core.Path.{subst}
use dynld.Prelude.{
  ℕ, suc, ◌+◌, ◌-◌, ◌%◌, ◌^◌, ◌≤◌, ◌<◌, min, max, ◌≡◌, refl, sym, ap, ◌∙◌, ◌⊎◌, inl, inr, Bool,
  ◌&&◌, some, List, [], ◌∷◌, ◌++◌, append-nil, append_assoc, arith, leb, ◌==◌, if◌then◌else◌,
  Bool-cases, get_elem?, All, All-get_elem?, ok_or, ok_injective, by_bind, ok,
}
use dynld.Container.{Container}
use dynld.Image.{Segment}
use dynld.Loader.Link.Performed.{performed}
use dynld.Loader.Link.{
  happens, Event, allocated, copied, Process, System, at, range_fold, vm_range, vm_size_of,
  segment_map, segments_map, macho_segments_map_to_vm,
}

-- The segment ends inside the address space.
abbrev pub Addressable : Segment → Type 0
Addressable seg = seg.vm_addr + seg.vm_size < 2 ^ 64

-- The segment lies between two addresses.
abbrev Within : (lo hi : ℕ) → Segment → Type 0
Within lo hi seg = lo ≤ seg.vm_addr × seg.vm_addr + seg.vm_size ≤ hi

All-mono {ℓ κ} :
    {A : Type ℓ} {P Q : A → Type κ} (xs : List A) → ((a : A) → P a → Q a) → All P xs → All Q xs
All-mono [] k h = h
All-mono (x ∷ xs) k h = (k x h.0, All-mono xs k h.1)

-- The range only grows, and covers each segment.
range_fold-covers :
    (segments : List Segment) (lo hi : ℕ)
    → All Addressable segments
    → hi < 2 ^ 64
    → ((range_fold segments lo hi).0 ≤ lo)
      × (hi ≤ (range_fold segments lo hi).1)
      × ((range_fold segments lo hi).1 < 2 ^ 64)
      × All (Within (range_fold segments lo hi).0 (range_fold segments lo hi).1) segments
range_fold-covers [] lo hi fit small = (omega arith, omega arith, small, tt)
range_fold-covers (seg ∷ segments) lo hi fit small =
    let here = fit.0 in
    let end : (seg.vm_addr + seg.vm_size) % 2 ^ 64 ≡ seg.vm_addr + seg.vm_size = omega arith in
    let (below, above, bounded, within) =
      range_fold-covers segments (min lo seg.vm_addr)
        (max hi ((seg.vm_addr + seg.vm_size) % 2 ^ 64)) fit.1 (omega arith) in
    (omega arith, omega arith, bounded, ((omega arith, omega arith), within))

-- The end of the range is that of a segment, or the one that the search started with.
range_fold-attains :
    (segments : List Segment) (lo hi : ℕ)
    → All Addressable segments
    → ((range_fold segments lo hi).1 ≡ hi)
      ⊎ ((i : ℕ) × (seg : Segment) × (get_elem? segments i ≡ some seg)
          × ((range_fold segments lo hi).1 ≡ seg.vm_addr + seg.vm_size))
range_fold-attains [] lo hi fit = inl refl
range_fold-attains (seg ∷ segments) lo hi fit =
    let here = fit.0 in
    let end : (seg.vm_addr + seg.vm_size) % 2 ^ 64 ≡ seg.vm_addr + seg.vm_size = omega arith in
    elim (range_fold-attains segments (min lo seg.vm_addr)
      (max hi ((seg.vm_addr + seg.vm_size) % 2 ^ 64)) fit.1) [
        | inr (i, highest, at_i, e) ↦ inr (suc i, highest, at_i, e)
        | inl e ↦ elim (Bool-cases (leb (seg.vm_addr + seg.vm_size) hi)) [
          | inl lower ↦ inl (e ∙ ground arith)
          | inr higher ↦ inr (0, seg, refl, e ∙ ground arith)
        ]
      ]

-- A copy into a region of `size` bytes at `vm`.
pub data CopiedInto (vm size : ℕ) : Event → Type 0 where
  copied_into :
      {file_offset address count : ℕ}
      → vm ≤ address
      → address + count ≤ vm + size
      → CopiedInto vm size (copied file_offset address count)

-- One copy for each segment, in their order, from its place in the file to its place in the region; the
-- page zero of an executable is left out.
abbrev pub copies_of : (skip_page_zero : Bool) → (vm : ℕ) → List Segment → List Event
copies_of skip_page_zero vm [] = []
copies_of skip_page_zero vm (seg ∷ segments) =
    if skip_page_zero && (seg.vm_addr == 0)
    then copies_of skip_page_zero vm segments
    else copied seg.file_offset (vm + seg.vm_addr) seg.vm_size
      ∷ copies_of skip_page_zero vm segments

copies_of-CopiedInto :
    (skip_page_zero : Bool) (vm size : ℕ) (segments : List Segment)
    → All (Within 0 size) segments
    → All (CopiedInto vm size) (copies_of skip_page_zero vm segments)
copies_of-CopiedInto skip_page_zero vm size [] within = tt
copies_of-CopiedInto skip_page_zero vm size (seg ∷ segments) within =
    let rest = copies_of-CopiedInto skip_page_zero vm size segments within.1 in
    elim (Bool-cases (skip_page_zero && (seg.vm_addr == 0))) [
      | inl e ↦ rw e rest
      | inr e ↦ rw e (copied_into (omega arith) (omega (arith, within.0.1)), rest)
    ]

segments_map-copies :
    (sys : System) (image : Container) (skip_page_zero : Bool) (vm size : ℕ)
    (segments : List Segment) (p : Process)
    → All (Within 0 size) segments
    → vm + size < 2 ^ 64
    → segments_map sys skip_page_zero image vm segments p ≡ record {
      memory = performed sys image (copies_of skip_page_zero vm segments) p.memory;
      events = p.events ++ copies_of skip_page_zero vm segments;
    }
unfolding segments_map segment_map
segments_map-copies sys image skip_page_zero vm size [] p within room =
    ap (λ events. record p { events = events }) (sym (append-nil p.events))
segments_map-copies sys image skip_page_zero vm size (seg ∷ segments) p within room =
    elim (Bool-cases (skip_page_zero && (seg.vm_addr == 0))) [
      | inl e ↦
          rw (segments_map, segment_map, e)
            (segments_map-copies sys image skip_page_zero vm size segments p within.1 room)
      | inr e ↦
          let place : at vm seg.vm_addr ≡ vm + seg.vm_addr = omega (arith, within.0.1) in
          let copy = copied seg.file_offset (vm + seg.vm_addr) seg.vm_size in
          let p1 : Process = record {
            memory = sys.vm_copy image seg.file_offset (vm + seg.vm_addr) seg.vm_size p.memory;
            events = p.events ++ (copy ∷ []);
          } in
          let copies = copies_of skip_page_zero vm segments in
          rw (segments_map, segment_map, e, place)
            (segments_map-copies sys image skip_page_zero vm size segments p1 within.1 room
              ∙ ap
                  (λ events. record {
                    memory = performed sys image copies p1.memory;
                    events = events;
                  })
                  (append_assoc p.events (copy ∷ []) copies))
    ]

-- What a mapping comes to: one region is requested, of the size at which the highest segment ends; then
-- every segment is copied to its address in it, and the copies stay inside it.
abbrev pub MappedInto :
    System → Container → Bool → List Segment → Process → (ℕ × ℕ) × Process → Type 0
MappedInto sys image skip_page_zero segments p ((vm, size), p') =
    (p'.events ≡ p.events ++ (allocated vm size ∷ copies_of skip_page_zero vm segments))
    × (p'.memory ≡ performed sys image (copies_of skip_page_zero vm segments) p.memory)
    × All (CopiedInto vm size) (copies_of skip_page_zero vm segments)
    × All (λ (seg : Segment). seg.vm_addr + seg.vm_size ≤ size) segments
    × ((i : ℕ) × (highest : Segment) × (get_elem? segments i ≡ some highest)
        × (highest.vm_addr + highest.vm_size ≡ size))

-- When the lowest segment is at address 0, the segments end inside the address space and so does the
-- region that the kernel finds, one region is allocated, and its size is the end of the highest segment.
-- Then every segment, but a page zero where that is to be skipped, is copied once and in order, from its
-- offset in the file to its address from the start of the region; every copy stays inside the region.
pub macho_segments_map_to_vm-CopiedInto :
    (sys : System) (image : Container) (skip_page_zero : Bool) (segments : List Segment)
    (p p' : Process) (i vm size : ℕ) (lowest : Segment)
    → All Addressable segments
    → get_elem? segments i ≡ some lowest
    → lowest.vm_addr ≡ 0
    → vm + size < 2 ^ 64
    → macho_segments_map_to_vm sys skip_page_zero image segments p ≡ ok ((vm, size), p')
    → MappedInto sys image skip_page_zero segments p ((vm, size), p')
unfolding macho_segments_map_to_vm vm_size_of vm_range
macho_segments_map_to_vm-CopiedInto sys image skip_page_zero segments p p' i vm size lowest fit at_i
      at_zero room h =
    let range = range_fold segments (2 ^ 64 - 1) 0 in
    let (below, above, bounded, within) =
      range_fold-covers segments (2 ^ 64 - 1) 0 fit (omega arith) in
    let from_lowest = All-get_elem? (Within range.0 range.1) segments i within at_i in
    let size_is : vm_size_of segments ≡ range.1 = omega (arith, from_lowest.0) in
    let within_size : All (Within 0 (vm_size_of segments)) segments =
      All-mono segments (λ seg w. (omega arith, omega (arith, w.1))) within in
    let highest : (j : ℕ) × (seg : Segment) × (get_elem? segments j ≡ some seg)
        × (seg.vm_addr + seg.vm_size ≡ vm_size_of segments) =
      elim (range_fold-attains segments (2 ^ 64 - 1) 0 fit) [
        | inl e ↦ (i, lowest, at_i, omega (arith, from_lowest.1))
        | inr (j, seg, at_j, e) ↦ (j, seg, at_j, sym (size_is ∙ e))
      ] in
    by_bind (ok_or (sys.vm_alloc_task_self p (vm_size_of segments)) "failed to vm_alloc_task_self")
      _ h
      λ vm' e g.
        let P : (ℕ × ℕ) × Process → Type 0 =
          λ r. r.0.0 + r.0.1 < 2 ^ 64 → MappedInto sys image skip_page_zero segments p r in
        subst P (ok_injective g)
          (λ room'.
            let region = allocated vm' (vm_size_of segments) in
            let copies = copies_of skip_page_zero vm' segments in
            let maps =
              segments_map-copies sys image skip_page_zero vm' (vm_size_of segments) segments
                (happens region p) within_size room' in
            (
              ap (λ (q : Process). q.events) maps ∙ append_assoc p.events (region ∷ []) copies,
              ap (λ (q : Process). q.memory) maps,
              copies_of-CopiedInto skip_page_zero vm' (vm_size_of segments) segments within_size,
              All-mono segments (λ seg w. w.1) within_size,
              highest,
            ))
          room
