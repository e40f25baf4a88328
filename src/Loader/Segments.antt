-- ===== src/Loader/Segments.antt =====
-- src/loader.rs: segments and their sections. Sums of `u32` wrap.
pub mod Offsets
use dynld.Prelude.{
  ℕ, zero, suc, ◌+◌, ◌*◌, ◌%◌, ◌^◌, bit_and, Bool, true, not, ◌||◌, List, [], ◌∷◌, ◌++◌, ltb, ◌==◌,
  if◌then◌else◌, length, Bytes, ◌>>=◌, ◌>>◌, Result, map_err, ok, out_of_fuel,
}
use dynld.Container.{Container, deserialize_type_at_offset}
use dynld.ExportsTrie.{starts_with}
use dynld.Scroll.{Scroll}
use dynld.Bindings.MachO.{SegmentCommand64}
use dynld.Array.{FixedVec, push}
use dynld.Image.{Segment}

-- SEG_TEXT
abbrev pub seg_text : Bytes
seg_text = b'_' ∷ b'_' ∷ b'T' ∷ b'E' ∷ b'X' ∷ b'T' ∷ []

-- SEG_DATA
abbrev pub seg_data : Bytes
seg_data = b'_' ∷ b'_' ∷ b'D' ∷ b'A' ∷ b'T' ∷ b'A' ∷ []

-- SECTION_TYPE
abbrev pub section_type : ℕ
section_type = 0xff

-- S_INIT_FUNC_OFFSETS
abbrev pub s_init_func_offsets : ℕ
s_init_func_offsets = 0x16

-- S_THREAD_LOCAL_VARIABLES
abbrev pub s_thread_local_variables : ℕ
s_thread_local_variables = 0x13

abbrev size_of_segment_command_64 : ℕ
size_of_segment_command_64 = 72

abbrev size_of_section_64 : ℕ
size_of_section_64 = 80

-- What the sections of a segment add to: the initialisers and whether there are thread locals.
pub record Sections : Type 0 where
  pub init_functions : List ℕ
  pub has_thread_locals : Bool

module _ (s : Scroll) (image : Container) where
  -- `while cursor < end`
  unfoldable pub init_func_loop : ℕ → (cursor end : ℕ) → List ℕ → Result (List ℕ)
  init_func_loop zero cursor end init_functions = out_of_fuel
  init_func_loop (suc fuel) cursor end init_functions =
      if ltb cursor end
      then (do
        func ←
            map_err (deserialize_type_at_offset ⦃p = s.u32⦄ image cursor)
              "could not parse S_INIT_FUNC_OFFSETS"
        init_func_loop fuel ((cursor + 4) % 2 ^ 32) end (init_functions ++ (func ∷ [])))
      else ok init_functions

  -- Each round reads four bytes of the image, and the next one those that follow.
  unfoldable pub read_init_func_offsets : (cursor size : ℕ) → List ℕ → Result (List ℕ)
  read_init_func_offsets cursor size init_functions =
      init_func_loop (suc (length image.bytes)) cursor ((cursor + size) % 2 ^ 32) init_functions

  unfoldable pub scan_section : ℕ → Sections → Result Sections
  scan_section section_off sections = do
    section ←
        map_err (deserialize_type_at_offset ⦃p = s.section_64⦄ image section_off)
          "could not parse `section_64` in the inner arm64 image"
    let kind = bit_and section.flags section_type
    if kind == s_init_func_offsets
        then (read_init_func_offsets section.offset (section.size % 2 ^ 32) sections.init_functions
            >>= λ init_functions. ok (record sections { init_functions = init_functions }))
        else if kind == s_thread_local_variables
        then ok (record sections { has_thread_locals = true })
        else ok sections

  -- `sections_left` sections are left, the next of them section `i`.
  sections_loop : (sections_left i sections_off : ℕ) → Sections → Result Sections
  sections_loop zero i sections_off sections = ok sections
  sections_loop (suc n) i sections_off sections = do
    sections' ← scan_section (sections_off + i * size_of_section_64) sections
    sections_loop n (i + 1) sections_off sections'

  -- `segname.starts_with(SEG_TEXT) || segname.starts_with(SEG_DATA)`
  abbrev pub is_scanned : Bytes → Bool
  is_scanned segname = starts_with segname seg_text || starts_with segname seg_data

  abbrev pub segment_of : SegmentCommand64 → Segment
  segment_of command = record {
    file_offset = command.fileoff;
    vm_addr = command.vmaddr;
    vm_size = command.vmsize;
    prot = command.initprot;
  }

  unfoldable pub parse_segment :
      ℕ → FixedVec Segment → Sections → Result (FixedVec Segment × Sections)
  unfolding sections_loop
  parse_segment offset segments sections = do
    command ←
        map_err (deserialize_type_at_offset ⦃p = s.segment_command_64⦄ image offset)
          "could not parse `segment_command_64` in the inner arm64 image"
    sections' ←
        if is_scanned command.segname
        then sections_loop command.nsects 0 (offset + size_of_segment_command_64) sections
        else ok sections
    segments' ← push segments (segment_of command)
    ok (segments', sections')
