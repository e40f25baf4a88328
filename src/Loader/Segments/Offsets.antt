-- ===== src/Loader/Segments/Offsets.antt =====
-- src/loader.rs: the offsets of the initialisers, as the words of a section; and that reading segments
-- ends.
use mathlib.Core.Option
use dynld.Prelude.{
  ℕ, zero, suc, ◌+◌, ◌-◌, ◌/◌, ◌%◌, ◌^◌, ◌≤◌, ◌<◌, bit_and, String, ◌≡◌, refl, ap, ◌∙◌, inl, inr,
  Option, none, some, List, [], ◌∷◌, ◌++◌, append-nil, append_assoc, arith, ltb, ◌==◌,
  if◌then◌else◌, ltb→lt, Bool-cases, Option-cases, length, ok_or, Ends-bind, Ends, returned, ok,
}
use dynld.Container.{Container, IsBounded, deserialize_type_at_offset}
use dynld.Container.Reads.{ok_or-Ends, Anything, Ends-deserialize}
use dynld.Scroll.{Scroll}
use dynld.Bindings.MachO.{SegmentCommand64}
use dynld.Array.{FixedVec}
use dynld.Array.Holding.{Holds, push-Ends}
use dynld.Image.{Segment}
use dynld.Loader.Segments.{
  Sections, init_func_loop, read_init_func_offsets, scan_section, sections_loop, is_scanned,
  segment_of, parse_segment, section_type, s_init_func_offsets, s_thread_local_variables,
}

module _ (s : Scroll) (image : Container) where
  -- `n` words, the first of them at `cursor`, if all of them can be read.
  unfoldable pub words : (n cursor : ℕ) → Option (List ℕ)
  words zero cursor = some []
  words (suc n) cursor = elim (s.u32.pread_with image.bytes cursor image.endian) [
    | none ↦ none
    | some word ↦ Option.map (λ rest. word ∷ rest) (words n (cursor + 4))
  ]

  abbrev no_word : String
  no_word = "could not parse S_INIT_FUNC_OFFSETS"

  words_after :
      (before : List ℕ) (word : ℕ) (o : Option (List ℕ))
      → ok_or (Option.map (λ ws. (before ++ (word ∷ [])) ++ ws) o) no_word
        ≡ ok_or (Option.map (λ ws. before ++ ws) (Option.map (λ ws. word ∷ ws) o)) no_word
  words_after before word none = refl
  words_after before word (some ws) = ap ok (append_assoc before (word ∷ []) ws)

  module _ (bounded : IsBounded s.u32 4) (small : length image.bytes < 2 ^ 32) where
    init_func_loop-words :
        (fuel cursor end : ℕ) (init_functions : List ℕ)
        → length image.bytes < fuel + cursor
        → 1 ≤ fuel
        → init_func_loop s image fuel cursor end init_functions
          ≡ ok_or
              (Option.map (λ ws. init_functions ++ ws) (words ((end - cursor + 3) / 4) cursor))
              no_word
    unfolding init_func_loop words deserialize_type_at_offset
    init_func_loop-words zero cursor end fs enough one = absurd (omega arith)
    init_func_loop-words (suc fuel) cursor end fs enough one = elim (Bool-cases (ltb cursor end)) [
      | inr past ↦
          let none_left : (end - cursor + 3) / 4 ≡ 0 = ground arith in
          rw (past, none_left, append-nil fs) refl
      | inl more ↦
          let before = ltb→lt cursor end more in
          let one_more : (end - cursor + 3) / 4 ≡ suc ((end - (cursor + 4) + 3) / 4) =
            omega arith in
          elim (Option-cases (s.u32.pread_with image.bytes cursor image.endian)) [
            | inl e ↦ rw (more, one_more, words, e) refl
            | inr (word, e) ↦
                let fits = bounded image.bytes cursor image.endian word e in
                let next : (cursor + 4) % 2 ^ 32 ≡ cursor + 4 = omega arith in
                let k = (end - (cursor + 4) + 3) / 4 in
                rw (more, one_more, words, e, next)
                  (init_func_loop-words fuel (cursor + 4) end (fs ++ (word ∷ [])) (omega arith)
                      (omega arith)
                    ∙ words_after fs word (words k (cursor + 4)))
          ]
    ]

    -- The offsets of a section are the words of four bytes from `cursor` on, as many as start before
    -- the end of the section, appended in their order; where one of them lies past the image it is an
    -- error. The end is computed in an `u32`, and the image is shorter than 4 GiB.
    pub read_init_func_offsets-words :
        (cursor size : ℕ) (init_functions : List ℕ)
        → read_init_func_offsets s image cursor size init_functions
          ≡ ok_or
              (Option.map
                (λ ws. init_functions ++ ws)
                (words (((cursor + size) % 2 ^ 32 - cursor + 3) / 4) cursor))
              "could not parse S_INIT_FUNC_OFFSETS"
    unfolding read_init_func_offsets
    read_init_func_offsets-words cursor size init_functions =
        init_func_loop-words (suc (length image.bytes)) cursor ((cursor + size) % 2 ^ 32)
          init_functions (omega arith) (omega arith)

    read_init_func_offsets-Ends :
        (cursor size : ℕ) (fs : List ℕ)
        → Ends Anything (read_init_func_offsets s image cursor size fs)
    read_init_func_offsets-Ends cursor size fs =
        rw (read_init_func_offsets-words cursor size fs) (ok_or-Ends _ _)

    scan_section-Ends :
        (section_off : ℕ) (sections : Sections)
        → Ends Anything (scan_section s image section_off sections)
    unfolding scan_section
    scan_section-Ends section_off sections =
        Ends-bind (Ends-deserialize s.section_64 image section_off _) λ section _.
          elim (Bool-cases (bit_and section.flags section_type == s_init_func_offsets)) [
            | inl e ↦ rw e (
                Ends-bind
                  (read_init_func_offsets-Ends section.offset (section.size % 2 ^ 32)
                    sections.init_functions)
                  λ fs _. returned tt)
            | inr e ↦
                elim (Bool-cases (bit_and section.flags section_type == s_thread_local_variables)) [
                  | inl e' ↦ rw (e, e') (returned tt)
                  | inr e' ↦ rw (e, e') (returned tt)
                ]
          ]

    sections_loop-Ends :
        (n i sections_off : ℕ) (sections : Sections)
        → Ends Anything (sections_loop s image n i sections_off sections)
    unfolding sections_loop
    sections_loop-Ends zero i sections_off sections = returned tt
    sections_loop-Ends (suc n) i sections_off sections =
        Ends-bind (scan_section-Ends _ sections)
          λ sections' _. sections_loop-Ends n (i + 1) sections_off sections'

    sections_of-Ends :
        (command : SegmentCommand64) (sections_off : ℕ) (sections : Sections)
        → Ends Anything (
            if is_scanned s image command.segname
            then sections_loop s image command.nsects 0 sections_off sections
            else ok sections)
    sections_of-Ends command sections_off sections =
        elim (Bool-cases (is_scanned s image command.segname)) [
          | inl e ↦ rw e (sections_loop-Ends command.nsects 0 sections_off sections)
          | inr e ↦ rw e (returned tt)
        ]

    -- Reading a segment ends, and where it returns there is one more.
    pub parse_segment-Ends :
        (offset : ℕ) (segments : FixedVec Segment) (items : List Segment) (sections : Sections)
        → Holds 64 segments items
        → Ends
            (λ (segments', _). (more : List Segment) × Holds 64 segments' more)
            (parse_segment s image offset segments sections)
    unfolding parse_segment
    parse_segment-Ends offset segments items sections h =
        Ends-bind (Ends-deserialize s.segment_command_64 image offset _) λ command _.
          Ends-bind (sections_of-Ends command _ sections) λ sections' _.
            Ends-bind (push-Ends (segment_of s image command) h) λ segments' h'. returned (_, h')
