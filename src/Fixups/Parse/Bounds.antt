-- ===== src/Fixups/Parse/Bounds.antt =====
-- The parser of chained fixups ends, and every fixup lies inside the image.
use dynld.Prelude.{
  ℕ, zero, suc, ◌+◌, ◌-◌, ◌%◌, ◌^◌, ◌≤◌, ◌<◌, ◌≡◌, refl, sym, ◌∙◌, ◌≢◌, ◌⊎◌, inl, inr, Option, none,
  some, List, [], ◌∷◌, ◌++◌, arith, ◌==◌, Bool-cases, length, All, All-append, Result, Ends-bind,
  Ends-ne_out_of_fuel, Ends-eq-ok, Ends, returned, ok, out_of_fuel,
}
use dynld.Container.{Container, IsBounded}
use dynld.Container.Reads.{Anything, Ends-deserialize}
use dynld.Scroll.{Scroll}
use dynld.Bindings.MachO.{LoadCommand}
use dynld.Bindings.Chained.{
  DyldChainedFixupsHeader, DyldChainedStartsInSegment, DyldChainedPtrFormatVariants,
}
use dynld.Image.{LcIterator, try_with_container, try_next}
use dynld.Fixups.{Fixup, Imports}
use dynld.Fixups.Parse.{
  chain_loop, page_loop, segment_parse, segment_loop, parse_from, chained_fixups_parse_all,
  header_loop, header_step, header_at, chained_fixups_header_and_offset_find, is_chained_fixups,
}
use dynld.Fixups.Parse.Decoders.{fixup_parse_one-Ends}

module _ (s : Scroll) where
  try_with_container-Ends : (c : Container) → Ends Anything (try_with_container s c)
  unfolding try_with_container
  try_with_container-Ends c =
      Ends-bind (Ends-deserialize s.mach_header_64 c _ _) λ header e. returned tt

  -- A command that is returned leaves one less.
  try_next-Ends :
      (it : LcIterator)
      → Ends (λ (command, it'). (command ≡ none) ⊎ (it'.remaining < it.remaining)) (try_next s it)
  unfolding try_next
  try_next-Ends it = elim (Bool-cases (it.remaining == 0)) [
    | inl done ↦ rw done (returned (inl refl))
    | inr more ↦ rw more (
        Ends-bind (Ends-deserialize s.load_command it.container _ _)
          λ command e. returned (inr (ground arith)))
  ]

module _ (s : Scroll) (c : Container) (u64_bounded : IsBounded s.u64 8)
    (in_memory : length c.bytes < 2 ^ 63) where
  -- Each fixup is a pointer that lies inside the image.
  abbrev pub AllInside : List Fixup → Type 0
  AllInside = All (λ (f : Fixup). f.offset + 8 ≤ length c.bytes)

  chain_loop-Ends :
      (fuel : ℕ) (format : DyldChainedPtrFormatVariants) (imports : Imports) (offset : ℕ)
      (fixups : List Fixup)
      → length c.bytes - offset < fuel
      → AllInside fixups
      → Ends AllInside (chain_loop s c fuel format imports offset fixups)
  unfolding chain_loop
  chain_loop-Ends zero format imports offset fixups enough inside = absurd (omega arith)
  chain_loop-Ends (suc fuel) format imports offset fixups enough inside =
      Ends-bind (Ends-deserialize s.u64 c offset _) λ value e.
        let fits : offset + 8 ≤ length c.bytes = u64_bounded c.bytes offset c.endian value e in
        Ends-bind (fixup_parse_one-Ends s c format value offset imports)
          λ (next, fixup) (near, here).
            let inside' : AllInside (fixups ++ (fixup ∷ [])) =
              All-append _ fixups (fixup ∷ []) inside (rw here fits, tt) in
            elim (Bool-cases (next == 0)) [
              | inl last ↦ rw last (returned inside')
              | inr more ↦ rw more (
                  chain_loop-Ends fuel format imports ((offset + next) % 2 ^ 64)
                    (fixups ++ (fixup ∷ [])) (ground arith) inside')
            ]

  page_loop-Ends :
      (pages page_index seg_starts_offset : ℕ) (seg : DyldChainedStartsInSegment)
      (imports : Imports) (fixups : List Fixup)
      → AllInside fixups
      → Ends AllInside (page_loop s c pages page_index seg_starts_offset seg imports fixups)
  unfolding page_loop
  page_loop-Ends zero page_index seg_starts_offset seg imports fixups inside = returned inside
  page_loop-Ends (suc pages) page_index seg_starts_offset seg imports fixups inside =
      Ends-bind (Ends-deserialize s.u16 c _ _) λ page_start e.
        Ends-bind
          (chain_loop-Ends (suc (length c.bytes)) seg.pointer_format imports _ fixups (omega arith)
            inside)
          λ fixups' inside'.
            page_loop-Ends pages (page_index + 1) seg_starts_offset seg imports fixups' inside'

  segment_parse-Ends :
      (starts_offset seg_offset : ℕ) (imports : Imports) (fixups : List Fixup)
      → AllInside fixups
      → Ends AllInside (segment_parse s c starts_offset seg_offset imports fixups)
  unfolding segment_parse
  segment_parse-Ends starts_offset seg_offset imports fixups inside =
      elim (Bool-cases (seg_offset == 0)) [
        | inl none_here ↦ rw none_here (returned inside)
        | inr some_here ↦ rw some_here (
            Ends-bind (Ends-deserialize s.dyld_chained_starts_in_segment c _ _)
              λ seg e. page_loop-Ends seg.page_count 0 _ seg imports fixups inside)
      ]

  segment_loop-Ends :
      (segments index starts_offset : ℕ) (imports : Imports) (fixups : List Fixup)
      → AllInside fixups
      → Ends AllInside (segment_loop s c segments index starts_offset imports fixups)
  unfolding segment_loop
  segment_loop-Ends zero index starts_offset imports fixups inside = returned inside
  segment_loop-Ends (suc segments) index starts_offset imports fixups inside =
      Ends-bind (Ends-deserialize s.u32 c _ _) λ seg_offset e.
        Ends-bind (segment_parse-Ends starts_offset seg_offset imports fixups inside)
          λ fixups' inside'.
            segment_loop-Ends segments (index + 1) starts_offset imports fixups' inside'

  header_step-Ends :
      (next_offset : ℕ) (rest : ℕ → Result (Option ℕ)) (command : Option LoadCommand)
      → ((c' : LoadCommand) → command ≡ some c' → (offset : ℕ) → Ends Anything (rest offset))
      → Ends Anything (header_step s c next_offset rest command)
  unfolding header_step
  header_step-Ends next_offset rest none k = returned tt
  header_step-Ends next_offset rest (some c') k = elim (Bool-cases (is_chained_fixups c'.cmd)) [
    | inl found ↦ rw found (returned tt)
    | inr other ↦ rw other (k c' refl (next_offset + c'.cmdsize))
  ]

  fewer_left :
      {command : Option LoadCommand} {c' : LoadCommand} {left all : ℕ}
      → (command ≡ none) ⊎ (left < all)
      → command ≡ some c'
      → left < all
  fewer_left (inl done) e = absurd (let q : none ≡ some _ = sym done ∙ e in cc)
  fewer_left (inr less) e = less

  header_loop-Ends :
      (fuel : ℕ) (it : LcIterator) (next_offset : ℕ)
      → it.remaining < fuel
      → Ends Anything (header_loop s c fuel it next_offset)
  unfolding header_loop
  header_loop-Ends zero it next_offset enough = absurd (omega arith)
  header_loop-Ends (suc fuel) it next_offset enough =
      Ends-bind (try_next-Ends s it) λ (command, it') fewer.
        header_step-Ends next_offset _ command
          λ c' e offset. header_loop-Ends fuel it' offset (omega (arith, fewer_left fewer e))

  header_at-Ends : (o : Option ℕ) → Ends Anything (header_at s c o)
  unfolding header_at
  header_at-Ends none = returned tt
  header_at-Ends (some offset) =
      Ends-bind (Ends-deserialize s.linkedit_data_command c _ _) λ linkedit e.
        Ends-bind (Ends-deserialize s.dyld_chained_fixups_header c _ _) λ header e'. returned tt

  parse_from-Ends : (o : Option (ℕ × DyldChainedFixupsHeader)) → Ends AllInside (parse_from s c o)
  unfolding parse_from
  parse_from-Ends none = returned tt
  parse_from-Ends (some (data_offset, header)) =
      Ends-bind (Ends-deserialize s.dyld_chained_starts_in_image c _ _)
        λ starts e. segment_loop-Ends starts.seg_count 0 _ _ [] tt

  pub parse_all-Ends : Ends AllInside (chained_fixups_parse_all s c)
  unfolding chained_fixups_parse_all chained_fixups_header_and_offset_find
  parse_all-Ends =
      Ends-bind
        (Ends-bind (try_with_container-Ends s c) λ it _.
          Ends-bind (header_loop-Ends (suc it.remaining) it 32 (omega arith))
            λ found _. header_at-Ends found)
        λ header _. parse_from-Ends header

  -- On an image that fits in memory, and with a deserialiser that refuses a `u64` past the end, the
  -- parser does not loop: every chain ends, be it by an error, and so does the search for the command.
  pub parse_all-ends : chained_fixups_parse_all s c ≢ out_of_fuel
  parse_all-ends = Ends-ne_out_of_fuel parse_all-Ends

  -- All eight bytes of every fixup that the parser returns lie inside the image, for an image that
  -- fits in memory and a deserialiser that refuses a `u64` past the end.
  pub parse_all-AllInside :
      (fixups : List Fixup) → chained_fixups_parse_all s c ≡ ok fixups → AllInside fixups
  parse_all-AllInside fixups h = Ends-eq-ok parse_all-Ends h
