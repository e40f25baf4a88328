-- ===== src/Fixups/Parse.antt =====
-- src/fixups.rs: `chained_fixups_header_and_offset_find` and `chained_fixups_parse_all`.
pub mod Decoders
pub mod Bounds
use dynld.Prelude.{
  ℕ, zero, suc, ◌+◌, ◌*◌, ◌%◌, ◌^◌, Bool, true, false, not, Option, none, some, List, [], ◌∷◌, ◌++◌,
  ◌==◌, if◌then◌else◌, length, ◌>>=◌, ◌>>◌, Result, map_err, ok, panic, out_of_fuel,
}
use dynld.Container.{Container, deserialize_type_at_offset}
use dynld.Scroll.{Scroll}
use dynld.Bindings.MachO.{LoadCommand, LoadCommandVariants, lc_dyld_chained_fixups}
use dynld.Bindings.Chained.{
  DyldChainedFixupsHeader, DyldChainedStartsInSegment, DyldChainedPtrFormatVariants,
  dyld_chained_ptr_64, dyld_chained_ptr_64_offset, dyld_chained_ptr_arm64e,
  dyld_chained_ptr_arm64e_userland, dyld_chained_ptr_arm64e_userland24,
}
use dynld.Image.{LcIterator, try_with_container, try_next}
use dynld.Fixups.{
  Fixup, Imports, fixup_64_parse_one, fixup_arm64e_parse_one, fixup_arm64e_userland24_parse_one,
}

-- PAGE_STARTS_OFFSET
abbrev pub page_starts_offset : ℕ
page_starts_offset = 22

unfoldable pub is_chained_fixups : LoadCommandVariants → Bool
is_chained_fixups lc_dyld_chained_fixups = true
is_chained_fixups _ = false

module _ (s : Scroll) (container : Container) where
  -- What the search does with the next command; `rest` goes on from an offset.
  header_step : ℕ → (ℕ → Result (Option ℕ)) → Option LoadCommand → Result (Option ℕ)
  header_step next_offset rest none = ok none
  header_step next_offset rest (some command) =
      if is_chained_fixups command.cmd
      then ok (some next_offset)
      else rest (next_offset + command.cmdsize)

  -- The offset of the command that is looked for, if there is one.
  header_loop : ℕ → LcIterator → ℕ → Result (Option ℕ)
  unfolding header_step
  header_loop zero it next_offset = out_of_fuel
  header_loop (suc fuel) it next_offset = do
    (command, it') ← try_next s it
    header_step next_offset (header_loop fuel it') command

  header_at : Option ℕ → Result (Option (ℕ × DyldChainedFixupsHeader))
  header_at none = ok none
  header_at (some offset) = do
    linkedit ←
        map_err (deserialize_type_at_offset ⦃p = s.linkedit_data_command⦄ container offset)
          "error: could not find `linkedit_data_command`"
    header ←
        map_err
          (deserialize_type_at_offset ⦃p = s.dyld_chained_fixups_header⦄ container linkedit.dataoff)
          "error: could not find `dyld_chained_fixups_header`"
    ok (some (linkedit.dataoff, header))

  unfoldable pub chained_fixups_header_and_offset_find :
      Result (Option (ℕ × DyldChainedFixupsHeader))
  unfolding header_loop header_at header_step
  chained_fixups_header_and_offset_find = do
    it ← try_with_container s container
    found ← header_loop (suc it.remaining) it 32
    header_at found

  -- The decoder of a pointer format; the others are `unimplemented!`.
  unfoldable pub fixup_parse_one :
      DyldChainedPtrFormatVariants → ℕ → ℕ → Imports → Result (ℕ × Fixup)
  fixup_parse_one dyld_chained_ptr_64 = fixup_64_parse_one s container
  fixup_parse_one dyld_chained_ptr_64_offset = fixup_64_parse_one s container
  fixup_parse_one dyld_chained_ptr_arm64e = fixup_arm64e_parse_one s container
  fixup_parse_one dyld_chained_ptr_arm64e_userland = fixup_arm64e_parse_one s container
  fixup_parse_one dyld_chained_ptr_arm64e_userland24 = fixup_arm64e_userland24_parse_one s container
  fixup_parse_one _ = λ value offset imports. panic

  -- One chain, from `chain_offset` to the pointer whose distance is 0.
  unfoldable pub chain_loop :
      ℕ → DyldChainedPtrFormatVariants → Imports → ℕ → List Fixup → Result (List Fixup)
  chain_loop zero format imports chain_offset fixups = out_of_fuel
  chain_loop (suc fuel) format imports chain_offset fixups = do
    fixup_value ←
        map_err (deserialize_type_at_offset ⦃p = s.u64⦄ container chain_offset)
          "error: could read the fixup value from a chain_offset"
    (next_offset, fixup) ← fixup_parse_one format fixup_value chain_offset imports
    if next_offset == 0
        then ok (fixups ++ (fixup ∷ []))
        else chain_loop fuel format imports ((chain_offset + next_offset) % 2 ^ 64)
            (fixups ++ (fixup ∷ []))

  -- A chain moves on by a byte at least, so it has at most as many pointers as the image has bytes.
  abbrev pub chain_fuel : ℕ
  chain_fuel = suc (length container.bytes)

  -- `pages` pages of a segment are left, the next of them `page_index`.
  page_loop : ℕ → ℕ → ℕ → DyldChainedStartsInSegment → Imports → List Fixup → Result (List Fixup)
  page_loop zero page_index seg_starts_offset seg imports fixups = ok fixups
  page_loop (suc pages) page_index seg_starts_offset seg imports fixups = do
    page_start ←
        map_err
          (deserialize_type_at_offset ⦃p = s.u16⦄ container
            ((seg_starts_offset + page_starts_offset) % 2 ^ 32 + page_index * 2))
          "error: could not read the page starts array"
    let chain_offset = (seg.segment_offset + page_index * seg.page_size + page_start) % 2 ^ 64
    fixups' ← chain_loop chain_fuel seg.pointer_format imports chain_offset fixups
    page_loop pages (page_index + 1) seg_starts_offset seg imports fixups'

  -- One segment; an offset of 0 stands for a segment with no fixups.
  segment_parse : ℕ → ℕ → Imports → List Fixup → Result (List Fixup)
  segment_parse starts_offset seg_offset imports fixups = if seg_offset == 0 then ok fixups else do
    let seg_starts_offset = (starts_offset + seg_offset) % 2 ^ 32
    seg ←
        map_err
          (deserialize_type_at_offset ⦃p = s.dyld_chained_starts_in_segment⦄ container
            seg_starts_offset)
          "error: could not read `dyld_chained_starts_in_segment` from a segment offset"
    page_loop seg.page_count 0 seg_starts_offset seg imports fixups

  -- `segments` segments are left, the next of them `seg_offset_index`.
  segment_loop : ℕ → ℕ → ℕ → Imports → List Fixup → Result (List Fixup)
  segment_loop zero seg_offset_index starts_offset imports fixups = ok fixups
  segment_loop (suc segments) seg_offset_index starts_offset imports fixups = do
    seg_offset ←
        map_err
          (deserialize_type_at_offset ⦃p = s.u32⦄ container
            (starts_offset + 4 + seg_offset_index * 4))
          "error: could not find `dyld_chained_starts_in_image`"
    fixups' ← segment_parse starts_offset seg_offset imports fixups
    segment_loop segments (seg_offset_index + 1) starts_offset imports fixups'

  parse_from : Option (ℕ × DyldChainedFixupsHeader) → Result (List Fixup)
  parse_from none = ok []
  parse_from (some (fixup_data_offset, header)) = do
    let starts_offset = (fixup_data_offset + header.starts_offset) % 2 ^ 32
    starts ←
        map_err
          (deserialize_type_at_offset ⦃p = s.dyld_chained_starts_in_image⦄ container starts_offset)
          "error: could not find `dyld_chained_starts_in_image`"
    let imports : Imports = record {
      format = header.imports_format;
      imports_offset = (fixup_data_offset + header.imports_offset) % 2 ^ 32;
      symbols_offset = (fixup_data_offset + header.symbols_offset) % 2 ^ 32;
    }
    segment_loop starts.seg_count 0 starts_offset imports []

  unfoldable pub chained_fixups_parse_all : Result (List Fixup)
  unfolding parse_from segment_loop segment_parse page_loop
  chained_fixups_parse_all = chained_fixups_header_and_offset_find >>= parse_from
