-- ===== src/Loader/Parser/Invariant.antt =====
-- src/loader.rs: what holds of a parsed image.
use dynld.Prelude.{
  ◌⊎◌, inl, inr, ℕ, zero, suc, ◌+◌, ◌^◌, ◌≤◌, ◌<◌, ◌≡◌, refl, inl, inr, Bool, true, false, List, [],
  arith, Bool-cases, length, All, All-append, Bytes, bytes_eq, ◌>>=◌, Ends-bind, Ends-mono, Ends,
  returned, refused, ok,
}
use dynld.Container.{Container, IsBounded}
use dynld.Container.Reads.{Anything, string-Ends, Ends-deserialize}
use dynld.Scroll.{Scroll}
use dynld.Bindings.MachO.{
  LoadCommandVariants, lc_load_dylib, lc_load_weak_dylib, lc_lazy_load_dylib, lc_main, lc_symtab,
  lc_segment_64, lc_dyld_chained_fixups, lc_rpath, MachoFiletypeVariants, mh_execute, mh_dylib,
}
use dynld.Array.{FixedVec}
use dynld.Array.Holding.{Holds, new_array-Holds, push-Ends}
use dynld.Image.{Segment}
use dynld.Fixups.Parse.Bounds.{parse_all-Ends}
use dynld.Loader.Symbols.Growth.{NameFits, parse_symtab-Ends}
use dynld.Loader.Segments.Offsets.{parse_segment-Ends}
use dynld.Loader.Parser.{
  rpath_placeholder, loader_path_placeholder, executable_path_placeholder, ParsedImage, empty_image,
  rpath_of, is_dylib_of, parse_dylib_command, parse_main_command, parse_rpath, command_parse,
  commands_loop, macho_parser,
}

-- At most 64 segments and 64 libraries, all of them initialised; names that fit; fixups inside the
-- image; and no entry point in a dynamic library.
pub record WellFormed (size : ℕ) (parsed : ParsedImage) : Type 0 where
  pub segments : List Segment
  pub segments_held : Holds 64 parsed.segments segments
  pub libraries : List (Bytes × ℕ)
  pub libraries_held : Holds 64 parsed.libraries libraries
  pub names_fit : All NameFits parsed.symbols
  pub fixups_inside : All (λ fixup. fixup.offset + 8 ≤ size) parsed.fixups
  pub no_entry : (parsed.is_dylib ≡ false) ⊎ (parsed.entry_point ≡ 0)

module _ (s : Scroll) (image : Container) (u32_bounded : IsBounded s.u32 4)
    (u64_bounded : IsBounded s.u64 8) (small : length image.bytes < 2 ^ 32) where
  abbrev Parsed : ParsedImage → Type 0
  Parsed = WellFormed (length image.bytes)

  empty_image-WellFormed : (is_dylib : Bool) → Parsed (record empty_image { is_dylib = is_dylib })
  unfolding empty_image
  empty_image-WellFormed is_dylib = record {
    segments = [];
    segments_held = new_array-Holds 64 (omega arith);
    libraries = [];
    libraries_held = new_array-Holds 64 (omega arith);
    names_fit = tt;
    fixups_inside = tt;
    no_entry = inr refl;
  }

  parse_dylib_command-Ends :
      (offset : ℕ) (libraries : FixedVec (Bytes × ℕ)) (items : List (Bytes × ℕ))
      → Holds 64 libraries items
      → Ends
          (λ libraries'. (more : List (Bytes × ℕ)) × Holds 64 libraries' more)
          (parse_dylib_command s image offset libraries)
  unfolding parse_dylib_command
  parse_dylib_command-Ends offset libraries items h =
      Ends-bind (Ends-deserialize s.dylib_command image offset _) λ command _.
        Ends-bind (string-Ends image _) λ name _.
          Ends-mono (push-Ends (name, command.dylib.name.offset) h) λ libraries' h'. (_, h')

  library-Ends :
      (offset : ℕ) (parsed : ParsedImage)
      → Parsed parsed
      → Ends Parsed (
          parse_dylib_command s image offset parsed.libraries >>= λ libraries.
          ok (record parsed { libraries = libraries }))
  library-Ends offset parsed h =
      Ends-bind (parse_dylib_command-Ends offset parsed.libraries h.libraries h.libraries_held)
        λ libraries (items, held). returned (record {
          segments = h.segments;
          segments_held = h.segments_held;
          libraries = items;
          libraries_held = held;
          names_fit = h.names_fit;
          fixups_inside = h.fixups_inside;
          no_entry = h.no_entry;
        })

  parse_main_command-Ends :
      (offset : ℕ) (is_dylib : Bool)
      → Ends (λ entry. is_dylib ≡ false) (parse_main_command s image offset is_dylib)
  unfolding parse_main_command
  parse_main_command-Ends offset true = refused
  parse_main_command-Ends offset false =
      Ends-bind (Ends-deserialize s.entry_point_command image offset _) λ command _. returned refl

  rpath_of-Ends : (path : Bytes) → Ends Anything (rpath_of path)
  unfolding rpath_of
  rpath_of-Ends path = elim (Bool-cases (bytes_eq path rpath_placeholder)) [
    | inl e ↦ rw e (returned tt)
    | inr e ↦ elim (Bool-cases (bytes_eq path loader_path_placeholder)) [
      | inl e' ↦ rw (e, e') (returned tt)
      | inr e' ↦ elim (Bool-cases (bytes_eq path executable_path_placeholder)) [
        | inl e'' ↦ rw (e, e', e'') (returned tt)
        | inr e'' ↦ rw (e, e', e'') refused
      ]
    ]
  ]

  parse_rpath-Ends : (offset : ℕ) → Ends Anything (parse_rpath s image offset)
  unfolding parse_rpath
  parse_rpath-Ends offset =
      Ends-bind (Ends-deserialize s.rpath_command image offset _)
        λ command _. Ends-bind (string-Ends image _) λ path _. rpath_of-Ends path

  command_parse-Ends :
      (kind : LoadCommandVariants) (offset : ℕ) (parsed : ParsedImage)
      → Parsed parsed
      → Ends Parsed (command_parse s image kind offset parsed)
  unfolding command_parse
  command_parse-Ends lc_load_dylib offset parsed h = library-Ends offset parsed h
  command_parse-Ends lc_load_weak_dylib offset parsed h = library-Ends offset parsed h
  command_parse-Ends lc_lazy_load_dylib offset parsed h = library-Ends offset parsed h
  command_parse-Ends lc_main offset parsed h =
      Ends-bind (parse_main_command-Ends offset parsed.is_dylib) λ entry no_dylib.
        returned (record {
          segments = h.segments;
          segments_held = h.segments_held;
          libraries = h.libraries;
          libraries_held = h.libraries_held;
          names_fit = h.names_fit;
          fixups_inside = h.fixups_inside;
          no_entry = inl no_dylib;
        })
  command_parse-Ends lc_symtab offset parsed h =
      Ends-bind (parse_symtab-Ends s image offset parsed.symbols) λ table (n, grown).
        returned (record {
          segments = h.segments;
          segments_held = h.segments_held;
          libraries = h.libraries;
          libraries_held = h.libraries_held;
          names_fit =
              rw grown.table_is
                (All-append NameFits parsed.symbols grown.added h.names_fit grown.fit);
          fixups_inside = h.fixups_inside;
          no_entry = h.no_entry;
        })
  command_parse-Ends lc_segment_64 offset parsed h =
      Ends-bind
        (parse_segment-Ends s image u32_bounded small offset parsed.segments h.segments _
          h.segments_held)
        λ (segments, sections) (items, held). returned (record {
          segments = items;
          segments_held = held;
          libraries = h.libraries;
          libraries_held = h.libraries_held;
          names_fit = h.names_fit;
          fixups_inside = h.fixups_inside;
          no_entry = h.no_entry;
        })
  command_parse-Ends lc_dyld_chained_fixups offset parsed h =
      Ends-bind (parse_all-Ends s image u64_bounded (omega arith)) λ fixups inside.
        returned (record {
          segments = h.segments;
          segments_held = h.segments_held;
          libraries = h.libraries;
          libraries_held = h.libraries_held;
          names_fit = h.names_fit;
          fixups_inside = inside;
          no_entry = h.no_entry;
        })
  command_parse-Ends lc_rpath offset parsed h = Ends-bind (parse_rpath-Ends offset) λ rpath _.
      returned (record {
        segments = h.segments;
        segments_held = h.segments_held;
        libraries = h.libraries;
        libraries_held = h.libraries_held;
        names_fit = h.names_fit;
        fixups_inside = h.fixups_inside;
        no_entry = h.no_entry;
      })
  command_parse-Ends _ offset parsed h = returned h

  commands_loop-Ends :
      (ncmds offset : ℕ) (parsed : ParsedImage)
      → Parsed parsed
      → Ends Parsed (commands_loop s image ncmds offset parsed)
  unfolding commands_loop
  commands_loop-Ends zero offset parsed h = returned h
  commands_loop-Ends (suc ncmds) offset parsed h =
      Ends-bind (Ends-deserialize s.load_command image offset _) λ command _.
        Ends-bind (command_parse-Ends command.cmd offset parsed h)
          λ parsed' h'. commands_loop-Ends ncmds (offset + command.cmdsize) parsed' h'

  is_dylib_of-Ends : (filetype : MachoFiletypeVariants) → Ends Anything (is_dylib_of filetype)
  unfolding is_dylib_of
  is_dylib_of-Ends mh_execute = returned tt
  is_dylib_of-Ends mh_dylib = returned tt
  is_dylib_of-Ends _ = refused

  -- On an image of less than 4 GiB, and with deserialisers that refuse a number past its end, the pass
  -- over the load commands does not loop, and what it returns is well formed: at most 64 segments and 64
  -- libraries, every cell of the two vectors in use initialised, symbol names of at most 128 bytes,
  -- fixups that lie inside the image, and no entry point in a dynamic library.
  pub macho_parser-Ends : Ends (WellFormed (length image.bytes)) (macho_parser s image)
  unfolding macho_parser
  macho_parser-Ends = Ends-bind (Ends-deserialize s.mach_header_64 image 0 _) λ header _.
      Ends-bind (is_dylib_of-Ends header.filetype)
        λ is_dylib _. commands_loop-Ends header.ncmds 32 _ (empty_image-WellFormed is_dylib)
