-- ===== src/Scroll/Images.antt =====
-- Images to test with, and deserialisers for the structures that the loader reads.
use mathlib.Core.Option
use dynld.Prelude.{
  ℕ, ◌+◌, ◌/◌, ◌%◌, ◌^◌, Option, [], ◌∷◌, ◌++◌, ◌==◌, if◌then◌else◌, take, drop, replicate, Bytes,
}
use dynld.Container.{Container, IsBounded}
use dynld.Scroll.{Scroll}
use dynld.Scroll.Sample.{sample, number-IsBounded, read_le, le_bytes, image_of}
use dynld.Bindings.ChainedPtr.Layout.{pack_64}
use dynld.Bindings.MachO.{
  LoadCommandVariants, lc_symtab, lc_load_dylib, lc_segment_64, lc_dyld_chained_fixups, lc_uuid,
  LoadCommand, SegmentCommand64, Section64, DylibCommand, SymtabCommand, Nlist64,
}

-- One chain of two rebases.
-- The command, the header of the fixups at 48, the starts at 76 and 84, and the pointers at 108.
abbrev pub fixups_image : Container
fixups_image = image_of 1 (
    le_bytes 4 0x8000_0034
    ++ le_bytes 4 16
    ++ le_bytes 4 48
    ++ le_bytes 4 76
    ++ le_bytes 4 0
    ++ le_bytes 4 28
    ++ replicate 20 0
    ++ le_bytes 4 1
    ++ le_bytes 4 8
    ++ le_bytes 4 24
    ++ le_bytes 2 0x4000
    ++ le_bytes 2 2
    ++ replicate 12 0
    ++ le_bytes 2 1
    ++ le_bytes 2 108
    ++ le_bytes 8 (pack_64 0x10 0 0 2 0)
    ++ le_bytes 8 (pack_64 0x20 0 0 0 0))

abbrev loader_command_of : ℕ → LoadCommandVariants
loader_command_of n =
    if n == 0x2
    then lc_symtab
    else if n == 0xC
    then lc_load_dylib
    else if n == 0x19
    then lc_segment_64
    else if n == 0x8000_0034
    then lc_dyld_chained_fixups
    else lc_uuid

abbrev loader_command_at : Bytes → ℕ → Option LoadCommand
loader_command_at bytes o =
    Option.map (λ v. record { cmd = loader_command_of (v % 2 ^ 32); cmdsize = v / 2 ^ 32 })
      (read_le 8 bytes o)

-- The bytes of a field.
abbrev field : (value start size : ℕ) → ℕ
field value start size = value / 256 ^ start % 256 ^ size

abbrev loader_segment_at : Bytes → ℕ → Option SegmentCommand64
loader_segment_at bytes o =
    Option.map
      (λ v. record {
        cmd = lc_segment_64;
        cmdsize = field v 4 4;
        segname = take 16 (drop (o + 8) bytes);
        vmaddr = field v 24 8;
        vmsize = field v 32 8;
        fileoff = field v 40 8;
        filesize = field v 48 8;
        maxprot = field v 56 4;
        initprot = field v 60 4;
        nsects = field v 64 4;
        flags = field v 68 4;
      })
      (read_le 72 bytes o)

abbrev section_at : Bytes → ℕ → Option Section64
section_at bytes o =
    Option.map
      (λ v. record {
        sectname = take 16 (drop o bytes);
        segname = take 16 (drop (o + 16) bytes);
        addr = field v 32 8;
        size = field v 40 8;
        offset = field v 48 4;
        align = field v 52 4;
        reloff = field v 56 4;
        nreloc = field v 60 4;
        flags = field v 64 4;
        reserved1 = 0;
        reserved2 = 0;
        reserved3 = 0;
      })
      (read_le 80 bytes o)

abbrev dylib_at : Bytes → ℕ → Option DylibCommand
dylib_at bytes o =
    Option.map
      (λ v. record {
        cmd = lc_load_dylib;
        cmdsize = field v 4 4;
        dylib = record {
          name = record { offset = field v 8 4 };
          timestamp = 0;
          current_version = 0;
          compatibility_version = 0;
        };
      })
      (read_le 24 bytes o)

abbrev symtab_at : Bytes → ℕ → Option SymtabCommand
symtab_at bytes o =
    Option.map
      (λ v. record {
        cmd = lc_symtab;
        cmdsize = field v 4 4;
        symoff = field v 8 4;
        nsyms = field v 12 4;
        stroff = field v 16 4;
        strsize = field v 20 4;
      })
      (read_le 24 bytes o)

abbrev nlist_at : Bytes → ℕ → Option Nlist64
nlist_at bytes o =
    Option.map
      (λ v. record {
        n_un = record { n_strx = field v 0 4 };
        n_type = field v 4 1;
        n_sect = field v 5 1;
        n_desc = field v 6 2;
        n_value = field v 8 8;
      })
      (read_le 16 bytes o)

-- The deserialisers with those of the loader.
abbrev pub loader_scroll : Scroll
loader_scroll = record sample {
  load_command = record { pread_with = λ bytes offset e. loader_command_at bytes offset };
  segment_command_64 = record { pread_with = λ bytes offset e. loader_segment_at bytes offset };
  section_64 = record { pread_with = λ bytes offset e. section_at bytes offset };
  dylib_command = record { pread_with = λ bytes offset e. dylib_at bytes offset };
  symtab_command = record { pread_with = λ bytes offset e. symtab_at bytes offset };
  nlist_64 = record { pread_with = λ bytes offset e. nlist_at bytes offset };
}

pub loader_scroll-u32 : IsBounded loader_scroll.u32 4
loader_scroll-u32 = number-IsBounded 4

pub loader_scroll-u64 : IsBounded loader_scroll.u64 8
loader_scroll-u64 = number-IsBounded 8

-- A dynamic library: the text segment with a section of two initialisers, a dependency `_a`, and a
-- symbol `_f`. The commands are at 32, 184 and 216, the symbol at 240, the initialisers at 256.
abbrev pub loader_image : Container
loader_image = image_of 3 (
    le_bytes 4 0x19
    ++ le_bytes 4 152
    ++ (b'_' ∷ b'_' ∷ b'T' ∷ b'E' ∷ b'X' ∷ b'T' ∷ [])
    ++ replicate 10 0
    ++ le_bytes 8 0
    ++ le_bytes 8 0x4000
    ++ replicate 16 0
    ++ le_bytes 4 5
    ++ le_bytes 4 5
    ++ le_bytes 4 1
    ++ le_bytes 4 0
    ++ replicate 40 0
    ++ le_bytes 8 8
    ++ le_bytes 4 256
    ++ replicate 12 0
    ++ le_bytes 4 0x16
    ++ replicate 12 0
    ++ le_bytes 4 0xC
    ++ le_bytes 4 32
    ++ le_bytes 4 24
    ++ replicate 12 0
    ++ (b'_' ∷ b'a' ∷ 0 ∷ [])
    ++ replicate 5 0
    ++ le_bytes 4 0x2
    ++ le_bytes 4 24
    ++ le_bytes 4 240
    ++ le_bytes 4 1
    ++ le_bytes 4 264
    ++ le_bytes 4 4
    ++ le_bytes 4 1
    ++ (0x0F ∷ 1 ∷ 0 ∷ 0 ∷ [])
    ++ le_bytes 8 0x100
    ++ le_bytes 4 0x10
    ++ le_bytes 4 0x20
    ++ (0 ∷ b'_' ∷ b'f' ∷ 0 ∷ []))
