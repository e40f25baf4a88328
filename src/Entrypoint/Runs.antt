-- ===== src/Entrypoint/Runs.antt =====
-- A fat image with one slice, the linker's own image, and the theorems at them.
use mathlib.Core.Option
use dynld.Prelude.{
  ℕ, ◌/◌, ◌%◌, ◌^◌, ◌≡◌, refl, true, false, Option, none, some, [], ◌∷◌, ◌++◌, ◌==◌, if◌then◌else◌,
  replicate, Bytes, ◌>>=◌, Ends, ok,
}
use dynld.Container.{Container, little, slice, with_bytes, is_utf8}
use dynld.Scroll.{Scroll}
use dynld.Scroll.Sample.{sample, read_le, le_bytes}
use dynld.Scroll.Images.{fixups_image}
use dynld.Bindings.MachO.{
  MachMagic, mh_magic_64, fat_magic, mh_dylib, MachHeader64, FatHeader, FatArch,
}
use dynld.Fixups.{fixup_bind, fixup_rebase}
use dynld.Fixups.Parse.{chained_fixups_parse_all}
use dynld.Fixups.Apply.{Memory, SymbolResolve}
use dynld.Loader.Parser.{macho_endian_from_magic}
use dynld.Entrypoint.{
  rfind_slash, dir_of, argv0, exe_dir, is_arm64_image, arch_find, arm64_container_create, binds_of,
  tls_functions_self_bind_hack, rebase_self_and_extract_bind_fixups,
}
use dynld.Entrypoint.Slices.{IsPart, arm64_container_create-Ends}
use dynld.Entrypoint.SelfBind.{libsystem_fixups, rebases, self_relocation-passes}

abbrev magic_of_number : ℕ → MachMagic
magic_of_number n = if n == 0xFEED_FACF then mh_magic_64 else fat_magic

abbrev magic_of : Bytes → MachMagic
magic_of bytes = elim (read_le 4 bytes 0) [ none ↦ fat_magic | some n ↦ magic_of_number n ]

abbrev header_at : Bytes → ℕ → Option MachHeader64
header_at bytes o =
    Option.map
      (λ v. record {
        magic = magic_of_number (v % 2 ^ 32);
        cputype = v / 2 ^ 32 % 2 ^ 32;
        cpusubtype = 0;
        filetype = mh_dylib;
        ncmds = 0;
        sizeofcmds = 0;
        flags = 0;
        reserved = 0;
      })
      (read_le 32 bytes o)

abbrev fat_header_at : Bytes → ℕ → Option FatHeader
fat_header_at bytes o =
    Option.map (λ v. record { magic = fat_magic; nfat_arch = v / 2 ^ 32 }) (read_le 8 bytes o)

abbrev fat_arch_at : Bytes → ℕ → Option FatArch
fat_arch_at bytes o =
    Option.map
      (λ v. record {
        cputype = v % 2 ^ 32;
        cpusubtype = 0;
        offset = v / 2 ^ 64 % 2 ^ 32;
        size = v / 2 ^ 96 % 2 ^ 32;
        align = 0;
      })
      (read_le 20 bytes o)

abbrev scroll : Scroll
scroll = record sample {
  mach_header_64 = record { pread_with = λ bytes offset e. header_at bytes offset };
  fat_header = record { pread_with = λ bytes offset e. fat_header_at bytes offset };
  fat_arch = record { pread_with = λ bytes offset e. fat_arch_at bytes offset };
}

abbrev thin_bytes : Bytes
thin_bytes = le_bytes 4 0xFEED_FACF ++ le_bytes 4 0x0100_000C ++ replicate 24 0

-- Two entries: the first one lies past the image.
abbrev fat_image : Container
fat_image = record {
  bytes =
      replicate 4 0
      ++ le_bytes 4 2
      ++ replicate 8 0
      ++ le_bytes 4 48
      ++ le_bytes 4 1000
      ++ replicate 12 0
      ++ le_bytes 4 48
      ++ le_bytes 4 32
      ++ replicate 4 0
      ++ thin_bytes;
  endian = little;
}

abbrev thin_image : Container
thin_image = record { bytes = thin_bytes; endian = little }

finds : arm64_container_create scroll magic_of 2 fat_image ≡ ok thin_image
unfolding arm64_container_create arch_find is_arm64_image slice with_bytes macho_endian_from_magic
finds = refl

arm64_container_create-Ends_example :
    Ends
      (λ c. (is_arm64_image scroll magic_of c ≡ true) × IsPart scroll magic_of fat_image c)
      (arm64_container_create scroll magic_of 2 fat_image)
arm64_container_create-Ends_example = arm64_container_create-Ends scroll magic_of fat_image 0

abbrev resolve : SymbolResolve
resolve path name = ok (some 0x7000)

abbrev memory : Memory
memory a = 0

self_relocation-passes_example :
    (rebase_self_and_extract_bind_fixups sample 0x1000 fixups_image memory >>= λ (binds, memory').
    tls_functions_self_bind_hack sample 0x1000 resolve binds memory')
    ≡ (chained_fixups_parse_all sample fixups_image >>= λ fixups.
        libsystem_fixups 0x1000 resolve (binds_of fixups) (rebases 0x1000 fixups memory))
self_relocation-passes_example = self_relocation-passes sample 0x1000 resolve fixups_image memory

only_binds :
    binds_of (fixup_rebase 8 0x10 ∷ fixup_bind 16 (b'_' ∷ []) 5 0 false ∷ [])
    ≡ fixup_bind 16 (b'_' ∷ []) 5 0 false ∷ []
unfolding binds_of
only_binds = refl

-- "/bin/ls", "/ls" and "ls"
in_bin :
    dir_of (b'/' ∷ b'b' ∷ b'i' ∷ b'n' ∷ b'/' ∷ b'l' ∷ b's' ∷ []) ≡ b'/' ∷ b'b' ∷ b'i' ∷ b'n' ∷ []
unfolding dir_of rfind_slash
in_bin = refl

in_root : dir_of (b'/' ∷ b'l' ∷ b's' ∷ []) ≡ b'/' ∷ []
unfolding dir_of rfind_slash
in_root = refl

-- `argv[0]` is "/a" at address 4.
abbrev strings : Memory
strings a = if a == 4 then b'/' else if a == 5 then b'a' else 0

reads_dir : exe_dir 8 strings 4 ≡ ok (b'/' ∷ [])
unfolding exe_dir argv0 is_utf8 dir_of rfind_slash
reads_dir = refl
