-- ===== src/Entrypoint/Slices.antt =====
-- src/entrypoint.rs: `arm64_container_create` ends in an arm64 image.
use mathlib.Core.Path.{subst}
use dynld.Prelude.{
  ℕ, zero, suc, ◌+◌, ◌*◌, ◌≡◌, refl, ◌⊎◌, inl, inr, true, Option, none, some, Bool-cases,
  Option-cases, some_injective, Bytes, Ends-bind, Ends-unwrap, Ends, returned, refused, ok,
}
use dynld.Container.{Container, with_bytes, slice}
use dynld.Scroll.{Scroll}
use dynld.Bindings.MachO.{MachMagic, MachHeader64, FatArch}
use dynld.Loader.Parser.{macho_endian_from_magic}
use dynld.Entrypoint.{
  is_arm64, is_fat_magic, is_arm64_header, is_arm64_image, arch_container, arch_find,
  arm64_container_create,
}

module _ (s : Scroll) (magic_of : Bytes → MachMagic) (image : Container) where
  -- The image itself, or the bytes of one of its ranges.
  abbrev pub IsPart : Container → Type 0
  IsPart c = (c ≡ image) ⊎ ((offset : ℕ) × (size : ℕ) × (slice image offset size ≡ some c.bytes))

  arch_container-IsPart :
      (arch : Option FatArch) (c : Container)
      → arch_container s magic_of image arch ≡ some c
      → IsPart c
  unfolding arch_container with_bytes
  arch_container-IsPart none c h = absurd (let q : none ≡ some c = h in cc)
  arch_container-IsPart (some arch) c h = elim (Option-cases (slice image arch.offset arch.size)) [
    | inl e ↦ absurd (let q = rw (arch_container, e) at h in cc)
    | inr (bytes, e) ↦
        let made : some (with_bytes bytes (macho_endian_from_magic (magic_of bytes))) ≡ some c =
          rw (arch_container, e) at h in
        subst IsPart (some_injective made) (inr (arch.offset, arch.size, e))
  ]

  arch_find-arm64 :
      (count index : ℕ) (c : Container)
      → arch_find s magic_of count index image ≡ some c
      → (is_arm64_image s magic_of c ≡ true) × IsPart c
  unfolding arch_find arch_container with_bytes
  arch_find-arm64 zero index c h = absurd (let q : none ≡ some c = h in cc)
  arch_find-arm64 (suc count) index c h =
      let entry =
        arch_container s magic_of image
          (s.fat_arch.pread_with image.bytes (8 + index * 20) image.endian) in
      elim (Option-cases entry) [
        | inl e ↦ arch_find-arm64 count (index + 1) c (rw (arch_find, e) at h)
        | inr (c', e) ↦ elim (Bool-cases (is_arm64_image s magic_of c')) [
          | inl found ↦
              let same : some c' ≡ some c = rw (arch_find, e, found) at h in
              subst (λ c. (is_arm64_image s magic_of c ≡ true) × IsPart c) (some_injective same)
                (found, arch_container-IsPart _ c' e)
          | inr other ↦ arch_find-arm64 count (index + 1) c (rw (arch_find, e, other) at h)
        ]
      ]

  arm64-unwraps :
      (c : Container)
      → is_arm64_image s magic_of c ≡ true
      → (header : MachHeader64) × (s.mach_header_64.pread_with c.bytes 0 c.endian ≡ some header)
        × (is_arm64 header ≡ true)
  unfolding is_arm64_image is_arm64_header
  arm64-unwraps c h = elim (Option-cases (s.mach_header_64.pread_with c.bytes 0 c.endian)) [
    | inl e ↦ absurd (let q = rw e at h in cc)
    | inr (header, e) ↦ (header, e, rw e at h)
  ]

  arm64-create :
      (fuel : ℕ) (c : Container)
      → is_arm64_image s magic_of c ≡ true
      → arm64_container_create s magic_of (suc fuel) c ≡ ok c
  unfolding arm64_container_create
  arm64-create fuel c h = let (header, e, arm64) = arm64-unwraps c h in rw (e, arm64) refl

  thin_image :
      (header : MachHeader64)
      → s.mach_header_64.pread_with image.bytes 0 image.endian ≡ some header
      → is_arm64 header ≡ true
      → is_arm64_image s magic_of image ≡ true
  unfolding is_arm64_image is_arm64_header
  thin_image header e thin = rw (is_arm64_image, is_arm64_header, e) thin

  -- The search for an arm64 image ends, and what it returns has the magic number and the CPU type of a
  -- 64-bit arm64 image, and is the image itself or a range of its bytes. A fuel of 2 is enough, since the
  -- slice that is chosen is no fat image.
  pub arm64_container_create-Ends :
      (fuel : ℕ)
      → Ends
          (λ c. (is_arm64_image s magic_of c ≡ true) × IsPart c)
          (arm64_container_create s magic_of (suc (suc fuel)) image)
  unfolding arm64_container_create
  arm64_container_create-Ends fuel =
      Ends-bind (Ends-unwrap (s.mach_header_64.pread_with image.bytes 0 image.endian)) λ header e.
        elim (Bool-cases (is_arm64 header)) [
          | inl thin ↦ rw thin (returned (thin_image header e thin, inl refl))
          | inr other ↦ elim (Bool-cases (is_fat_magic header.magic)) [
            | inl fat_one ↦
                rw (other, fat_one)
                  (Ends-bind (Ends-unwrap (s.fat_header.pread_with image.bytes 0 image.endian))
                    λ fat _. elim (Option-cases (arch_find s magic_of fat.nfat_arch 0 image)) [
                      | inl e' ↦ rw e' refused
                      | inr (c, e') ↦
                          let (arm64, part) = arch_find-arm64 fat.nfat_arch 0 c e' in
                          rw (e', arm64-create fuel c arm64) (returned (arm64, part))
                    ])
            | inr neither ↦ rw (other, neither) refused
          ]
        ]
