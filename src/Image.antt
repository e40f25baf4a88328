-- ===== src/Image.antt =====
-- src/image.rs: segments, symbols and the load command iterator.
use dynld.Prelude.{
  ◌>>=◌, ℕ, ◌+◌, ◌-◌, Bool, true, false, Option, none, some, ◌==◌, if◌then◌else◌, Bytes, bytes_eq,
  Result, map_err, ok,
}
use dynld.Container.{Container, deserialize_type_at_offset}
use dynld.Scroll.{Scroll}
use dynld.Bindings.MachO.{LoadCommand}

abbrev pub symbol_name_len : ℕ
symbol_name_len = 128

-- SELF_LIBRARY_ORDINAL
abbrev pub self_library_ordinal : ℕ
self_library_ordinal = 0

pub record Segment : Type 0 where
  pub file_offset : ℕ
  pub vm_addr : ℕ
  pub vm_size : ℕ
  pub prot : ℕ

-- A name is the contents of its `ArrayString`.
pub record Symbol : Type 0 where
  pub lib_ordinal : ℕ
  pub name : Bytes
  pub impl_offset : ℕ
  pub sect_num : ℕ
  pub value : ℕ
  pub is_weak : Bool
  pub is_thumb : Bool
  pub is_cold : Bool

unfoldable pub make_undefined : Bytes → ℕ → Bool → Symbol
make_undefined name lib_ordinal is_weak = record {
  lib_ordinal = lib_ordinal;
  name = name;
  impl_offset = 0;
  sect_num = 0;
  value = 0;
  is_weak = is_weak;
  is_thumb = false;
  is_cold = false;
}

unfoldable pub make_regular_local : Bytes → ℕ → ℕ → Bool → Bool → Symbol
make_regular_local name image_offset sect_num is_cold is_thumb = record {
  lib_ordinal = self_library_ordinal;
  name = name;
  impl_offset = image_offset;
  sect_num = sect_num;
  value = 0;
  is_weak = false;
  is_thumb = is_thumb;
  is_cold = is_cold;
}

unfoldable pub make_regular_export : Bytes → ℕ → ℕ → Bool → Bool → Symbol
make_regular_export name image_offset sect_num is_cold is_thumb = record {
  lib_ordinal = self_library_ordinal;
  name = name;
  impl_offset = image_offset;
  sect_num = sect_num;
  value = 0;
  is_weak = false;
  is_thumb = is_thumb;
  is_cold = is_cold;
}

unfoldable pub make_weak_def_export : Bytes → ℕ → ℕ → Bool → Bool → Symbol
make_weak_def_export name image_offset sect_num is_cold is_thumb = record {
  lib_ordinal = self_library_ordinal;
  name = name;
  impl_offset = image_offset;
  sect_num = sect_num;
  value = 0;
  is_weak = true;
  is_thumb = is_thumb;
  is_cold = is_cold;
}

unfoldable pub array_string_cmp : Symbol → Bytes → Bool
array_string_cmp symbol array_string = bytes_eq symbol.name array_string

-- `offset` is where the next command stands, `remaining` how many are left.
pub record LcIterator : Type 0 where
  pub container : Container
  pub offset : ℕ
  pub remaining : ℕ

module _ (s : Scroll) where
  unfoldable pub try_with_container : Container → Result LcIterator
  try_with_container container = do
    header ←
        map_err (deserialize_type_at_offset ⦃p = s.mach_header_64⦄ container 0)
          "error: could not create load command iterator for container"
    ok (record { container = container; offset = 32; remaining = header.ncmds })

  unfoldable pub try_next : LcIterator → Result (Option LoadCommand × LcIterator)
  try_next it = if it.remaining == 0 then ok (none, it) else do
    command ←
        map_err (deserialize_type_at_offset ⦃p = s.load_command⦄ it.container it.offset)
          "error: could not iterate over load commands"
    ok (
      some command,
      record it { offset = it.offset + command.cmdsize; remaining = it.remaining - 1 },
    )
