-- ===== src/Bindings/ChainedPtr/Layout.antt =====
-- The bit fields against the documented layouts of the pointer formats.
use dynld.Prelude.{
  ℕ, ◌+◌, ◌*◌, ◌/◌, ◌^◌, ◌<◌, ◌≡◌, arith, ◌==◌, bit_and_mask, bit_and_one_bit, bit_and_shift,
}
use dynld.Bindings.ChainedPtr.{
  arm64e_rebase_target, arm64e_rebase_high8, arm64e_rebase_next, ptr_64_rebase_target,
  ptr_64_rebase_high8, ptr_64_rebase_next, import_lib_ordinal, import_weak_import,
  import_name_offset,
}

-- Bits 0 to 42, 43 to 50, 51 to 61 and the two flags on top.
abbrev pub pack_arm64e : (target high8 next flags : ℕ) → ℕ
pack_arm64e target high8 next flags = target + high8 * 2 ^ 43 + next * 2 ^ 51 + flags * 2 ^ 62

-- An unauthenticated arm64e rebase gives back the target, the high byte and the distance to the next
-- pointer that were packed at its documented bit positions, whatever the two flag bits are.
pub arm64e_rebase-pack :
    (target high8 next flags : ℕ)
    → target < 2 ^ 43
    → high8 < 2 ^ 8
    → next < 2 ^ 11
    → (arm64e_rebase_target (pack_arm64e target high8 next flags) ≡ target)
      × (arm64e_rebase_high8 (pack_arm64e target high8 next flags) ≡ high8)
      × (arm64e_rebase_next (pack_arm64e target high8 next flags) ≡ next)
unfolding arm64e_rebase_target arm64e_rebase_high8 arm64e_rebase_next
arm64e_rebase-pack target high8 next flags ht hh hn =
    let x = pack_arm64e target high8 next flags in
    omega (arith, bit_and_mask 43 x, bit_and_mask 8 (x / 2 ^ 43), bit_and_mask 11 (x / 2 ^ 51))

-- Bits 0 to 35, 36 to 43, seven reserved bits, 51 to 62 and the bind flag.
abbrev pub pack_64 : (target high8 reserved next flag : ℕ) → ℕ
pack_64 target high8 reserved next flag =
    target + high8 * 2 ^ 36 + reserved * 2 ^ 44 + next * 2 ^ 51 + flag * 2 ^ 63

-- A DYLD_CHAINED_PTR_64 rebase gives back the target, the high byte and the distance to the next
-- pointer that were packed at its documented bit positions, whatever the reserved and flag bits are.
pub ptr_64_rebase-pack :
    (target high8 reserved next flag : ℕ)
    → target < 2 ^ 36
    → high8 < 2 ^ 8
    → reserved < 2 ^ 7
    → next < 2 ^ 12
    → (ptr_64_rebase_target (pack_64 target high8 reserved next flag) ≡ target)
      × (ptr_64_rebase_high8 (pack_64 target high8 reserved next flag) ≡ high8)
      × (ptr_64_rebase_next (pack_64 target high8 reserved next flag) ≡ next)
unfolding ptr_64_rebase_target ptr_64_rebase_high8 ptr_64_rebase_next
ptr_64_rebase-pack target high8 reserved next flag ht hh hr hn =
    let x = pack_64 target high8 reserved next flag in
    omega (arith, bit_and_mask 36 x, bit_and_mask 8 (x / 2 ^ 36), bit_and_mask 12 (x / 2 ^ 51))

-- Bits 0 to 7, 8 and 9 to 31 of a chained import.
abbrev pub pack_import : (lib_ordinal weak name_offset : ℕ) → ℕ
pack_import lib_ordinal weak name_offset = lib_ordinal + weak * 2 ^ 8 + name_offset * 2 ^ 9

-- A chained import gives back the library ordinal, the weak flag and the name offset that were
-- packed at their documented bit positions.
pub import-pack :
    (lib_ordinal weak name_offset : ℕ)
    → lib_ordinal < 2 ^ 8
    → weak < 2
    → name_offset < 2 ^ 23
    → (import_lib_ordinal (pack_import lib_ordinal weak name_offset) ≡ lib_ordinal)
      × (import_weak_import (pack_import lib_ordinal weak name_offset) ≡ (weak == 1))
      × (import_name_offset (pack_import lib_ordinal weak name_offset) ≡ name_offset)
unfolding import_lib_ordinal import_weak_import import_name_offset
import-pack lib_ordinal weak name_offset hl hw hn =
    let x = pack_import lib_ordinal weak name_offset in
    ground (
      arith,
      bit_and_mask 8 x,
      bit_and_one_bit 8 x,
      bit_and_shift 9 x 0xFFFF_FE00,
      bit_and_mask 23 (x / 2 ^ 9),
    )
