-- ===== src/Bindings/ChainedPtr.antt =====
-- src/bindings_macho.rs: the bit fields of chained pointers and imports. `x >> k` is `x / 2 ^ k`.
pub mod Layout
mod Runs
use dynld.Prelude.{ℕ, ◌/◌, ◌^◌, bit_and, Bool, not, ◌==◌}

unfoldable pub arm64e_rebase_target : ℕ → ℕ
arm64e_rebase_target x = bit_and x 0x0000_07FF_FFFF_FFFF

unfoldable pub arm64e_rebase_high8 : ℕ → ℕ
arm64e_rebase_high8 x = bit_and (x / 2 ^ 43) 0xFF

unfoldable pub arm64e_rebase_next : ℕ → ℕ
arm64e_rebase_next x = bit_and (x / 2 ^ 51) 0x7FF

unfoldable pub arm64e_bind_ordinal : ℕ → ℕ
arm64e_bind_ordinal x = bit_and x 0xFFFF

unfoldable pub arm64e_bind_addend : ℕ → ℕ
arm64e_bind_addend x = bit_and (x / 2 ^ 32) 0x7FFFF

unfoldable pub arm64e_bind_next : ℕ → ℕ
arm64e_bind_next x = bit_and (x / 2 ^ 51) 0x7FF

unfoldable pub arm64e_auth_rebase_target : ℕ → ℕ
arm64e_auth_rebase_target x = bit_and x 0xFFFF_FFFF

unfoldable pub arm64e_auth_rebase_next : ℕ → ℕ
arm64e_auth_rebase_next x = bit_and (x / 2 ^ 51) 0x7FF

unfoldable pub arm64e_auth_bind_ordinal : ℕ → ℕ
arm64e_auth_bind_ordinal x = bit_and x 0xFFFF

unfoldable pub arm64e_auth_bind_next : ℕ → ℕ
arm64e_auth_bind_next x = bit_and (x / 2 ^ 51) 0x7FF

unfoldable pub ptr_64_rebase_target : ℕ → ℕ
ptr_64_rebase_target x = bit_and x 0x0000_000F_FFFF_FFFF

unfoldable pub ptr_64_rebase_high8 : ℕ → ℕ
ptr_64_rebase_high8 x = bit_and (x / 2 ^ 36) 0xFF

unfoldable pub ptr_64_rebase_next : ℕ → ℕ
ptr_64_rebase_next x = bit_and (x / 2 ^ 51) 0xFFF

unfoldable pub ptr_64_bind_ordinal : ℕ → ℕ
ptr_64_bind_ordinal x = bit_and x 0x00FF_FFFF

unfoldable pub ptr_64_bind_addend : ℕ → ℕ
ptr_64_bind_addend x = bit_and (x / 2 ^ 24) 0xFF

unfoldable pub ptr_64_bind_next : ℕ → ℕ
ptr_64_bind_next x = bit_and (x / 2 ^ 51) 0xFFF

unfoldable pub arm64e_bind_24_ordinal : ℕ → ℕ
arm64e_bind_24_ordinal x = bit_and x 0x00FF_FFFF

unfoldable pub arm64e_bind_24_addend : ℕ → ℕ
arm64e_bind_24_addend x = bit_and (x / 2 ^ 32) 0x7FFFF

unfoldable pub arm64e_bind_24_next : ℕ → ℕ
arm64e_bind_24_next x = bit_and (x / 2 ^ 51) 0x7FF

unfoldable pub arm64e_auth_bind_24_ordinal : ℕ → ℕ
arm64e_auth_bind_24_ordinal x = bit_and x 0x00FF_FFFF

unfoldable pub arm64e_auth_bind_24_next : ℕ → ℕ
arm64e_auth_bind_24_next x = bit_and (x / 2 ^ 51) 0x7FF

-- A `dyld_chained_import` is its raw `u32`.
unfoldable pub import_lib_ordinal : ℕ → ℕ
import_lib_ordinal x = bit_and x 0x0000_00FF

unfoldable pub import_weak_import : ℕ → Bool
import_weak_import x = not (bit_and x 0x0000_0100 == 0)

unfoldable pub import_name_offset : ℕ → ℕ
import_name_offset x = bit_and x 0xFFFF_FE00 / 2 ^ 9

-- DYLD_CHAINED_IMPORT_ADDEND and DYLD_CHAINED_IMPORT_ADDEND64, with the raw header.
pub record DyldChainedImportAddend : Type 0 where
  pub header : ℕ
  pub addend : ℕ

pub record DyldChainedImportAddend64 : Type 0 where
  pub header : ℕ
  pub addend : ℕ
