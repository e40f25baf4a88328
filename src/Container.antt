-- ===== src/Container.antt =====
-- src/container.rs: raw bytes with an endianness, and the reads that everything else goes through.
-- A `&str` is the list of its bytes. `Pread` stands for the deserialisers that the scroll crate
-- derives for the Mach-O structures: which bytes make a structure is scroll's business, and the
-- model takes it as an instance.
pub mod Uleb
pub mod Reads
use dynld.Prelude.{
  ◌>>=◌, ℕ, zero, suc, ◌+◌, ◌-◌, ◌^◌, ◌≤◌, Bool, true, false, ◌&&◌, Option, none, some, [], ◌∷◌,
  ltb, leb, ◌==◌, if◌then◌else◌, length, take, drop, Bytes, Outcome, ok, panic, Maybe, try_some,
  unwrap, ◌≡◌,
}
use mathlib.Core.Option

pub data Endian : Type 0 where
  little big : Endian

pub record Container : Type 0 where
  pub bytes : Bytes
  pub endian : Endian

pub record Pread (T : Type 0) : Type 0 where
  pub pread_with : Bytes → ℕ → Endian → Option T

-- scroll refuses a read that would leave the buffer.
abbrev pub IsBounded : {T : Type 0} → Pread T → ℕ → Type 0
IsBounded {T} p size =
    (bytes : Bytes) (offset : ℕ) (e : Endian) (t : T)
    → p.pread_with bytes offset e ≡ some t
    → offset + size ≤ length bytes

unfoldable pub with_bytes : Bytes → Endian → Container
with_bytes bytes endian = record { bytes = bytes; endian = endian }

unfoldable pub deserialize_type_at_offset : {T : Type 0} ⦃p : Pread T⦄ → Container → ℕ → Maybe T
deserialize_type_at_offset ⦃p⦄ c offset = try_some (p.pread_with c.bytes offset c.endian)

-- `bytes.get(offset..end)`
abbrev pub get_range : Bytes → ℕ → ℕ → Option Bytes
get_range bytes offset end =
    if leb offset end && leb end (length bytes)
    then some (take (end - offset) (drop offset bytes))
    else none

-- `offset.checked_add(len)?` fails where the sum leaves a usize.
unfoldable pub slice : Container → ℕ → ℕ → Option Bytes
slice c offset len =
    if ltb (offset + len) (2 ^ 64) then get_range c.bytes offset (offset + len) else none

-- `bytes.get(offset..)`, and `&bytes[offset..]`, which panics where that is `None`.
abbrev pub get_from : Bytes → ℕ → Option Bytes
get_from bytes offset = if leb offset (length bytes) then some (drop offset bytes) else none

-- `.iter().position(|&b| b == 0)`
unfoldable pub nul_position : Bytes → Option ℕ
nul_position [] = none
nul_position (b ∷ bs) = if b == 0 then some 0 else Option.map suc (nul_position bs)

-- The lead byte of a UTF-8 sequence: how many bytes follow it, and the range of the next one.
utf8_lead : ℕ → Option (ℕ × ℕ × ℕ)
utf8_lead b =
    if ltb b 0x80
    then some (0, 0, 0)
    else if ltb b 0xc2
    then none
    else if ltb b 0xe0
    then some (1, 0x80, 0xbf)
    else if b == 0xe0
    then some (2, 0xa0, 0xbf)
    else if b == 0xed
    then some (2, 0x80, 0x9f)
    else if ltb b 0xf0
    then some (2, 0x80, 0xbf)
    else if b == 0xf0
    then some (3, 0x90, 0xbf)
    else if ltb b 0xf4
    then some (3, 0x80, 0xbf)
    else if b == 0xf4
    then some (3, 0x80, 0x8f)
    else none

-- `pending` continuation bytes follow, the next of them between `lo` and `hi`.
utf8_from : (pending lo hi : ℕ) → Bytes → Bool
utf8_from zero lo hi [] = true
utf8_from (suc n) lo hi [] = false
utf8_from zero lo hi (b ∷ bs) = elim (utf8_lead b) [
  | none ↦ false
  | some (n, lo', hi') ↦ utf8_from n lo' hi' bs
]
utf8_from (suc n) lo hi (b ∷ bs) = leb lo b && leb b hi && utf8_from n 0x80 0xbf bs

-- What `core::str::from_utf8` accepts.
unfoldable pub is_utf8 : Bytes → Bool
unfolding utf8_lead utf8_from
is_utf8 bs = utf8_from 0 0 0 bs

-- The string at `offset`, without its NUL. All three ways to fail are panics.
unfoldable pub deserialize_string_at_offset : {E : Type 0} → Container → ℕ → Outcome E Bytes
deserialize_string_at_offset c offset = do
  from_offset ← unwrap (get_from c.bytes offset)
  null_pos ← unwrap (nul_position from_offset)
  let cstring = take null_pos from_offset
  if is_utf8 cstring then ok cstring else panic

-- `CStr::from_bytes_with_nul`: the one NUL is the last byte.
from_bytes_with_nul : Bytes → Option Bytes
from_bytes_with_nul bs = elim (nul_position bs) [
  | none ↦ none
  | some i ↦ if (i + 1) == length bs then some bs else none
]

-- The C string at `offset`, with its NUL.
unfoldable pub deserialize_cstr_at_offset : {E : Type 0} → Container → ℕ → Outcome E Bytes
unfolding from_bytes_with_nul
deserialize_cstr_at_offset c offset = do
  from_offset ← unwrap (get_from c.bytes offset)
  null_pos ← unwrap (nul_position from_offset)
  unwrap (from_bytes_with_nul (take (null_pos + 1) from_offset))

-- `CStr::to_bytes`
abbrev pub to_bytes : Bytes → Bytes
to_bytes cstr = take (length cstr - 1) cstr
