-- ===== src/Loader/Symbols.antt =====
-- src/loader.rs: the symbol table. A `Vec` that is pushed to is a list that is appended to; a sum of
-- `u32` wraps. A name that does not fit is passed over, with its entry.
pub mod Table
pub mod Growth
use dynld.Prelude.{
  ℕ, zero, suc, ◌+◌, ◌/◌, ◌%◌, ◌^◌, bit_and, String, Bool, true, false, not, List, [], ◌∷◌, ◌++◌,
  ◌==◌, if◌then◌else◌, Bytes, ◌>>=◌, ◌>>◌, Result, ok_or, map_err, ok, err, panic, out_of_fuel,
}
use dynld.Container.{Container, deserialize_type_at_offset, deserialize_string_at_offset}
use dynld.Scroll.{Scroll}
use dynld.Bindings.MachO.{Nlist64}
use dynld.Array.{try_from_str, as_str}
use dynld.Image.{
  symbol_name_len, Symbol, make_undefined, make_regular_local, make_regular_export,
  make_weak_def_export,
}

abbrev pub n_stab : ℕ
n_stab = 0xe0

abbrev pub n_pext : ℕ
n_pext = 0x10

abbrev pub n_type : ℕ
n_type = 0x0e

abbrev pub n_ext : ℕ
n_ext = 0x01

abbrev pub n_undf : ℕ
n_undf = 0x0

abbrev pub n_sect : ℕ
n_sect = 0xe

abbrev pub n_weak_ref : ℕ
n_weak_ref = 0x0040

abbrev pub n_weak_def : ℕ
n_weak_def = 0x0080

abbrev pub n_arm_thumb_def : ℕ
n_arm_thumb_def = 0x0008

abbrev pub n_symbol_resolver : ℕ
n_symbol_resolver = 0x0100

abbrev pub n_alt_entry : ℕ
n_alt_entry = 0x0200

abbrev pub n_cold_func : ℕ
n_cold_func = 0x0400

-- `word & mask != 0`
abbrev pub has : (word mask : ℕ) → Bool
has word mask = not (bit_and word mask == 0)

unfoldable pub get_library_ordinal : ℕ → ℕ
get_library_ordinal n_desc = bit_and (n_desc / 2 ^ 8) 0xff

abbrev size_of_nlist_64 : ℕ
size_of_nlist_64 = 16

-- What the bits of an entry with a section say about it.
pub record Kind : Type 0 where
  pub is_external : Bool
  pub is_private_extern : Bool
  pub is_weak_def : Bool
  pub is_alt_entry : Bool
  pub is_resolver : Bool
  pub is_weak_ref : Bool

unfoldable pub kind_of : Nlist64 → Kind
kind_of entry = record {
  is_external = has entry.n_type n_ext;
  is_private_extern = has entry.n_type n_pext;
  is_weak_def = has entry.n_desc n_weak_def;
  is_alt_entry = has entry.n_desc n_alt_entry;
  is_resolver = has entry.n_desc n_symbol_resolver;
  is_weak_ref = has entry.n_desc n_weak_ref;
}

-- The arms of the match, in their order: external, private extern, weak definition, alternative
-- entry, resolver, and the weak reference of the guard.
pub defined_symbol :
    (e p w a r weak_ref : Bool)
    → (name : Bytes) → (value sect : ℕ) → (cold thumb : Bool) → Result Symbol
defined_symbol false false false false _ _ name value sect cold thumb =
    ok (make_regular_local name value sect cold thumb)
defined_symbol false true false false _ _ name value sect cold thumb =
    ok (make_regular_export name value sect cold thumb)
defined_symbol true false true false _ false name value sect cold thumb =
    ok (make_weak_def_export name value sect cold thumb)
defined_symbol true false false false false _ name value sect cold thumb =
    ok (make_regular_export name value sect cold thumb)
defined_symbol false false _ true _ _ name value sect cold thumb =
    err "makeAltEntry with Scope::translationUnit"
defined_symbol false true true _ _ _ name value sect cold thumb = err "makeWeakDefWasPrivateExtern"
defined_symbol false true false true _ _ name value sect cold thumb =
    err "unsupported makeAltEntry with Scope::wasLinkageUnit"
defined_symbol true true _ true _ _ name value sect cold thumb =
    err "makeAltEntry with Scope::linkageUnit"
defined_symbol true true true _ _ _ name value sect cold thumb = err "makeWeakDefHidden"
defined_symbol true true _ _ true _ name value sect cold thumb =
    err "makeDynamicResolver with Scope::linkageUnit"
defined_symbol true true _ _ _ _ name value sect cold thumb = err "makeRegularHidden"
defined_symbol true false _ true _ _ name value sect cold thumb =
    err "makeAltEntry with Scope::global"
defined_symbol true false true _ _ _ name value sect cold thumb = err "makeWeakDefAutoHide"
defined_symbol true false _ _ true _ name value sect cold thumb = err "makeDynamicResolver"
defined_symbol _ _ _ _ _ _ name value sect cold thumb = err "unknown symbol kind"

module _ (s : Scroll) (image : Container) where
  unfoldable pub read_symbol_name : (stroff n_strx : ℕ) → String → Result Bytes
  read_symbol_name stroff n_strx message = do
    text ← deserialize_string_at_offset image ((stroff + n_strx) % 2 ^ 32)
    name ← ok_or (try_from_str symbol_name_len text) message
    as_str name

  -- `match name { Ok(name) => …, Err(_) => return Ok(()) }`
  name_or_skip : Result Bytes → List Symbol → (Bytes → Result (List Symbol)) → Result (List Symbol)
  name_or_skip (ok name) symbols next = next name
  name_or_skip (err _) symbols next = ok symbols
  name_or_skip panic symbols next = panic
  name_or_skip out_of_fuel symbols next = out_of_fuel

  unfoldable pub classify_defined_symbol : ℕ → Nlist64 → List Symbol → Result (List Symbol)
  unfolding name_or_skip defined_symbol
  classify_defined_symbol stroff entry symbols =
      name_or_skip (read_symbol_name stroff entry.n_un.n_strx "could not read symbol name") symbols
        λ name.
          let kind = kind_of entry in
          defined_symbol kind.is_external kind.is_private_extern kind.is_weak_def kind.is_alt_entry
            kind.is_resolver kind.is_weak_ref name entry.n_value entry.n_sect
            (has entry.n_desc n_cold_func) (has entry.n_desc n_arm_thumb_def)
          >>= λ symbol. ok (symbols ++ (symbol ∷ []))

  -- A value is `unimplemented!`, in both messages.
  unfoldable pub classify_undefined_symbol : ℕ → Nlist64 → List Symbol → Result (List Symbol)
  unfolding name_or_skip
  classify_undefined_symbol stroff entry symbols =
      if not (entry.n_value == 0)
      then panic
      else name_or_skip (read_symbol_name stroff entry.n_un.n_strx "could not read symbol name")
          symbols
          λ name. ok (
            symbols
            ++ (make_undefined name (get_library_ordinal entry.n_desc) (has entry.n_desc n_weak_ref)
                ∷ []))

  -- One entry of the table.
  unfoldable pub symtab_entry : ℕ → Nlist64 → List Symbol → Result (List Symbol)
  symtab_entry stroff entry symbols =
      if has entry.n_type n_stab
      then ok symbols
      else (let kind = bit_and entry.n_type n_type in
          if kind == n_sect
          then classify_defined_symbol stroff entry symbols
          else if kind == n_undf
          then classify_undefined_symbol stroff entry symbols
          else ok symbols)

  -- `nsyms` entries are left, the next of them at `nlist_offset`.
  symtab_loop : (nsyms nlist_offset stroff : ℕ) → List Symbol → Result (List Symbol)
  symtab_loop zero nlist_offset stroff symbols = ok symbols
  symtab_loop (suc nsyms) nlist_offset stroff symbols = do
    entry ←
        map_err (deserialize_type_at_offset ⦃p = s.nlist_64⦄ image nlist_offset)
          "could not parse `nlist_64` in the inner arm64 image"
    symbols' ← symtab_entry stroff entry symbols
    symtab_loop nsyms (nlist_offset + size_of_nlist_64) stroff symbols'

  unfoldable pub parse_symtab : ℕ → List Symbol → Result (List Symbol)
  unfolding symtab_loop
  parse_symtab offset symbols = do
    symtab ←
        map_err (deserialize_type_at_offset ⦃p = s.symtab_command⦄ image offset)
          "could not parse `symtab_command` in the inner arm64 image"
    symtab_loop symtab.nsyms symtab.symoff symtab.stroff symbols
