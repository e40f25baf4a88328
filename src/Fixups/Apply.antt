-- ===== src/Fixups/Apply.antt =====
-- src/fixups.rs: `fixup_all_chained_fixups` and the two kinds of bind. The memory is the bytes by
-- address; a sum of pointers wraps. What the shared cache knows of a symbol is a parameter here. After
-- an error the memory is not looked at, since the callers exit.
pub mod Writes
pub mod Ending
use dynld.Prelude.{
  ℕ, ◌+◌, ◌-◌, ◌/◌, ◌%◌, ◌^◌, sym, Bool, not, ◌&&◌, Option, none, some, List, [], ◌∷◌, ltb, leb,
  ◌==◌, if◌then◌else◌, get_elem?, Bytes, ◌>>=◌, ◌>>◌, Result, ok_or, unwrap, failed, ok, err, panic,
}
use dynld.Container.{Container}
use dynld.Scroll.{Scroll}
use dynld.Image.{Symbol, array_string_cmp}
use dynld.Dylib.{DylibSymbol, defined, reexported, dylib_symbol_resolve}
use dynld.Fixups.{FixupKind, rebase, bind, Fixup}

abbrev pub Memory : Type 0
Memory = ℕ → ℕ

-- `*(addr as *mut u64) = value`, least significant byte first.
unfoldable pub store_u64 : ℕ → ℕ → Memory → Memory
store_u64 addr value memory a =
    if leb addr a && ltb a (addr + 8) then value / 256 ^ (a - addr) % 256 else memory a

-- A user dylib is its bytes and where they are mapped.
pub data Library : Type 0 where
  system : (path : Bytes) → Library
  user : Container → (address : ℕ) → Library

-- `DyldSharedCache::symbol_resolve`: library and symbol to address.
abbrev pub SymbolResolve : Type 0
SymbolResolve = Bytes → Bytes → Result (Option ℕ)

-- `symbols.iter().find(|sym| sym.array_string_cmp(symbol_name))`
unfoldable pub symbol_find : List Symbol → Bytes → Option Symbol
symbol_find [] symbol_name = none
symbol_find (sym ∷ syms) symbol_name =
    if array_string_cmp sym symbol_name then some sym else symbol_find syms symbol_name

-- `vm_start_ptr.add(offset).add(page_zero_size)`
abbrev pub pointer : (dst page_zero_size offset : ℕ) → ℕ
pointer dst page_zero_size offset = (dst + offset + page_zero_size) % 2 ^ 64

module _ (s : Scroll) (dst page_zero_size : ℕ) where
  unfoldable pub fixup_dylib_weak_symbol : ℕ → List Symbol → Bytes → Memory → Result Memory
  fixup_dylib_weak_symbol fixup_offset symbols symbol_name memory = do
    symbol ←
        ok_or (symbol_find symbols symbol_name)
          "could not find a matching symbol while fixing up a BIND_SPECIAL_DYLIB_WEAK_LOOKUP"
    ok (
        store_u64 (pointer dst page_zero_size fixup_offset) ((dst + symbol.impl_offset) % 2 ^ 64)
          memory)

  -- A symbol that the dylib re-exports is `unimplemented!`.
  defined_store : ℕ → ℕ → DylibSymbol → Memory → Result Memory
  defined_store fixup_offset address (defined offset_from_mach_header) memory = ok (
      store_u64 (pointer dst page_zero_size fixup_offset)
        ((address + offset_from_mach_header) % 2 ^ 64) memory)
  defined_store fixup_offset address (reexported path symbol) memory = panic

  system_store : ℕ → Bytes → Bytes → Option SymbolResolve → Memory → Result Memory
  system_store fixup_offset symbol_name library_name none memory = err "failed to link library"
  system_store fixup_offset symbol_name library_name (some symbol_resolve) memory = do
    resolved ← symbol_resolve library_name symbol_name
    resolved_symbol ← ok_or resolved "could not find a symbol in the dyld shared cache"
    ok (store_u64 (pointer dst page_zero_size fixup_offset) resolved_symbol memory)

  unfoldable pub fixup_regular_symbol :
      ℕ → Bytes → Library → Option SymbolResolve → Memory → Result Memory
  unfolding system_store defined_store
  fixup_regular_symbol fixup_offset symbol_name (system library_name) dyld_shared_cache memory =
      system_store fixup_offset symbol_name library_name dyld_shared_cache memory
  fixup_regular_symbol fixup_offset symbol_name (user lib_container address) dyld_shared_cache
        memory =
      do
        resolved ← dylib_symbol_resolve s lib_container symbol_name
        sym ← ok_or resolved "failed to find symbol in user dylib"
        defined_store fixup_offset address sym memory

  module _ (symbols : List Symbol) (dylibs : List Library)
      (dyld_shared_cache : Option SymbolResolve) where
    -- A bind, by its ordinal; an ordinal past the dylibs is an index out of range.
    unfoldable pub bind_apply : ℕ → Bytes → ℕ → Memory → Result Memory
    bind_apply offset symbol_name ordinal memory =
        if ordinal == 0
        then err "BIND_SPECIAL_DYLIB_SELF is not yet supported"
        else if ordinal == 255
        then err "BIND_SPECIAL_DYLIB_MAIN_EXECUTABLE is not yet supported"
        else if ordinal == 254
        then err "BIND_SPECIAL_DYLIB_FLAT_LOOKUP is not yet supported"
        else if ordinal == 253
        then fixup_dylib_weak_symbol offset symbols symbol_name memory
        else do
          library ← unwrap (get_elem? dylibs (ordinal - 1))
          fixup_regular_symbol offset symbol_name library dyld_shared_cache memory

    -- One round of the loop.
    unfoldable pub fixup_apply : Bool → ℕ → FixupKind → Memory → Result Memory
    fixup_apply ignore_binds offset (rebase target) memory =
        ok
          (store_u64 (pointer dst page_zero_size offset) (pointer dst page_zero_size target) memory)
    fixup_apply ignore_binds offset (bind symbol_name ordinal is_auth addend) memory =
        if ignore_binds then ok memory else bind_apply offset symbol_name ordinal memory

    unfoldable pub fixup_all_chained_fixups : Bool → List Fixup → Memory → Result Memory
    fixup_all_chained_fixups ignore_binds [] memory = ok memory
    fixup_all_chained_fixups ignore_binds (fixup ∷ fixups) memory =
        fixup_apply ignore_binds fixup.offset fixup.kind memory
        >>= fixup_all_chained_fixups ignore_binds fixups
