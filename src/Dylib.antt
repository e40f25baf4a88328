-- ===== src/Dylib.antt =====
-- src/dylib.rs: a symbol of a user dylib, and the chase through re-exports.
pub mod Chase
pub mod Ending
mod Runs
use dynld.Prelude.{
  ℕ, zero, suc, Option, none, some, [], if◌then◌else◌, Bytes, ◌>>=◌, ◌>>◌, Result, to_result, ok,
}
use dynld.Container.{Container, slice}
use dynld.Scroll.{Scroll}
use dynld.ExportsTrie.{
  ExportTerminal, defined_here, reexported_from_dependency, is_empty, exports_trie_walk_for_symbol,
}
use dynld.MachOImage.{
  MachOImage, exports_trie_span_find, dylib_install_path_for_ordinal, max_reexport_resolution_depth,
}

pub data DylibSymbol : Type 0 where
  defined : (offset_from_mach_header : ℕ) → DylibSymbol
  reexported : (target_install_path target_symbol : Bytes) → DylibSymbol

-- `let Some(a) = e else { return Ok(None) }`
abbrev pub or_none {ℓ κ} :
    {A : Type ℓ} {B : Type κ} → Option A → (A → Result (Option B)) → Result (Option B)
or_none none k = ok none
or_none (some a) k = k a

-- The name under which a re-exported symbol is exported by its library.
abbrev pub target_name : Bytes → Bytes → Bytes
target_name symbol aliased_name = if is_empty aliased_name then symbol else aliased_name

module _ (s : Scroll) where
  terminal_symbol : MachOImage → Bytes → ExportTerminal → Result (Option DylibSymbol)
  terminal_symbol image symbol (defined_here offset) = ok (some (defined offset))
  terminal_symbol image symbol (reexported_from_dependency ordinal aliased_name) = do
    path ← dylib_install_path_for_ordinal s image ordinal
    or_none path λ target_install_path.
        ok (some (reexported target_install_path (target_name symbol aliased_name)))

  unfoldable pub dylib_symbol_resolve : Container → Bytes → Result (Option DylibSymbol)
  unfolding terminal_symbol
  dylib_symbol_resolve container symbol = do
    let image : MachOImage = record { container = container; mach_header_offset = 0 }
    span ← exports_trie_span_find s image
    or_none span λ sp. or_none (slice container sp.file_offset sp.size_in_bytes) λ trie_bytes. do
      terminal ← to_result (exports_trie_walk_for_symbol trie_bytes symbol)
      or_none terminal λ t. terminal_symbol image symbol t

  -- One round: an answer, or `next` at the library that the re-export names.
  chase_step :
      (Container → Bytes → Bytes → Result (Option (Bytes × ℕ)))
      → Bytes
      → (Bytes → Option Container)
      → Option DylibSymbol
      → Result (Option (Bytes × ℕ))
  chase_step next path library_lookup none = ok none
  chase_step next path library_lookup (some (defined offset)) = ok (some (path, offset))
  chase_step next path library_lookup (some (reexported target_path target_symbol)) =
      or_none (library_lookup target_path) λ container. next container target_symbol target_path

  -- `depth` rounds are left; `path` is the library that `container` holds.
  chase_loop :
      ℕ → Container → Bytes → Bytes → (Bytes → Option Container) → Result (Option (Bytes × ℕ))
  chase_loop zero container symbol path library_lookup = ok none
  chase_loop (suc depth) container symbol path library_lookup =
      dylib_symbol_resolve container symbol
      >>= chase_step (λ c x p. chase_loop depth c x p library_lookup) path library_lookup

  unfoldable pub dylib_symbol_resolve_following_reexports :
      Container → Bytes → (Bytes → Option Container) → Result (Option (Bytes × ℕ))
  unfolding chase_loop chase_step
  dylib_symbol_resolve_following_reexports container symbol library_lookup =
      chase_loop max_reexport_resolution_depth container symbol [] library_lookup
