-- ===== src/Dylib/Ending.antt =====
-- src/dylib.rs: looking a symbol up in a user dylib ends.
use dynld.Prelude.{Option, none, some, Bytes, Result, to_result, Ends, returned}
use dynld.Container.{Container, slice}
use dynld.Container.Reads.{Anything, bind-Ends, to_result-Ends}
use dynld.Scroll.{Scroll}
use dynld.ExportsTrie.{
  ExportTerminal, defined_here, reexported_from_dependency, exports_trie_walk_for_symbol,
}
use dynld.ExportsTrie.Bounds.{exports_trie_walk-IsTotal}
use dynld.MachOImage.{MachOImage}
use dynld.MachOImage.Ending.{exports_trie_span_find-Ends, dylib_install_path-Ends}
use dynld.Dylib.{or_none, terminal_symbol, dylib_symbol_resolve}

pub or_none-Ends {ℓ κ} :
    {A : Type ℓ} {B : Type κ} (o : Option A) {k : A → Result (Option B)}
    → ((a : A) → Ends Anything (k a))
    → Ends Anything (or_none o k)
or_none-Ends none h = returned tt
or_none-Ends (some a) h = h a

pub walk-Ends :
    (trie symbol : Bytes) → Ends Anything (to_result (exports_trie_walk_for_symbol trie symbol))
walk-Ends trie symbol = to_result-Ends _ (exports_trie_walk-IsTotal trie symbol).1

module _ (s : Scroll) where
  terminal_symbol-Ends :
      (image : MachOImage) (symbol : Bytes) (t : ExportTerminal)
      → Ends Anything (terminal_symbol s image symbol t)
  unfolding terminal_symbol
  terminal_symbol-Ends image symbol (defined_here offset) = returned tt
  terminal_symbol-Ends image symbol (reexported_from_dependency ordinal aliased_name) =
      bind-Ends (dylib_install_path-Ends s image ordinal)
        λ path. or_none-Ends path λ target. returned tt

  pub dylib_symbol_resolve-Ends :
      (container : Container) (symbol : Bytes)
      → Ends Anything (dylib_symbol_resolve s container symbol)
  unfolding dylib_symbol_resolve
  dylib_symbol_resolve-Ends container symbol = bind-Ends (exports_trie_span_find-Ends s _) λ span.
      or_none-Ends span λ sp.
        or_none-Ends (slice container sp.file_offset sp.size_in_bytes) λ trie_bytes.
          bind-Ends (walk-Ends trie_bytes symbol)
            λ terminal. or_none-Ends terminal λ t. terminal_symbol-Ends _ symbol t
