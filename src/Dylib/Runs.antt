-- ===== src/Dylib/Runs.antt =====
-- A library that re-exports `_a` from `/b`, which defines it, and the theorem at them.
use dynld.Prelude.{
  ℕ, ◌≡◌, refl, ◌↔◌, Option, none, some, [], ◌∷◌, ◌++◌, if◌then◌else◌, Bytes, bytes_eq, ok,
}
use dynld.Container.{
  Container, deserialize_type_at_offset, deserialize_cstr_at_offset, nul_position, slice,
}
use dynld.Container.Uleb.{read_uleb128}
use dynld.Scroll.Sample.{sample, le_bytes, image_of}
use dynld.ExportsTrie.{
  exports_trie_walk_for_symbol, walk_loop, open_node, has_terminal_payload, terminal_payload_read,
  child_edge_matching_prefix_find, child_edge_loop, edge_read, starts_with,
}
use dynld.MachOImage.{
  mach_header_read, load_command_read, load_commands_find, exports_trie_span_find,
  is_dylib_dependency_command, dylib_install_name_read, install_path_visit,
  dylib_install_path_for_ordinal,
}
use dynld.Dylib.{dylib_symbol_resolve, dylib_symbol_resolve_following_reexports}
use dynld.Dylib.Chase.{Chain, following_reexports-Chain}

abbrev path_b : Bytes
path_b = b'/' ∷ b'b' ∷ []

abbrev symbol : Bytes
symbol = b'_' ∷ b'a' ∷ []

-- A trie of two nodes, with a terminal payload of three bytes at the leaf.
abbrev trie_of : Bytes → Bytes
trie_of payload = (0 ∷ 1 ∷ b'_' ∷ b'a' ∷ 0 ∷ 6 ∷ 3 ∷ []) ++ payload ++ (0 ∷ [])

abbrev trie_command : (offset : ℕ) → Bytes
trie_command offset = le_bytes 4 0x8000_0033 ++ le_bytes 4 16 ++ le_bytes 4 offset ++ le_bytes 4 11

abbrev library_a : Container
library_a = image_of 2 (
    le_bytes 4 0x8000_001F
    ++ le_bytes 4 16
    ++ le_bytes 4 12
    ++ (b'/' ∷ b'b' ∷ 0 ∷ 0 ∷ [])
    ++ trie_command 64
    ++ trie_of (8 ∷ 1 ∷ 0 ∷ []))

abbrev library_b : Container
library_b = image_of 1 (trie_command 48 ++ trie_of (0 ∷ 16 ∷ 0 ∷ []))

abbrev library_lookup : Bytes → Option Container
library_lookup path = if bytes_eq path path_b then some library_b else none

finds :
    dylib_symbol_resolve_following_reexports sample library_a symbol library_lookup
    ≡ ok (some (path_b, 16))
unfolding dylib_symbol_resolve_following_reexports dylib_symbol_resolve exports_trie_span_find
    load_commands_find mach_header_read load_command_read deserialize_type_at_offset slice
    exports_trie_walk_for_symbol walk_loop open_node has_terminal_payload terminal_payload_read
    child_edge_matching_prefix_find child_edge_loop edge_read starts_with read_uleb128 nul_position
    is_dylib_dependency_command dylib_install_name_read install_path_visit
    dylib_install_path_for_ordinal deserialize_cstr_at_offset bytes_eq
finds = refl

following_reexports-Chain_example :
    (dylib_symbol_resolve_following_reexports sample library_a symbol library_lookup
      ≡ ok (some (path_b, 16)))
    ↔ Chain sample library_lookup (path_b, 16) library_a symbol [] 16
following_reexports-Chain_example =
    following_reexports-Chain sample library_lookup library_a symbol (path_b, 16)
