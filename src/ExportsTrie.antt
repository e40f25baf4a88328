-- ===== src/ExportsTrie.antt =====
-- src/macho_image.rs: the walk over an exports trie. Positions are inside a slice, so sums of them
-- stay far below `2 ^ 64`; the size of a payload is read from the bytes, and its sum may wrap.
pub mod Bounds
pub mod Spells
pub mod Complete
mod Runs
use dynld.Prelude.{
  ◌>>=◌, ℕ, zero, suc, ◌+◌, ◌%◌, ◌^◌, bit_and, Bool, true, false, not, ◌&&◌, [], ◌∷◌, ltb, leb,
  ◌==◌, if◌then◌else◌, length, get_elem?, Bytes, Maybe, try_some, unwrap, ok, err,
}
use dynld.Container.{get_range, get_from, nul_position}
use dynld.Container.Uleb.{read_uleb128}

pub data ExportTerminal : Type 0 where
  defined_here : (offset_from_mach_header : ℕ) → ExportTerminal
  reexported_from_dependency : (dependency_ordinal : ℕ) → (aliased_name : Bytes) → ExportTerminal

pub record TrieNodeReader : Type 0 where
  pub trie_bytes : Bytes
  pub child_edges_start_offset : ℕ
  pub terminal_payload_start_offset : ℕ
  pub terminal_payload_size_in_bytes : ℕ

-- `TrieNodeReader::open`
unfoldable pub open_node : Bytes → ℕ → Maybe TrieNodeReader
open_node trie node_offset = if leb (length trie) node_offset then err tt else do
  from_node ← unwrap (get_from trie node_offset)
  (payload_size, size_byte_count) ← try_some (read_uleb128 from_node)
  let payload_start = node_offset + size_byte_count
  let edges_start = (payload_start + payload_size) % 2 ^ 64
  if leb (length trie) edges_start
      then err tt
      else ok (record {
        trie_bytes = trie;
        child_edges_start_offset = edges_start;
        terminal_payload_start_offset = payload_start;
        terminal_payload_size_in_bytes = payload_size;
      })

unfoldable pub has_terminal_payload : TrieNodeReader → Bool
has_terminal_payload node = ltb 0 node.terminal_payload_size_in_bytes

-- EXPORT_SYMBOL_FLAGS_REEXPORT
abbrev pub export_symbol_flags_reexport : ℕ
export_symbol_flags_reexport = 0x08

read_reexport : Bytes → ℕ → Maybe ExportTerminal
read_reexport trie cursor = do
  from_ordinal ← unwrap (get_from trie cursor)
  (dependency_ordinal, ordinal_byte_count) ← try_some (read_uleb128 from_ordinal)
  let cursor' = cursor + ordinal_byte_count
  from_name ← unwrap (get_from trie cursor')
  terminator ← try_some (nul_position from_name)
  aliased_name ← unwrap (get_range trie cursor' (cursor' + terminator))
  ok (reexported_from_dependency dependency_ordinal aliased_name)

read_definition : Bytes → ℕ → Maybe ExportTerminal
read_definition trie cursor = do
  from_offset ← unwrap (get_from trie cursor)
  (offset_from_mach_header, _) ← try_some (read_uleb128 from_offset)
  ok (defined_here offset_from_mach_header)

unfoldable pub terminal_payload_read : TrieNodeReader → Maybe ExportTerminal
unfolding read_reexport read_definition
terminal_payload_read node = do
  let cursor = node.terminal_payload_start_offset
  from_flags ← unwrap (get_from node.trie_bytes cursor)
  (export_flags, flags_byte_count) ← try_some (read_uleb128 from_flags)
  let cursor' = cursor + flags_byte_count
  if bit_and export_flags export_symbol_flags_reexport == 0
      then read_definition node.trie_bytes cursor'
      else read_reexport node.trie_bytes cursor'

-- One entry of the edge table at `cursor`: its label, its child, and where the next entry starts.
unfoldable pub edge_read : Bytes → ℕ → Maybe (Bytes × ℕ × ℕ)
edge_read trie label_start = do
  from_label ← unwrap (get_from trie label_start)
  label_length ← try_some (nul_position from_label)
  label ← unwrap (get_range trie label_start (label_start + label_length))
  let cursor = label_start + label_length + 1
  from_offset ← unwrap (get_from trie cursor)
  (child_node_offset, offset_byte_count) ← try_some (read_uleb128 from_offset)
  ok (label, child_node_offset, cursor + offset_byte_count)

-- `suffix.starts_with(label)`
unfoldable pub starts_with : Bytes → Bytes → Bool
starts_with suffix [] = true
starts_with [] (y ∷ label) = false
starts_with (x ∷ suffix) (y ∷ label) = (x == y) && starts_with suffix label

abbrev pub is_empty : Bytes → Bool
is_empty [] = true
is_empty (x ∷ xs) = false

-- The entries not yet tried, the first of them at `cursor`.
unfoldable pub child_edge_loop : ℕ → Bytes → ℕ → Bytes → Maybe (Bytes × ℕ)
child_edge_loop zero trie cursor suffix = err tt
child_edge_loop (suc entries) trie cursor suffix = do
  (label, child, cursor') ← edge_read trie cursor
  if not (is_empty label) && starts_with suffix label
      then ok (label, child)
      else child_edge_loop entries trie cursor' suffix

unfoldable pub child_edge_matching_prefix_find : TrieNodeReader → Bytes → Maybe (Bytes × ℕ)
child_edge_matching_prefix_find node suffix = do
  child_edge_count ← unwrap (get_elem? node.trie_bytes node.child_edges_start_offset)
  child_edge_loop child_edge_count node.trie_bytes (node.child_edges_start_offset + 1) suffix

-- `&suffix[label.len()..]`
abbrev pub strip : Bytes → Bytes → Maybe Bytes
strip suffix label = unwrap (get_from suffix (length label))

unfoldable pub walk_loop : ℕ → Bytes → ℕ → Bytes → Maybe ExportTerminal
walk_loop zero trie node_offset suffix = err tt
walk_loop (suc visit_budget) trie node_offset suffix = do
  node ← open_node trie node_offset
  if is_empty suffix && has_terminal_payload node then terminal_payload_read node else do
    (label, child) ← child_edge_matching_prefix_find node suffix
    rest ← strip suffix label
    walk_loop visit_budget trie child rest

-- Each round visits a node, and there are as many rounds as bytes.
unfoldable pub exports_trie_walk_for_symbol : Bytes → Bytes → Maybe ExportTerminal
exports_trie_walk_for_symbol trie symbol = walk_loop (length trie) trie 0 symbol
