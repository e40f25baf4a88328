-- ===== src/ExportsTrie/Bounds.antt =====
-- The walk reads inside the trie: it never panics, whatever the bytes are.
use dynld.Prelude.{
  ℕ, zero, suc, ◌+◌, ◌-◌, ◌%◌, ◌^◌, ◌≤◌, ◌<◌, bit_and, ◌≡◌, refl, ap, inl, inr, true, not, ◌&&◌,
  some, [], ◌∷◌, arith, leb, ◌==◌, Bool-cases, length, get_elem?, take, drop, length-drop, Bytes,
  IsTotal, Safe-IsTotal, Safe-bind, Safe-ok_or, Safe, safe, failed, ok,
}
use dynld.Container.{get_range, get_from, nul_position}
use dynld.Container.Uleb.{read_uleb128}
use dynld.Container.Uleb.Value.{read_uleb128-group_value}
use dynld.ExportsTrie.{
  is_empty, strip, has_terminal_payload, TrieNodeReader, ExportTerminal, open_node,
  terminal_payload_read, edge_read,
}
use dynld.ExportsTrie.{
  read_reexport, read_definition, starts_with, child_edge_loop, child_edge_matching_prefix_find,
  walk_loop, exports_trie_walk_for_symbol,
}

pub nul_position-lt : (bs : Bytes) (i : ℕ) → nul_position bs ≡ some i → i < length bs
unfolding nul_position
nul_position-lt [] i e = cc
nul_position-lt (b ∷ bs) i e = ground (arith, nul_position-lt bs (i - 1))

-- A number read from `offset` on ends inside the bytes.
uleb_inside :
    (trie : Bytes) (offset v n : ℕ)
    → offset ≤ length trie
    → read_uleb128 (drop offset trie) ≡ some (v, n)
    → offset + n ≤ length trie
uleb_inside trie offset v n h e =
    omega (arith, length-drop offset trie, read_uleb128-group_value (drop offset trie) v n e)

nul_inside :
    (trie : Bytes) (offset i : ℕ)
    → offset ≤ length trie
    → nul_position (drop offset trie) ≡ some i
    → offset + i < length trie
nul_inside trie offset i h e =
    omega (arith, length-drop offset trie, nul_position-lt (drop offset trie) i e)

get_from-ok :
    (trie : Bytes) (cursor : ℕ)
    → cursor ≤ length trie
    → get_from trie cursor ≡ some (drop cursor trie)
get_from-ok trie cursor h = ground arith

get_range-ok :
    (trie : Bytes) (start n : ℕ)
    → start + n ≤ length trie
    → get_range trie start (start + n) ≡ some (take n (drop start trie))
get_range-ok trie start n h =
    let e : start + n - start ≡ n = omega arith in
    ground (arith, ap (λ k. take k (drop start trie)) e)

-- What one entry of an edge table leads to.
abbrev pub EdgeInside : Bytes → Bytes × ℕ × ℕ → Type 0
EdgeInside trie (label, child, next) = next ≤ length trie

pub edge_read-Safe :
    (trie : Bytes) (cursor : ℕ)
    → cursor ≤ length trie
    → Safe (EdgeInside trie) (edge_read trie cursor)
unfolding edge_read
edge_read-Safe trie cursor h = rw (get_from-ok trie cursor h) (
    Safe-bind (Safe-ok_or (nul_position (drop cursor trie)) tt) λ i e.
      let inside : cursor + i < length trie = nul_inside trie cursor i h e in
      rw (get_range-ok trie cursor i (omega arith), get_from-ok trie (cursor + i + 1) (omega arith))
        (Safe-bind (Safe-ok_or (read_uleb128 (drop (cursor + i + 1) trie)) tt)
          λ (v, n) e'. safe (uleb_inside trie (cursor + i + 1) v n (omega arith) e')))

-- Opened nodes lie inside the trie, their payload and their edges too.
pub record IsNode (trie : Bytes) (node : TrieNodeReader) : Type 0 where
  pub bytes : node.trie_bytes ≡ trie
  pub payload : node.terminal_payload_start_offset ≤ length trie
  pub edges : node.child_edges_start_offset < length trie

pub open_node-Safe : (trie : Bytes) (offset : ℕ) → Safe (IsNode trie) (open_node trie offset)
unfolding open_node
open_node-Safe trie offset = elim (Bool-cases (leb (length trie) offset)) [
  | inl out ↦ rw out failed
  | inr in_range ↦
      rw (in_range, get_from-ok trie offset (ground arith))
        (Safe-bind (Safe-ok_or (read_uleb128 (drop offset trie)) tt) λ (v, n) e.
          elim (Bool-cases (leb (length trie) ((offset + n + v) % 2 ^ 64))) [
            | inl past ↦ rw past failed
            | inr fits ↦ rw fits (
                safe (record {
                  bytes = refl;
                  payload = uleb_inside trie offset v n (ground arith) e;
                  edges = ground arith;
                }))
          ])
]

read_definition-Safe :
    (trie : Bytes) (cursor : ℕ)
    → cursor ≤ length trie
    → Safe (λ (t : ExportTerminal). Unit {0}) (read_definition trie cursor)
unfolding read_definition
read_definition-Safe trie cursor h =
    rw (get_from-ok trie cursor h)
      (Safe-bind (Safe-ok_or (read_uleb128 (drop cursor trie)) tt) λ p e. safe tt)

read_reexport-Safe :
    (trie : Bytes) (cursor : ℕ)
    → cursor ≤ length trie
    → Safe (λ (t : ExportTerminal). Unit {0}) (read_reexport trie cursor)
unfolding read_reexport
read_reexport-Safe trie cursor h = rw (get_from-ok trie cursor h) (
    Safe-bind (Safe-ok_or (read_uleb128 (drop cursor trie)) tt) λ (v, n) e.
      let inside : cursor + n ≤ length trie = uleb_inside trie cursor v n h e in
      rw (get_from-ok trie (cursor + n) inside) (
        Safe-bind (Safe-ok_or (nul_position (drop (cursor + n) trie)) tt) λ i e'.
          let inside' : cursor + n + i < length trie = nul_inside trie (cursor + n) i inside e' in
          rw (get_range-ok trie (cursor + n) i (omega arith)) (safe tt)))

pub terminal_payload_read-Safe :
    (trie : Bytes) (node : TrieNodeReader)
    → IsNode trie node
    → Safe (λ (t : ExportTerminal). Unit {0}) (terminal_payload_read node)
unfolding terminal_payload_read
terminal_payload_read-Safe trie node h =
    rw (h.bytes, get_from-ok trie node.terminal_payload_start_offset h.payload)
      (Safe-bind (Safe-ok_or (read_uleb128 (drop node.terminal_payload_start_offset trie)) tt)
        λ (v, n) e.
          let start = node.terminal_payload_start_offset in
          let inside : start + n ≤ length trie = uleb_inside trie start v n h.payload e in
          elim (Bool-cases (bit_and v 8 == 0)) [
            | inl here ↦ rw here (read_definition-Safe trie (start + n) inside)
            | inr there ↦ rw there (read_reexport-Safe trie (start + n) inside)
          ])

-- A suffix that starts with a label can be cut behind it.
starts_with-le :
    (suffix label : Bytes) → starts_with suffix label ≡ true → length label ≤ length suffix
unfolding starts_with
starts_with-le suffix [] h = omega arith
starts_with-le [] (y ∷ label) h = cc
starts_with-le (x ∷ suffix) (y ∷ label) h = ground (arith, starts_with-le suffix label)

abbrev EdgeFits : Bytes → Bytes × ℕ → Type 0
EdgeFits suffix (label, child) = length label ≤ length suffix

child_edge_loop-Safe :
    (entries : ℕ) (trie : Bytes) (cursor : ℕ) (suffix : Bytes)
    → cursor ≤ length trie
    → Safe (EdgeFits suffix) (child_edge_loop entries trie cursor suffix)
unfolding child_edge_loop
child_edge_loop-Safe zero trie cursor suffix h = failed
child_edge_loop-Safe (suc entries) trie cursor suffix h =
    Safe-bind (edge_read-Safe trie cursor h) λ (label, child, cursor') inside.
      elim (Bool-cases (not (is_empty label) && starts_with suffix label)) [
        | inl found ↦ rw found (safe (starts_with-le suffix label (ground arith)))
        | inr other ↦ rw other (child_edge_loop-Safe entries trie cursor' suffix inside)
      ]

pub get_elem?-ok : (xs : Bytes) (i : ℕ) → i < length xs → (x : ℕ) × (get_elem? xs i ≡ some x)
get_elem?-ok [] i h = elim h [ ]
get_elem?-ok (x ∷ xs) zero h = (x, refl)
get_elem?-ok (x ∷ xs) (suc i) h = get_elem?-ok xs i (omega arith)

pub child_edge-Safe :
    (trie : Bytes) (node : TrieNodeReader) (suffix : Bytes)
    → IsNode trie node
    → Safe (EdgeFits suffix) (child_edge_matching_prefix_find node suffix)
unfolding child_edge_matching_prefix_find
child_edge-Safe trie node suffix h =
    let (count, e) = get_elem?-ok trie node.child_edges_start_offset h.edges in
    rw (h.bytes, e)
      (child_edge_loop-Safe count trie (node.child_edges_start_offset + 1) suffix
        (omega (arith, h.edges)))

pub strip-ok :
    (suffix label : Bytes)
    → length label ≤ length suffix
    → strip suffix label ≡ ok (drop (length label) suffix)
strip-ok suffix label h = rw (get_from-ok suffix (length label) h)

walk_loop-Safe :
    (budget : ℕ) (trie : Bytes) (offset : ℕ) (suffix : Bytes)
    → Safe (λ (t : ExportTerminal). Unit {0}) (walk_loop budget trie offset suffix)
unfolding walk_loop
walk_loop-Safe zero trie offset suffix = failed
walk_loop-Safe (suc budget) trie offset suffix = Safe-bind (open_node-Safe trie offset) λ node h.
    elim (Bool-cases (is_empty suffix && has_terminal_payload node)) [
      | inl done ↦ rw done (terminal_payload_read-Safe trie node h)
      | inr more ↦ rw more (
          Safe-bind (child_edge-Safe trie node suffix h) λ (label, child) fits.
            rw (strip-ok suffix label fits)
              (walk_loop-Safe budget trie child (drop (length label) suffix)))
    ]

-- The walk ends on every trie and every symbol without a panic: malformed bytes, a payload whose size
-- leaves the trie and a cycle of nodes all end in an answer, a terminal or none.
pub exports_trie_walk-IsTotal :
    (trie symbol : Bytes) → IsTotal (exports_trie_walk_for_symbol trie symbol)
unfolding exports_trie_walk_for_symbol
exports_trie_walk-IsTotal trie symbol = Safe-IsTotal (walk_loop-Safe (length trie) trie 0 symbol)
