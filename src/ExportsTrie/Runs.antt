-- ===== src/ExportsTrie/Runs.antt =====
-- A trie of two nodes that exports `_a` at offset 16, and the theorems at it.
use dynld.Prelude.{
  ℕ, ◌≡◌, refl, sym, ap, ◌∙◌, ◌≢◌, ◌⊎◌, inl, inr, [], ◌∷◌, arith, some_injective, Bytes,
  ok_injective, IsTotal, ok, err,
}
use mathlib.Core.Path.{subst}
use dynld.Container.{nul_position}
use dynld.Container.Uleb.{read_uleb128}
use dynld.ExportsTrie.{
  defined_here, TrieNodeReader, open_node, has_terminal_payload, terminal_payload_read,
}
use dynld.ExportsTrie.{
  edge_read, starts_with, child_edge_loop, child_edge_matching_prefix_find, walk_loop,
}
use dynld.ExportsTrie.{exports_trie_walk_for_symbol}
use dynld.ExportsTrie.Bounds.{exports_trie_walk-IsTotal}
use dynld.ExportsTrie.Spells.{HasEdge, here, there, NodeEdge, Spells, exports_trie_walk-Spells}
use dynld.ExportsTrie.Complete.{Reached, root, child_of, IsUnambiguous, exports_trie_walk-finds}

abbrev trie : Bytes
trie = 0 ∷ 1 ∷ b'_' ∷ b'a' ∷ 0 ∷ 6 ∷ 2 ∷ 0 ∷ 16 ∷ 0 ∷ []

abbrev symbol : Bytes
symbol = b'_' ∷ b'a' ∷ []

found : exports_trie_walk_for_symbol trie symbol ≡ ok (defined_here 16)
unfolding exports_trie_walk_for_symbol walk_loop open_node read_uleb128 has_terminal_payload
    terminal_payload_read child_edge_matching_prefix_find child_edge_loop edge_read nul_position
    starts_with
found = refl

missing : exports_trie_walk_for_symbol trie (b'_' ∷ []) ≡ err tt
unfolding exports_trie_walk_for_symbol walk_loop open_node read_uleb128 has_terminal_payload
    terminal_payload_read child_edge_matching_prefix_find child_edge_loop edge_read nul_position
    starts_with
missing = refl

exports_trie_walk-IsTotal_example : IsTotal (exports_trie_walk_for_symbol trie symbol)
exports_trie_walk-IsTotal_example = exports_trie_walk-IsTotal trie symbol

exports_trie_walk-Spells_example : Spells trie (defined_here 16) 0 symbol 10
exports_trie_walk-Spells_example = exports_trie_walk-Spells trie symbol (defined_here 16) found

abbrev root_node : TrieNodeReader
root_node = record {
  trie_bytes = trie;
  child_edges_start_offset = 1;
  terminal_payload_start_offset = 1;
  terminal_payload_size_in_bytes = 0;
}

abbrev leaf_node : TrieNodeReader
leaf_node = record {
  trie_bytes = trie;
  child_edges_start_offset = 9;
  terminal_payload_start_offset = 7;
  terminal_payload_size_in_bytes = 2;
}

root_opens : open_node trie 0 ≡ ok root_node
unfolding open_node read_uleb128
root_opens = refl

leaf_opens : open_node trie 6 ≡ ok leaf_node
unfolding open_node read_uleb128
leaf_opens = refl

root_edge : edge_read trie 2 ≡ ok (symbol, 6, 6)
unfolding edge_read read_uleb128 nul_position
root_edge = refl

-- An edge of a table with one entry is that entry.
one_entry :
    {label label' : Bytes} {child child' cursor next entries : ℕ}
    → HasEdge trie label child entries cursor
    → entries ≡ 1
    → edge_read trie cursor ≡ ok (label', child', next)
    → (label ≡ label') × (child ≡ child')
one_entry (here e) one e' =
    let q = ok_injective (sym e ∙ e') in
    (ap (λ (x : Bytes × ℕ × ℕ). x.0) q, ap (λ (x : Bytes × ℕ × ℕ). x.1) q)
one_entry (there e (here e'')) one e' = absurd (omega arith)
one_entry (there e (there e'' more)) one e' = absurd (omega arith)

-- The root has the one edge, and the leaf none.
root_only :
    (label : Bytes) (child : ℕ)
    → NodeEdge trie root_node label child
    → (label ≡ symbol) × (child ≡ 6)
root_only label child edge = one_entry edge.listed (sym (some_injective edge.counted)) root_edge

no_entry :
    {label : Bytes} {child cursor entries : ℕ}
    → HasEdge trie label child entries cursor
    → entries ≢ 0
no_entry (here e) = λ z. cc
no_entry (there e more) = λ z. cc

leaf_none : (label : Bytes) (child : ℕ) → NodeEdge trie leaf_node label child → ⊥
leaf_none label child edge = no_entry edge.listed (sym (some_injective edge.counted))

at_root :
    {offset child : ℕ} {node : TrieNodeReader} {label : Bytes}
    → offset ≡ 0
    → open_node trie offset ≡ ok node
    → NodeEdge trie node label child
    → (label ≡ symbol) × (child ≡ 6)
at_root {child} {label} z e edge =
    root_only label child
      (subst (λ n. NodeEdge trie n label child) (ok_injective (sym (rw z at e) ∙ root_opens)) edge)

at_leaf :
    {offset child : ℕ} {node : TrieNodeReader} {label : Bytes}
    → offset ≡ 6
    → open_node trie offset ≡ ok node
    → NodeEdge trie node label child
    → ⊥
at_leaf {child} {label} z e edge =
    leaf_none label child
      (subst (λ n. NodeEdge trie n label child) (ok_injective (sym (rw z at e) ∙ leaf_opens)) edge)

root_or_leaf : {offset : ℕ} → Reached trie offset → (offset ≡ 0) ⊎ (offset ≡ 6)
root_or_leaf root = inl refl
root_or_leaf (child_of r e edge proper) = elim (root_or_leaf r) [
  | inl z ↦ inr (at_root z e edge).1
  | inr z ↦ absurd (at_leaf z e edge)
]

trie-IsUnambiguous : IsUnambiguous trie
trie-IsUnambiguous offset node label label' suffix child child' r e edge edge' _ _ _ _ =
    elim (root_or_leaf r) [
      | inl z ↦ (
        (at_root z e edge).0 ∙ sym (at_root z e edge').0,
        (at_root z e edge).1 ∙ sym (at_root z e edge').1,
      )
      | inr z ↦ absurd (at_leaf z e edge)
    ]

exports_trie_walk-finds_example : exports_trie_walk_for_symbol trie symbol ≡ ok (defined_here 16)
exports_trie_walk-finds_example =
    exports_trie_walk-finds trie symbol (defined_here 16) trie-IsUnambiguous
      exports_trie_walk-Spells_example
