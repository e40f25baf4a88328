-- ===== src/ExportsTrie/Complete.antt =====
-- The walk finds every symbol of a trie in which a symbol leaves a node by one edge at most.
use dynld.Prelude.{
  ℕ, zero, suc, ◌+◌, ◌≤◌, ◌≡◌, refl, sym, ap, ◌∙◌, inl, inr, true, false, not, ◌&&◌, [], ◌∷◌, ◌++◌,
  arith, Bool-cases, length, drop, length-append, Bytes, Maybe, Safe-eq-ok, ok,
}
use mathlib.Core.Path.{ap₂}
use dynld.ExportsTrie.{ExportTerminal, TrieNodeReader, open_node}
use dynld.ExportsTrie.{
  starts_with, is_empty, child_edge_loop, child_edge_matching_prefix_find, strip, walk_loop,
}
use dynld.ExportsTrie.{exports_trie_walk_for_symbol}
use dynld.ExportsTrie.Bounds.{open_node-Safe, strip-ok}
use dynld.ExportsTrie.Spells.{
  HasEdge, here, there, NodeEdge, Spells, ends, follows, child_edge_loop-Matching,
}

-- The nodes that the edges reach from the root.
pub data Reached (trie : Bytes) : ℕ → Type 0 where
  root : Reached trie 0
  child_of :
      {offset child : ℕ} {node : TrieNodeReader} {label : Bytes}
      → Reached trie offset
      → open_node trie offset ≡ ok node
      → NodeEdge trie node label child
      → is_empty label ≡ false
      → Reached trie child

-- No symbol can leave a reached node by two edges.
abbrev pub IsUnambiguous : Bytes → Type 0
IsUnambiguous trie =
    (offset : ℕ) (node : TrieNodeReader) (label label' suffix : Bytes) (child child' : ℕ)
    → Reached trie offset
    → open_node trie offset ≡ ok node
    → NodeEdge trie node label child
    → NodeEdge trie node label' child'
    → is_empty label ≡ false
    → is_empty label' ≡ false
    → starts_with suffix label ≡ true
    → starts_with suffix label' ≡ true
    → (label ≡ label') × (child ≡ child')

starts_with-append : (label rest : Bytes) → starts_with (label ++ rest) label ≡ true
unfolding starts_with
starts_with-append [] [] = refl
starts_with-append [] (x ∷ rest) = refl
starts_with-append (x ∷ label) rest = ground (arith, starts_with-append label rest)

drop-append : (label rest : Bytes) → drop (length label) (label ++ rest) ≡ rest
drop-append [] rest = refl
drop-append (x ∷ label) rest = drop-append label rest

abbrev Found : Maybe (Bytes × ℕ) → Type 0
Found m = (p : Bytes × ℕ) × (m ≡ ok p)

child_edge_loop-Found :
    {trie label : Bytes} {child entries cursor : ℕ} (suffix : Bytes)
    → HasEdge trie label child entries cursor
    → is_empty label ≡ false
    → starts_with suffix label ≡ true
    → Found (child_edge_loop entries trie cursor suffix)
unfolding child_edge_loop
child_edge_loop-Found {label} {child} suffix (here e) proper begins =
    ((label, child), rw (e, proper, begins))
child_edge_loop-Found {trie} suffix (there {entries} {next} {child'} {label'} e more) proper
      begins =
    elim (Bool-cases (not (is_empty label') && starts_with suffix label')) [
      | inl found ↦ ((label', child'), rw (e, found))
      | inr other ↦
          let (p, again) = child_edge_loop-Found suffix more proper begins in
          (p, rw (e, other) again)
    ]

module _ (trie : Bytes) (unambiguous : IsUnambiguous trie) where
  -- The search takes the edge that the symbol takes.
  child_edge-follows :
      (offset : ℕ) (node : TrieNodeReader) (label rest : Bytes) (child : ℕ)
      → Reached trie offset
      → open_node trie offset ≡ ok node
      → NodeEdge trie node label child
      → is_empty label ≡ false
      → child_edge_matching_prefix_find node (label ++ rest) ≡ ok (label, child)
  unfolding child_edge_matching_prefix_find
  child_edge-follows offset node label rest child r e edge proper =
      let same : node.trie_bytes ≡ trie = (Safe-eq-ok (open_node-Safe trie offset) e).bytes in
      let suffix : Bytes = label ++ rest in
      let ((label', child'), found) =
        child_edge_loop-Found suffix edge.listed proper (starts_with-append label rest) in
      let m =
        child_edge_loop-Matching edge.entries trie (node.child_edges_start_offset + 1) suffix label'
          child' found in
      let edge' : NodeEdge trie node label' child' = record {
        entries = edge.entries;
        counted = edge.counted;
        listed = m.listed;
      } in
      let (p, q) =
        unambiguous offset node label label' suffix child child' r e edge edge' proper m.proper
          (starts_with-append label rest) m.begins in
      rw (same, edge.counted) (found ∙ ap₂ (λ l c. ok (l, c)) (sym p) (sym q))

  walk_loop-finds :
      {t : ExportTerminal} {offset visits : ℕ} {suffix : Bytes} (budget : ℕ)
      → Reached trie offset
      → Spells trie t offset suffix visits
      → visits ≤ budget
      → walk_loop budget trie offset suffix ≡ ok t
  unfolding walk_loop
  walk_loop-finds zero r (ends node e nil payload read) h = absurd (omega arith)
  walk_loop-finds zero r (follows node label rest child e edge proper split more) h =
      absurd (omega arith)
  walk_loop-finds (suc budget) r (ends node e nil payload read) h = rw (e, nil, payload) read
  walk_loop-finds {offset} (suc budget) r (follows node label rest child e edge proper split more)
        h =
      rw
        (
          e,
          split,
          not-empty label rest proper,
          child_edge-follows offset node label rest child r e edge proper,
          strip-append label rest,
        )
        (walk_loop-finds budget (child_of r e edge proper) more (omega arith))
    where
      not-empty : (label rest : Bytes) → is_empty label ≡ false → is_empty (label ++ rest) ≡ false
      not-empty [] rest p = cc
      not-empty (x ∷ label) rest p = refl

      strip-append : (label rest : Bytes) → strip (label ++ rest) label ≡ ok rest
      strip-append label rest =
          strip-ok (label ++ rest) label (omega (arith, length-append label rest))
          ∙ ap ok (drop-append label rest)

-- In a trie where no symbol can leave a reached node by two edges, the walk returns every terminal
-- whose path spells the symbol over at most as many nodes as the trie has bytes.
pub exports_trie_walk-finds :
    (trie symbol : Bytes) (t : ExportTerminal)
    → IsUnambiguous trie
    → Spells trie t 0 symbol (length trie)
    → exports_trie_walk_for_symbol trie symbol ≡ ok t
unfolding exports_trie_walk_for_symbol
exports_trie_walk-finds trie symbol t unambiguous s =
    walk_loop-finds trie unambiguous (length trie) root s (omega arith)
