-- ===== src/ExportsTrie/Spells.antt =====
-- What an exports trie says, as a relation on its nodes and edges, and that the walk follows it.
use dynld.Prelude.{
  ℕ, zero, suc, ◌+◌, ◌≡◌, refl, ap, inl, inr, true, false, not, ◌&&◌, Option, none, some, [], ◌∷◌,
  ◌++◌, arith, Bool-cases, length, get_elem?, drop, Bytes, Maybe, unwrap, ok_injective, Safe-eq-ok,
  by_bind, Outcome, ok,
}
use mathlib.Core.Path.{subst}
use dynld.ExportsTrie.{
  ExportTerminal, TrieNodeReader, open_node, has_terminal_payload, terminal_payload_read,
}
use dynld.ExportsTrie.{
  edge_read, starts_with, is_empty, child_edge_loop, child_edge_matching_prefix_find, walk_loop,
}
use dynld.ExportsTrie.{exports_trie_walk_for_symbol}
use dynld.ExportsTrie.Bounds.{open_node-Safe, child_edge-Safe, strip-ok}

-- Among `entries` entries of an edge table, the first at `cursor`, one has this label and child.
pub data HasEdge (trie : Bytes) (label : Bytes) (child : ℕ) : (entries cursor : ℕ) → Type 0 where
  here :
      {entries cursor next : ℕ}
      → edge_read trie cursor ≡ ok (label, child, next)
      → HasEdge trie label child (suc entries) cursor
  there :
      {entries cursor next child' : ℕ} {label' : Bytes}
      → edge_read trie cursor ≡ ok (label', child', next)
      → HasEdge trie label child entries next
      → HasEdge trie label child (suc entries) cursor

-- The edge table of a node starts with the number of its entries.
pub record NodeEdge (trie : Bytes) (node : TrieNodeReader) (label : Bytes) (child : ℕ)
    : Type 0 where
  pub entries : ℕ
  pub counted : get_elem? trie node.child_edges_start_offset ≡ some entries
  pub listed : HasEdge trie label child entries (node.child_edges_start_offset + 1)

-- From the node at `offset`, labels that spell `suffix` lead through `visits` nodes to a terminal.
pub data Spells (trie : Bytes) (t : ExportTerminal)
    : (offset : ℕ) (suffix : Bytes) (visits : ℕ) → Type 0 where
  ends :
      {offset : ℕ} {suffix : Bytes} {visits : ℕ} (node : TrieNodeReader)
      → open_node trie offset ≡ ok node
      → suffix ≡ []
      → has_terminal_payload node ≡ true
      → terminal_payload_read node ≡ ok t
      → Spells trie t offset suffix (suc visits)
  follows :
      {offset : ℕ} {suffix : Bytes} {visits : ℕ} (node : TrieNodeReader) (label rest : Bytes)
      (child : ℕ)
      → open_node trie offset ≡ ok node
      → NodeEdge trie node label child
      → is_empty label ≡ false
      → suffix ≡ label ++ rest
      → Spells trie t child rest visits
      → Spells trie t offset suffix (suc visits)

pub starts_with-split :
    (suffix label : Bytes)
    → starts_with suffix label ≡ true
    → suffix ≡ label ++ drop (length label) suffix
unfolding starts_with
starts_with-split suffix [] h = refl
starts_with-split [] (y ∷ label) h = cc
starts_with-split (x ∷ suffix) (y ∷ label) h = ground (arith, starts_with-split suffix label)

is_empty→nil : (xs : Bytes) → is_empty xs ≡ true → xs ≡ []
is_empty→nil [] h = refl
is_empty→nil (x ∷ xs) h = cc

unwrap-eq-ok {ℓ} :
    {E : Type 0} {A : Type ℓ} (o : Option A) {a : A}
    → ◌≡◌ {A = Outcome E A} (unwrap o) (ok a)
    → o ≡ some a
unwrap-eq-ok none h = cc
unwrap-eq-ok (some a) h = ap some (ok_injective h)

-- An edge that the search returns: listed, with a label that is not empty and begins the suffix.
pub record Matching (trie : Bytes) (suffix label : Bytes) (child entries cursor : ℕ) : Type 0 where
  pub listed : HasEdge trie label child entries cursor
  pub proper : is_empty label ≡ false
  pub begins : starts_with suffix label ≡ true

Matching-there :
    {trie suffix label label' : Bytes} {child child' entries cursor next : ℕ}
    → edge_read trie cursor ≡ ok (label', child', next)
    → Matching trie suffix label child entries next
    → Matching trie suffix label child (suc entries) cursor
Matching-there e m = record { listed = there e m.listed; proper = m.proper; begins = m.begins }

Matching-here :
    {trie suffix label label' : Bytes} {child child' entries cursor next : ℕ}
    → edge_read trie cursor ≡ ok (label', child', next)
    → (not (is_empty label') && starts_with suffix label') ≡ true
    → ◌≡◌ {A = Maybe (Bytes × ℕ)} (ok (label', child')) (ok (label, child))
    → Matching trie suffix label child (suc entries) cursor
Matching-here {trie} {suffix} {entries} {cursor} e found same =
    subst (λ (p : Bytes × ℕ). Matching trie suffix p.0 p.1 (suc entries) cursor) (ok_injective same)
      (record { listed = here e; proper = ground arith; begins = ground arith })

pub child_edge_loop-Matching :
    (entries : ℕ) (trie : Bytes) (cursor : ℕ) (suffix label : Bytes) (child : ℕ)
    → child_edge_loop entries trie cursor suffix ≡ ok (label, child)
    → Matching trie suffix label child entries cursor
unfolding child_edge_loop
child_edge_loop-Matching zero trie cursor suffix label child h = cc
child_edge_loop-Matching (suc entries) trie cursor suffix label child h =
    by_bind (edge_read trie cursor) _ h λ (label', child', next) e h'.
      elim (Bool-cases (not (is_empty label') && starts_with suffix label')) [
        | inl found ↦ Matching-here e found (rw found at h')
        | inr other ↦
            Matching-there e
              (child_edge_loop-Matching entries trie next suffix label child (rw other at h'))
      ]

child_edge-NodeEdge :
    (trie : Bytes) (node : TrieNodeReader) (suffix label : Bytes) (child : ℕ)
    → node.trie_bytes ≡ trie
    → child_edge_matching_prefix_find node suffix ≡ ok (label, child)
    → NodeEdge trie node label child × (is_empty label ≡ false) × (starts_with suffix label ≡ true)
unfolding child_edge_matching_prefix_find
child_edge-NodeEdge trie node suffix label child same h =
    by_bind (unwrap (get_elem? node.trie_bytes node.child_edges_start_offset)) _ h λ count e h'.
      let m : Matching trie suffix label child count (node.child_edges_start_offset + 1) =
        child_edge_loop-Matching count trie _ suffix label child (rw same at h') in
      (
        record { entries = count; counted = rw same at (unwrap-eq-ok _ e); listed = m.listed },
        m.proper,
        m.begins,
      )

walk_loop-Spells :
    (budget : ℕ) (trie : Bytes) (offset : ℕ) (suffix : Bytes) (t : ExportTerminal)
    → walk_loop budget trie offset suffix ≡ ok t
    → Spells trie t offset suffix budget
unfolding walk_loop
walk_loop-Spells zero trie offset suffix t h = cc
walk_loop-Spells (suc budget) trie offset suffix t h =
    by_bind (open_node trie offset) _ h λ node e h'.
      elim (Bool-cases (is_empty suffix && has_terminal_payload node)) [
        | inl done ↦ ends node e (is_empty→nil suffix (ground arith)) (ground arith) (rw done at h')
        | inr more ↦
            by_bind (child_edge_matching_prefix_find node suffix) _ (rw more at h')
              λ (label, child) e' h''.
                let same = (Safe-eq-ok (open_node-Safe trie offset) e).bytes in
                let (edge, proper, begins) =
                  child_edge-NodeEdge trie node suffix label child same e' in
                let fits =
                  Safe-eq-ok
                    (child_edge-Safe trie node suffix (Safe-eq-ok (open_node-Safe trie offset) e))
                    e' in
                follows node label (drop (length label) suffix) child e edge proper
                  (starts_with-split suffix label begins)
                  (walk_loop-Spells budget trie child (drop (length label) suffix) t
                    (rw (strip-ok suffix label fits) at h''))
      ]

-- A terminal that the walk returns is the payload of a node that the trie's own edges reach from the
-- root by labels that spell the symbol, over at most as many nodes as the trie has bytes.
pub exports_trie_walk-Spells :
    (trie symbol : Bytes) (t : ExportTerminal)
    → exports_trie_walk_for_symbol trie symbol ≡ ok t
    → Spells trie t 0 symbol (length trie)
unfolding exports_trie_walk_for_symbol
exports_trie_walk-Spells trie symbol t h = walk_loop-Spells (length trie) trie 0 symbol t h
