-- ===== src/Store/Neo4j/Merge.antt =====
-- store/neo4j.go: writing to the graph again adds nothing, and token edges never touch the zero address.
use forensic_listener.Prelude.{
  ℕ, String, ◌≡◌, refl, ap, Bool, true, false, ◌&&◌, Option, none, some, List, [], ◌∷◌, arith,
  str_eq, eq_refl, leb, if◌then◌else◌, Bool-cases, inl, inr, All,
}
use mathlib.Core.Path.{ap₂}
use forensic_listener.Models.{Transaction, TokenTransfer}
use forensic_listener.Store.Address.{AddressLib, normalize_address}
use forensic_listener.Store.Neo4j.{
  Node, Edge, EdgeKey, sent, transferred, Graph, later_seen, merge_node, key_eq, is_edge,
  merge_edge, merge_transfer, sent_edge, transferred_edge, graph_transaction, graph_transfers,
  is_flow_end,
}

abbrev was_seen : ℕ → Option ℕ → Bool
was_seen ts none = false
was_seen ts (some t) = leb ts t

-- The node of this address was seen at this time or later.
abbrev node_seen : ℕ → String → List Node → Bool
node_seen ts a [] = false
node_seen ts a (n ∷ ns) = if str_eq n.address a then was_seen ts n.last_seen else node_seen ts a ns

was_seen-later : (ts : ℕ) (o : Option ℕ) → was_seen ts (later_seen ts o) ≡ true
was_seen-later ts none = ground arith
was_seen-later ts (some t) = ground arith

was_seen-keeps :
    (ts : ℕ) (o : Option ℕ) → was_seen ts o ≡ true → was_seen ts (later_seen ts o) ≡ true
was_seen-keeps ts o h = was_seen-later ts o

later_seen-fixed : (ts : ℕ) (o : Option ℕ) → was_seen ts o ≡ true → later_seen ts o ≡ o
later_seen-fixed ts none h = cc
later_seen-fixed ts (some t) h = ap some (ground arith)

seen-merge_node :
    (ts : ℕ) (a : String) (ns : List Node) → node_seen ts a (merge_node ts a ns) ≡ true
unfolding merge_node
seen-merge_node ts a [] = rw (eq_refl a) (ground arith)
seen-merge_node ts a (n ∷ ns) = elim (Bool-cases (str_eq n.address a)) [
  | inl e ↦ rw (e, e) (was_seen-later ts n.last_seen)
  | inr e ↦ rw (e, e) (seen-merge_node ts a ns)
]

seen-keeps :
    (ts : ℕ) (a b : String) (ns : List Node)
    → node_seen ts a ns ≡ true
    → node_seen ts a (merge_node ts b ns) ≡ true
unfolding merge_node
seen-keeps ts a b [] h = cc
seen-keeps ts a b (n ∷ ns) h = elim (Bool-cases (str_eq n.address b)) [
  | inl e ↦ elim (Bool-cases (str_eq n.address a)) [
    | inl f ↦ rw (e, f) (was_seen-later ts n.last_seen)
    | inr f ↦ rw (e, f) (rw f at h)
  ]
  | inr e ↦ elim (Bool-cases (str_eq n.address a)) [
    | inl f ↦ rw (e, f) (rw f at h)
    | inr f ↦ rw (e, f) (seen-keeps ts a b ns (rw f at h))
  ]
]

merge_node-seen :
    (ts : ℕ) (a : String) (ns : List Node) → node_seen ts a ns ≡ true → merge_node ts a ns ≡ ns
unfolding merge_node
merge_node-seen ts a [] h = cc
merge_node-seen ts a (n ∷ ns) h = elim (Bool-cases (str_eq n.address a)) [
  | inl e ↦ rw e (
      ap (λ (o : Option ℕ). record n { last_seen = o } ∷ ns)
        (later_seen-fixed ts n.last_seen (rw e at h)))
  | inr e ↦ rw e (ap (λ t. n ∷ t) (merge_node-seen ts a ns (rw e at h)))
]

key_eq_refl : (k : EdgeKey) → key_eq k k ≡ true
unfolding key_eq
key_eq_refl (sent h) = eq_refl h
key_eq_refl (transferred h i) = ground (arith, eq_refl h)

is_edge_refl : (e : Edge) → is_edge e e ≡ true
unfolding is_edge
is_edge_refl e = rw (key_eq_refl e.key, eq_refl e.source, eq_refl e.target) refl

merge_edge-again : (e : Edge) (es : List Edge) → merge_edge e (merge_edge e es) ≡ merge_edge e es
unfolding merge_edge
merge_edge-again e [] = rw (is_edge_refl e) refl
merge_edge-again e (f ∷ fs) = elim (Bool-cases (is_edge e f)) [
  | inl same ↦ rw (same, is_edge_refl e) refl
  | inr other ↦ rw (other, other) (ap (λ t. f ∷ t) (merge_edge-again e fs))
]

abbrev with_edges : List Node → List Edge → Graph
with_edges ns es = record { nodes = ns; edges = es }

merge_transfer-again :
    (e : Edge) (g : Graph) → merge_transfer e (merge_transfer e g) ≡ merge_transfer e g
unfolding merge_transfer
merge_transfer-again e g =
    let ns = merge_node e.timestamp e.target (merge_node e.timestamp e.source g.nodes) in
    let s =
      seen-keeps e.timestamp e.source e.target _ (seen-merge_node e.timestamp e.source g.nodes) in
    let t = seen-merge_node e.timestamp e.target (merge_node e.timestamp e.source g.nodes) in
    rw (merge_node-seen e.timestamp e.source ns s)
      (ap₂ with_edges (merge_node-seen e.timestamp e.target ns t) (merge_edge-again e g.edges))

All-merge_edge :
    (P : Edge → Type 0) (e : Edge) (es : List Edge) → P e → All P es → All P (merge_edge e es)
unfolding merge_edge
All-merge_edge P e [] p h = (p, tt)
All-merge_edge P e (f ∷ fs) p h = elim (Bool-cases (is_edge e f)) [
  | inl same ↦ rw same (p, h.1)
  | inr other ↦ rw other (h.0, All-merge_edge P e fs p h.1)
]

-- A token edge joins two addresses, neither of them empty nor the zero address.
abbrev pub is_flow_between : EdgeKey → String → String → Bool
is_flow_between (sent h) source target = true
is_flow_between (transferred h i) source target = is_flow_end source && is_flow_end target

abbrev pub is_flow : Edge → Bool
is_flow e = is_flow_between e.key e.source e.target

abbrev pub IsFlowGraph : Graph → Type 0
IsFlowGraph g = All (λ (e : Edge). is_flow e ≡ true) g.edges

module _ (lib : AddressLib) where
  -- Enriching a transaction again, as a retried job does, leaves the graph as it is.
  pub graph_transaction_again :
      (tx : Transaction) (g : Graph)
      → graph_transaction lib tx (graph_transaction lib tx g) ≡ graph_transaction lib tx g
  unfolding graph_transaction
  graph_transaction_again tx g = elim (Bool-cases (str_eq (normalize_address lib tx.to) "")) [
    | inl e ↦ rw e refl
    | inr e ↦ rw e (merge_transfer-again (sent_edge lib tx) g)
  ]

  transfers-IsFlowGraph :
      (ts : List TokenTransfer) (g : Graph) → IsFlowGraph g → IsFlowGraph (graph_transfers lib ts g)
  unfolding graph_transfers merge_transfer transferred_edge
  transfers-IsFlowGraph [] g h = h
  transfers-IsFlowGraph (t ∷ ts) g h =
      elim (Bool-cases
        (is_flow_end (normalize_address lib t.from) && is_flow_end (normalize_address lib t.to))) [
          | inl e ↦
              rw (graph_transfers, e)
                (transfers-IsFlowGraph ts (merge_transfer (transferred_edge lib t) g)
                  (All-merge_edge _ (transferred_edge lib t) g.edges e h))
          | inr e ↦ rw (graph_transfers, e) (transfers-IsFlowGraph ts g h)
        ]

  transaction-IsFlowGraph :
      (tx : Transaction) (g : Graph) → IsFlowGraph g → IsFlowGraph (graph_transaction lib tx g)
  unfolding graph_transaction merge_transfer sent_edge
  transaction-IsFlowGraph tx g h = elim (Bool-cases (str_eq (normalize_address lib tx.to) "")) [
    | inl e ↦ rw e h
    | inr e ↦ rw e (All-merge_edge _ (sent_edge lib tx) g.edges refl h)
  ]

  -- Neither transactions nor token transfers, whatever they are, add a token edge that has the zero
  -- address or no address at an end.
  pub graph_transfers-IsFlowGraph :
      (ts : List TokenTransfer) (tx : Transaction) (g : Graph)
      → IsFlowGraph g
      → IsFlowGraph (graph_transfers lib ts (graph_transaction lib tx g))
  graph_transfers-IsFlowGraph ts tx g h =
      transfers-IsFlowGraph ts (graph_transaction lib tx g) (transaction-IsFlowGraph tx g h)
