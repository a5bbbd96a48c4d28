-- ===== src/Store/Neo4j/Repair/Flows.antt =====
-- store/neo4j.go: seen by addresses, repairAccountGroup leaves the graph as it is.
use forensic_listener.Prelude.{
  ℕ, String, ◌≡◌, refl, sym, ap, ◌∙◌, Bool, true, false, ◌&&◌, ◌||◌, not, Option, none, some, List,
  [], ◌∷◌, map, arith, str_eq, eq_iff, ◌==◌, ==_iff, if◌then◌else◌, any, keep, Bool-cases, inl, inr,
}
use forensic_listener.Store.Neo4j.{EdgeKey, key_eq}
use forensic_listener.Store.Neo4j.Repair.{
  IdNode, Rel, IdGraph, is_in, absorb, detach_delete, merge_group,
}
use forensic_listener.Store.Neo4j.Repair.Moves.{has_rel, rep, joins}
use forensic_listener.Store.Neo4j.Repair.Exact.{views-find, views-has, moves-views, Bool-antisym}

-- The address of a node.
unfoldable pub address_of : ℕ → List IdNode → Option String
address_of i [] = none
address_of i (n ∷ ns) = if n.id == i then some n.address else address_of i ns

abbrev pub is_at : String → Option String → Bool
is_at a none = false
is_at a (some b) = str_eq b a

-- The graph by its addresses: an edge of this key leads from one address to the other.
unfoldable pub has_flow : EdgeKey → String → String → IdGraph → Bool
has_flow k a b g =
    any
      (λ (e : Rel).
        key_eq e.key k
        && is_at a (address_of e.from_id g.nodes)
        && is_at b (address_of e.to_id g.nodes))
      g.rels

module _ (nodes : List IdNode) (k : EdgeKey) (a b : String) where
  abbrev flows_in : List Rel → Bool
  flows_in = any (λ (e : Rel).
      key_eq e.key k && is_at a (address_of e.from_id nodes) && is_at b (address_of e.to_id nodes))

  flows-find :
      (es : List Rel)
      → flows_in es ≡ true
      → (s t : ℕ) × (has_rel k s t es ≡ true)
        × (is_at a (address_of s nodes) ≡ true)
        × (is_at b (address_of t nodes) ≡ true)
  unfolding has_rel
  flows-find [] h = cc
  flows-find (e ∷ es) h =
      elim (Bool-cases (
        key_eq e.key k
        && is_at a (address_of e.from_id nodes)
        && is_at b (address_of e.to_id nodes))) [
          | inl here ↦ (e.from_id, e.to_id, ground arith, ground arith, ground arith)
          | inr other ↦
              let (s, t, i, u, v) = flows-find es (rw other at h) in (s, t, ground arith, u, v)
        ]

  flows-has :
      (s t : ℕ) (es : List Rel)
      → has_rel k s t es ≡ true
      → is_at a (address_of s nodes) ≡ true
      → is_at b (address_of t nodes) ≡ true
      → flows_in es ≡ true
  unfolding has_rel
  flows-has s t [] h u v = cc
  flows-has s t (e ∷ es) h u v = elim (Bool-cases (joins k s t e)) [
    | inl here ↦
        let p : e.from_id ≡ s = ground arith in
        let q : e.to_id ≡ t = ground arith in rw (p, q, u, v) (ground arith)
    | inr other ↦ let ih = flows-has s t es (rw other at h) u v in ground arith
  ]

abbrev absorbed_one : ℕ → String → Bool → IdNode → IdNode
absorbed_one survivor address c n =
    if n.id == survivor then record n { address = address; is_contract = n.is_contract || c } else n

module _ (survivor : ℕ) (dups : List ℕ) (address : String) (c : Bool) where
  abbrev left : List IdNode → List IdNode
  left nodes =
      keep (λ (n : IdNode). not (is_in dups n.id)) (map (absorbed_one survivor address c) nodes)

  address-left :
      (i : ℕ) (nodes : List IdNode)
      → is_in dups i ≡ false
      → (survivor == i) ≡ false
      → address_of i (left nodes) ≡ address_of i nodes
  unfolding address_of
  address-left i [] h d = refl
  address-left i (n ∷ ns) h d = elim (Bool-cases (n.id == i)) [
    | inl same ↦
        let q : n.id ≡ i = ground arith in
        let out : is_in dups n.id ≡ false = rw q h in
        let other : (n.id == survivor) ≡ false = ground arith in rw (other, out, same) refl
    | inr apart ↦ elim (Bool-cases (n.id == survivor)) [
      | inl s ↦ elim (Bool-cases (is_in dups n.id)) [
        | inl gone ↦ rw (s, gone, apart) (address-left i ns h d)
        | inr stay ↦ rw (s, stay, apart) (address-left i ns h d)
      ]
      | inr s ↦ elim (Bool-cases (is_in dups n.id)) [
        | inl gone ↦ rw (s, gone, apart) (address-left i ns h d)
        | inr stay ↦ rw (s, stay, apart) (address-left i ns h d)
      ]
    ]
  ]

  address-left_survivor :
      (nodes : List IdNode) (b : String)
      → is_in dups survivor ≡ false
      → address_of survivor nodes ≡ some b
      → address_of survivor (left nodes) ≡ some address
  unfolding address_of
  address-left_survivor [] b h e = cc
  address-left_survivor (n ∷ ns) b h e = elim (Bool-cases (n.id == survivor)) [
    | inl same ↦
        let q : n.id ≡ survivor = ground arith in
        let out : is_in dups n.id ≡ false = rw q h in rw (same, out, same) refl
    | inr apart ↦ elim (Bool-cases (is_in dups n.id)) [
      | inl gone ↦ rw (apart, gone) (address-left_survivor ns b h (rw apart at e))
      | inr stay ↦ rw (apart, stay, apart) (address-left_survivor ns b h (rw apart at e))
    ]
  ]

-- All these nodes are there, and have this address.
abbrev pub IsGroup : String → List ℕ → List IdNode → Type 0
IsGroup a ids nodes = (i : ℕ) → is_in ids i ≡ true → address_of i nodes ≡ some a

module _ (survivor : ℕ) (dups : List ℕ) (a : String) (g : IdGraph)
    (out : is_in dups survivor ≡ false) (members : IsGroup a (survivor ∷ dups) g.nodes) where
  abbrev merged_nodes : List IdNode
  merged_nodes =
      left survivor dups a (any (λ (m : IdNode). is_in dups m.id && m.is_contract) g.nodes) g.nodes

  address-merged : (i : ℕ) → is_in dups i ≡ false → address_of i merged_nodes ≡ address_of i g.nodes
  address-merged i h = elim (Bool-cases (survivor == i)) [
    | inr d ↦ address-left survivor dups a _ i g.nodes h d
    | inl s ↦
        let q : survivor ≡ i = (==_iff survivor i).0 s in
        let m : address_of survivor g.nodes ≡ some a = members survivor (ground arith) in
        rw (← q) (address-left_survivor survivor dups a _ g.nodes a out m ∙ sym m)
  ]

  address-rep : (i : ℕ) → address_of (rep survivor dups i) merged_nodes ≡ address_of i g.nodes
  address-rep i = elim (Bool-cases (is_in dups i)) [
    | inr stay ↦ rw stay (address-merged i stay)
    | inl gone ↦ rw gone (
        address-merged survivor out
        ∙ members survivor (ground arith)
        ∙ sym (members i (ground arith)))
  ]

  -- Merging a group of nodes of one address changes no flow between addresses.
  pub merge_group-flow :
      (k : EdgeKey) (x y : String)
      → has_flow k x y (merge_group survivor dups a g) ≡ has_flow k x y g
  unfolding has_flow merge_group detach_delete absorb
  merge_group-flow k x y = elim (Bool-cases (any (λ (n : IdNode). n.id == survivor) g.nodes)) [
    | inr gone ↦ rw gone refl
    | inl here ↦ rw here (
        Bool-antisym _ _
          (λ h.
            let (s, t, i, u, v) = flows-find merged_nodes k x y _ h in
            let (p, q, j, b, c) =
              views-find survivor dups k s t g.rels
                (sym (moves-views survivor dups k s t g.rels out) ∙ i) in
            flows-has g.nodes k x y p q g.rels j (carried p s x b u) (carried q t y c v))
          (λ h.
            let (p, q, j, u, v) = flows-find g.nodes k x y g.rels h in
            let s = rep survivor dups p in
            let t = rep survivor dups q in
            flows-has merged_nodes k x y s t _
              (moves-views survivor dups k s t g.rels out
                ∙ views-has survivor dups k s t p q g.rels j refl refl)
              (ap (is_at x) (address-rep p) ∙ u) (ap (is_at y) (address-rep q) ∙ v)))
  ]
    where
      carried :
          (p s : ℕ) (z : String)
          → rep survivor dups p ≡ s
          → is_at z (address_of s merged_nodes) ≡ true
          → is_at z (address_of p g.nodes) ≡ true
      carried p s z b u =
          let w : is_at z (address_of (rep survivor dups p) merged_nodes) ≡ true = rw b u in
          sym (ap (is_at z) (address-rep p)) ∙ w

  -- Another group stays one.
  pub merge_group-IsGroup :
      (b : String) (ids : List ℕ)
      → str_eq b a ≡ false
      → IsGroup b ids g.nodes
      → IsGroup b ids (merge_group survivor dups a g).nodes
  unfolding merge_group detach_delete absorb
  merge_group-IsGroup b ids d m =
      elim (Bool-cases (any (λ (n : IdNode). n.id == survivor) g.nodes)) [
        | inr gone ↦ λ i h. rw gone (m i h)
        | inl here ↦ λ i h. rw here (address-merged i (apart i (m i h)) ∙ m i h)
      ]
    where
      apart : (i : ℕ) → address_of i g.nodes ≡ some b → is_in dups i ≡ false
      apart i e = elim (Bool-cases (is_in dups i)) [
        | inr f ↦ f
        | inl f ↦
            let c : address_of i g.nodes ≡ some a = members i (ground arith) in
            let q : b ≡ a = cc in cc ((eq_iff b a).1 q)
      ]
