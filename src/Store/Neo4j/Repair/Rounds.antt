-- ===== src/Store/Neo4j/Repair/Rounds.antt =====
-- store/neo4j.go: RepairDuplicateAccounts ends, with one node to an address and all flows kept.
use forensic_listener.Prelude.{
  ℕ, ◌≤◌, ◌<◌, String, ◌≡◌, refl, ◌∙◌, Bool, false, ◌&&◌, ◌||◌, not, List, [], ◌∷◌, map, arith,
  ◌==◌, if◌then◌else◌, any, keep, length, All, Bool-cases, inl, inr,
}
use forensic_listener.Store.Address.{AddressLib}
use forensic_listener.Store.Neo4j.{EdgeKey}
use forensic_listener.Store.Neo4j.Repair.{
  IdNode, IdGraph, is_in, absorb, detach_delete, merge_group, merge_sorted, sort_ids,
  DuplicateGroup, Progress, repair_account_group, counted, repair_round,
}
use forensic_listener.Store.Neo4j.Repair.Flows.{has_flow}
use forensic_listener.Store.Neo4j.Repair.Groups.{
  with_id, repaired-flow, repaired-IsGroup, repaired-lt, repaired-le,
}
use forensic_listener.Store.Neo4j.Repair.Queries.{
  UniqueIds, names, AreDistinct, IsCanonical, IsSound, IsDuplicate,
}

module _ (survivor : ℕ) (dups : List ℕ) (a : String) (c : Bool) where
  abbrev left : List IdNode → List IdNode
  left ns =
      keep (λ (n : IdNode). not (is_in dups n.id))
        (map
          (λ (n : IdNode).
            if n.id == survivor
            then record n { address = a; is_contract = n.is_contract || c }
            else n)
          ns)

  left-with_id : (i : ℕ) (ns : List IdNode) → with_id i ns ≡ false → with_id i (left ns) ≡ false
  left-with_id i [] h = refl
  left-with_id i (n ∷ ns) h = ground (arith, left-with_id i ns)

  left-UniqueIds : (ns : List IdNode) → UniqueIds ns → UniqueIds (left ns)
  left-UniqueIds [] u = tt
  left-UniqueIds (n ∷ ns) u =
      let fresh = left-with_id n.id ns u.0 in
      let rest = left-UniqueIds ns u.1 in
      elim (Bool-cases (n.id == survivor)) [
        | inl s ↦ elim (Bool-cases (is_in dups n.id)) [
          | inl d ↦ rw (s, d) rest
          | inr d ↦ rw (s, d) (fresh, rest)
        ]
        | inr s ↦ elim (Bool-cases (is_in dups n.id)) [
          | inl d ↦ rw (s, d) rest
          | inr d ↦ rw (s, d) (fresh, rest)
        ]
      ]

  left-All :
      (P : String → Type 0) (ns : List IdNode)
      → P a
      → All (λ (n : IdNode). P n.address) ns
      → All (λ (n : IdNode). P n.address) (left ns)
  left-All P [] p h = tt
  left-All P (n ∷ ns) p h =
      let rest = left-All P ns p h.1 in
      elim (Bool-cases (n.id == survivor)) [
        | inl s ↦ elim (Bool-cases (is_in dups n.id)) [
          | inl d ↦ rw (s, d) rest
          | inr d ↦ rw (s, d) (p, rest)
        ]
        | inr s ↦ elim (Bool-cases (is_in dups n.id)) [
          | inl d ↦ rw (s, d) rest
          | inr d ↦ rw (s, d) (h.0, rest)
        ]
      ]

module _ (lib : AddressLib) where
  merged-IsSound :
      (survivor : ℕ) (dups : List ℕ) (a : String) (g : IdGraph)
      → IsCanonical lib a
      → IsSound lib g.nodes
      → IsSound lib (merge_group survivor dups a g).nodes
  unfolding merge_group detach_delete absorb
  merged-IsSound survivor dups a g n s = elim (Bool-cases (with_id survivor g.nodes)) [
    | inr gone ↦ rw gone s
    | inl here ↦
        let c = any (λ (m : IdNode). is_in dups m.id && m.is_contract) g.nodes in
        rw here (record {
          unique = left-UniqueIds survivor dups a c g.nodes s.unique;
          canonical = left-All survivor dups a c (IsCanonical lib) g.nodes n s.canonical;
        })
  ]

  sorted-IsSound :
      (a : String) (ids : List ℕ) (g : IdGraph)
      → IsCanonical lib a
      → IsSound lib g.nodes
      → IsSound lib (merge_sorted a ids g).0.nodes
  sorted-IsSound a [] g n s = s
  sorted-IsSound a (i ∷ []) g n s = s
  sorted-IsSound a (i ∷ d ∷ ds) g n s = merged-IsSound i (d ∷ ds) a g n s

  pub repaired-IsSound :
      (a : String) (ids : List ℕ) (g : IdGraph)
      → IsCanonical lib a
      → IsSound lib g.nodes
      → IsSound lib (repair_account_group lib a ids g).0.nodes
  unfolding repair_account_group
  repaired-IsSound a ids g n s = rw (n.0, n.1) (sorted-IsSound a (sort_ids ids) g n s)

  counted-graph : (p : Progress) (r : IdGraph × ℕ) → (counted p r).graph ≡ r.0
  counted-graph p (g, d) = elim (Bool-cases (d == 0)) [ inl e ↦ rw e refl | inr e ↦ rw e refl ]

  abbrev repaired : DuplicateGroup → Progress → Progress
  repaired g p = counted p (repair_account_group lib g.address g.node_ids p.graph)

  -- The same flows, on a sound graph with no more nodes.
  pub record Kept (p q : Progress) : Type 0 where
    pub sound : IsSound lib q.graph.nodes
    pub flows : (k : EdgeKey) (x y : String) → has_flow k x y q.graph ≡ has_flow k x y p.graph
    pub fewer : length q.graph.nodes ≤ length p.graph.nodes

  repaired-Kept :
      (g : DuplicateGroup) (p : Progress)
      → IsDuplicate lib p.graph.nodes g
      → IsSound lib p.graph.nodes
      → Kept p (repaired g p)
  repaired-Kept g p d s =
      let r = repair_account_group lib g.address g.node_ids p.graph in
      let same = counted-graph p r in
      record {
        sound = rw same (repaired-IsSound g.address g.node_ids p.graph d.named s);
        flows = λ k x y.
            rw same
              (repaired-flow lib g.address g.node_ids p.graph d.named.0 d.members k x y d.once);
        fewer = rw same (repaired-le lib g.address g.node_ids p.graph);
      }

  still_duplicates :
      (g : DuplicateGroup) (p : Progress) (hs : List DuplicateGroup)
      → IsDuplicate lib p.graph.nodes g
      → names g.address hs ≡ false
      → All (IsDuplicate lib p.graph.nodes) hs
      → All (IsDuplicate lib (repaired g p).graph.nodes) hs
  still_duplicates g p [] d n h = tt
  still_duplicates g p (k ∷ ks) d n h =
      let r = repair_account_group lib g.address g.node_ids p.graph in
      let one : IsDuplicate lib (repaired g p).graph.nodes k = record {
        members = rw (counted-graph p r) (
            repaired-IsGroup lib g.address g.node_ids p.graph d.named.0 d.members k.address
              k.node_ids d.once (ground arith) h.0.members);
        once = h.0.once;
        named = h.0.named;
        several = h.0.several;
      } in
      (one, still_duplicates g p ks d (ground arith) h.1)

  pub round-Kept :
      (fails : ℕ → Bool) (gs : List DuplicateGroup) (p : Progress)
      → All (IsDuplicate lib p.graph.nodes) gs
      → AreDistinct gs
      → IsSound lib p.graph.nodes
      → Kept p (repair_round lib fails gs p).0
  unfolding repair_round
  round-Kept fails [] p h d s = record { sound = s; flows = λ k x y. refl; fewer = omega arith }
  round-Kept fails (g ∷ gs) p h d s = elim (Bool-cases (fails p.calls)) [
    | inl e ↦ rw e (record { sound = s; flows = λ k x y. refl; fewer = omega arith })
    | inr e ↦
        let one = repaired-Kept g p h.0 s in
        let rest =
          round-Kept fails gs (repaired g p) (still_duplicates g p gs h.0 d.0 h.1) d.1 one.sound in
        rw e (record {
          sound = rest.sound;
          flows = λ k x y. rest.flows k x y ∙ one.flows k x y;
          fewer = let a = rest.fewer in let b = one.fewer in omega arith;
        })
  ]

  -- A round that goes through leaves fewer nodes.
  pub round-lt :
      (fails : ℕ → Bool) (g : DuplicateGroup) (gs : List DuplicateGroup) (p : Progress)
      → All (IsDuplicate lib p.graph.nodes) (g ∷ gs)
      → AreDistinct (g ∷ gs)
      → IsSound lib p.graph.nodes
      → (repair_round lib fails (g ∷ gs) p).1 ≡ false
      → length (repair_round lib fails (g ∷ gs) p).0.graph.nodes < length p.graph.nodes
  unfolding repair_round
  round-lt fails g gs p h d s ok = elim (Bool-cases (fails p.calls)) [
    | inl e ↦ cc (rw e at ok)
    | inr e ↦
        let r = repair_account_group lib g.address g.node_ids p.graph in
        let one = repaired-Kept g p h.0 s in
        let rest =
          round-Kept fails gs (repaired g p) (still_duplicates g p gs h.0 d.0 h.1) d.1 one.sound in
        let n : length (repaired g p).graph.nodes < length p.graph.nodes = rw (counted-graph p r) (
          repaired-lt lib g.address g.node_ids p.graph h.0.named.0 h.0.members h.0.named.1
            h.0.several) in
        rw e (let b = rest.fewer in omega arith)
  ]
