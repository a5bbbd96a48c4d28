-- ===== src/Store/Neo4j/Repair/Termination.antt =====
-- store/neo4j.go: RepairDuplicateAccounts ends, with one node to an address and all flows kept.
use forensic_listener.Prelude.{
  All, ℕ, zero, suc, ◌+◌, ◌≤◌, ◌<◌, String, ◌≡◌, refl, ◌∙◌, Bool, true, false, List, [], ◌∷◌, arith,
  ◌==◌, if◌then◌else◌, length, Bool-cases, inl, inr,
}
use forensic_listener.Store.Address.{AddressLib}
use forensic_listener.Store.Neo4j.{EdgeKey}
use forensic_listener.Store.Neo4j.Repair.{
  IdGraph, ids_of, DuplicateGroup, Progress, RepairResult, finished, failed, out_of_fuel,
  repair_round, after_round, after_query, repair_loop, duplicate_account_groups,
  repair_duplicate_accounts,
}
use forensic_listener.Store.Neo4j.Repair.Flows.{has_flow}
use forensic_listener.Store.Neo4j.Repair.Queries.{
  IsSound, IsDuplicate, AreDistinct, query-IsDuplicate, query-none,
}
use forensic_listener.Store.Neo4j.Repair.Rounds.{round-Kept, round-lt}

-- The same edges between the same addresses.
abbrev pub SameFlows : IdGraph → IdGraph → Type 0
SameFlows g h = (k : EdgeKey) (x y : String) → has_flow k x y h ≡ has_flow k x y g

-- The end of a repair of `g`: all flows are kept; if it finished, no address has two nodes; if it did
-- not, some call of the database failed.
abbrev pub EndsRepaired : (ℕ → Bool) → IdGraph → RepairResult → Type 0
EndsRepaired fails g (finished p) =
    SameFlows g p.graph × ((a : String) → length (ids_of a p.graph.nodes) ≤ 1)
EndsRepaired fails g (failed p) = SameFlows g p.graph × (n : ℕ) × (fails n ≡ true)
EndsRepaired fails g out_of_fuel = ⊥

module _ (lib : AddressLib) (fails : ℕ → Bool) (batch : ℕ) (g : IdGraph)
    (some_batch : 1 ≤ batch) where
  -- The outcome of a round, given what the loop makes of the progress after it.
  round_ends :
      (again : Progress → RepairResult) (r : Progress × Bool)
      → SameFlows g r.0.graph
      → (r.1 ≡ true → (n : ℕ) × (fails n ≡ true))
      → (r.1 ≡ false → EndsRepaired fails g (again r.0))
      → EndsRepaired fails g (after_round again r)
  round_ends again (p, true) same broke go = let (n, e) = broke refl in (same, n, e)
  round_ends again (p, false) same broke go = go refl

  round_broke :
      (gs : List DuplicateGroup) (p : Progress)
      → (repair_round lib fails gs p).1 ≡ true
      → (n : ℕ) × (fails n ≡ true)
  unfolding repair_round
  round_broke [] p h = cc
  round_broke (d ∷ ds) p h = elim (Bool-cases (fails p.calls)) [
    | inl e ↦ (p.calls, e)
    | inr e ↦ round_broke ds _ (rw e at h)
  ]

  query_ends :
      (again : Progress → RepairResult) (gs : List DuplicateGroup) (p : Progress)
      → All (IsDuplicate lib p.graph.nodes) gs
      → AreDistinct gs
      → IsSound lib p.graph.nodes
      → SameFlows g p.graph
      → (gs ≡ [] → (a : String) → length (ids_of a p.graph.nodes) ≤ 1)
      → ((q : Progress)
          → IsSound lib q.graph.nodes
          → SameFlows g q.graph
          → length q.graph.nodes < length p.graph.nodes
          → EndsRepaired fails g (again q))
      → EndsRepaired fails g (after_query lib again fails gs p)
  query_ends again [] p h d s same clean go = (same, clean refl)
  query_ends again (x ∷ xs) p h d s same clean go =
      let kept = round-Kept lib fails (x ∷ xs) p h d s in
      let flows : SameFlows g (repair_round lib fails (x ∷ xs) p).0.graph =
        λ k a b. kept.flows k a b ∙ same k a b in
      round_ends again (repair_round lib fails (x ∷ xs) p) flows (round_broke (x ∷ xs) p)
        (λ e. go _ kept.sound flows (round-lt lib fails x xs p h d s e))

  loop_ends :
      (fuel : ℕ) (p : Progress)
      → IsSound lib p.graph.nodes
      → SameFlows g p.graph
      → length p.graph.nodes < fuel
      → EndsRepaired fails g (repair_loop lib fuel fails batch p)
  unfolding repair_loop
  loop_ends zero p s same n = absurd (omega arith)
  loop_ends (suc fuel) p s same n = elim (Bool-cases (fails p.calls)) [
    | inl e ↦ rw e (same, p.calls, e)
    | inr e ↦
        let (listed, distinct) = query-IsDuplicate lib batch p.graph.nodes s in
        rw e (
          query_ends (repair_loop lib fuel fails batch)
            (duplicate_account_groups lib batch p.graph.nodes) (record p { calls = p.calls + 1 })
            listed distinct s same (query-none lib batch p.graph.nodes s some_batch)
            (λ q sound flows less. loop_ends fuel q sound flows (omega arith)))
  ]

-- Of a graph whose ids are unique and whose addresses are canonical, the repair ends within one round
-- for each node and one more, whatever the batch and whichever calls fail. It keeps all edges between
-- addresses and adds none; where no call fails, no address has two nodes at its end.
pub repair_ends :
    (lib : AddressLib) (fails : ℕ → Bool) (batch_size : ℕ) (g : IdGraph)
    → IsSound lib g.nodes
    → EndsRepaired fails g (repair_duplicate_accounts lib (length g.nodes + 1) fails batch_size g)
unfolding repair_duplicate_accounts
repair_ends lib fails batch_size g s =
    loop_ends lib fails (if batch_size == 0 then 100 else batch_size) g (ground arith)
      (length g.nodes + 1) _ s (λ k x y. refl) (omega arith)
