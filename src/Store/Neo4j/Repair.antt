-- ===== src/Store/Neo4j/Repair.antt =====
-- store/neo4j.go: the repair of duplicate Account nodes, over a graph whose nodes have ids.
pub mod Moves
pub mod Redirect
pub mod Exact
pub mod Flows
pub mod Groups
pub mod Queries
pub mod Rounds
pub mod Termination
pub mod Schema
mod Tests
use Prim.Native.Nat.{Ordering}
use Prim.Native.String.{compare}
use forensic_listener.Prelude.{
  ℕ, zero, suc, ◌+◌, ◌-◌, String, Bool, true, false, ◌&&◌, ◌||◌, not, Option, none, some, List, [],
  ◌∷◌, map, str_eq, ltb, leb, ◌==◌, if◌then◌else◌, length, any, keep, take,
}
use forensic_listener.Store.Address.{AddressLib, normalize_address}
use forensic_listener.Store.Neo4j.{EdgeKey, Kind, eth, token, kind_of, key_eq}

-- A node by its id. The edges below refer to these ids.
pub record IdNode : Type 0 where
  pub id : ℕ
  pub address : String
  pub is_contract : Bool

pub record Rel : Type 0 where
  pub key : EdgeKey
  pub from_id : ℕ
  pub to_id : ℕ
  pub timestamp : ℕ
  pub amount : ℕ
  pub token : String
  pub nonce : ℕ

pub record IdGraph : Type 0 where
  pub nodes : List IdNode
  pub rels : List Rel

abbrev pub is_in : List ℕ → ℕ → Bool
is_in ids i = any (λ j. j == i) ids

-- The pattern of MERGE: the same ends and the same key.
unfoldable pub is_rel : Rel → Rel → Bool
is_rel e f = key_eq f.key e.key && f.from_id == e.from_id && f.to_id == e.to_id

-- MERGE (a)-[merged {key}]->(b) SET merged += properties(r)
unfoldable pub merge_rel : Rel → List Rel → List Rel
merge_rel e [] = e ∷ []
merge_rel e (f ∷ fs) = if is_rel e f then e ∷ fs else f ∷ merge_rel e fs

unfoldable pub merge_rels : List Rel → List Rel → List Rel
merge_rels [] es = es
merge_rels (r ∷ rs) es = merge_rels rs (merge_rel r es)

abbrev pub is_kind : Kind → EdgeKey → Bool
is_kind eth k = elim (kind_of k) [ eth ↦ true | token ↦ false ]
is_kind token k = elim (kind_of k) [ eth ↦ false | token ↦ true ]

-- CALL { OPTIONAL MATCH (dup)-[r]->(target) MERGE (keep)-[merged]->(target) ... }
unfoldable pub move_out : Kind → ℕ → ℕ → List Rel → List Rel
move_out kind survivor d es =
    merge_rels
      (map (λ (r : Rel). record r { from_id = survivor })
        (keep (λ (r : Rel). is_kind kind r.key && r.from_id == d) es))
      es

-- CALL { OPTIONAL MATCH (source)-[r]->(dup) MERGE (source)-[merged]->(keep) ... }
unfoldable pub move_in : Kind → ℕ → ℕ → List Rel → List Rel
move_in kind survivor d es =
    merge_rels
      (map (λ (r : Rel). record r { to_id = survivor })
        (keep (λ (r : Rel). is_kind kind r.key && r.to_id == d) es))
      es

-- A clause runs for each row, and the next clause after it.
unfoldable pub move_each : (ℕ → List Rel → List Rel) → List ℕ → List Rel → List Rel
move_each move [] es = es
move_each move (d ∷ ds) es = move_each move ds (move d es)

unfoldable pub move_rels : ℕ → List ℕ → List Rel → List Rel
move_rels survivor dups es = move_each (move_in token survivor) dups (
    move_each (move_out token survivor) dups
      (move_each (move_in eth survivor) dups (move_each (move_out eth survivor) dups es)))

-- SET keep.address = ..., keep.is_contract = ... OR ...
unfoldable pub absorb : ℕ → List ℕ → String → List IdNode → List IdNode
absorb survivor dups address nodes =
    map
      (λ (n : IdNode).
        if n.id == survivor
        then record n {
          address = address;
          is_contract =
              n.is_contract || any (λ (m : IdNode). is_in dups m.id && m.is_contract) nodes;
        }
        else n)
      nodes

-- DETACH DELETE dup
unfoldable pub detach_delete : List ℕ → IdGraph → IdGraph
detach_delete dups g = record {
  nodes = keep (λ (n : IdNode). not (is_in dups n.id)) g.nodes;
  rels = keep (λ (r : Rel). not (is_in dups r.from_id) && not (is_in dups r.to_id)) g.rels;
}

-- The query of repairAccountGroup; without the node to keep it does nothing.
unfoldable pub merge_group : ℕ → List ℕ → String → IdGraph → IdGraph
merge_group survivor dups address g =
    if any (λ (n : IdNode). n.id == survivor) g.nodes
    then detach_delete dups (record {
      nodes = absorb survivor dups address g.nodes;
      rels = move_rels survivor dups g.rels;
    })
    else g

-- sort.Slice by id
unfoldable pub insert_id : ℕ → List ℕ → List ℕ
insert_id i [] = i ∷ []
insert_id i (j ∷ js) = if leb i j then i ∷ j ∷ js else j ∷ insert_id i js

unfoldable pub sort_ids : List ℕ → List ℕ
sort_ids [] = []
sort_ids (i ∷ is) = insert_id i (sort_ids is)

abbrev pub merge_sorted : String → List ℕ → IdGraph → IdGraph × ℕ
merge_sorted address [] g = (g, 0)
merge_sorted address (survivor ∷ []) g = (g, 0)
merge_sorted address (survivor ∷ d ∷ ds) g =
    (merge_group survivor (d ∷ ds) address g, length (d ∷ ds))

-- collect(id(acct)) of an address
unfoldable pub ids_of : String → List IdNode → List ℕ
ids_of a [] = []
ids_of a (n ∷ ns) = let rest = ids_of a ns in if str_eq n.address a then n.id ∷ rest else rest

unfoldable pub distinct_of : List IdNode → List String
distinct_of [] = []
distinct_of (n ∷ ns) =
    let rest = distinct_of ns in
    if any (λ a. str_eq a n.address) rest then rest else n.address ∷ rest

pub record DuplicateGroup : Type 0 where
  pub address : String
  pub node_ids : List ℕ

abbrev pub text_before : String → String → Bool
text_before a b = elim (compare a b) [ Ordering.lt ↦ true | _ ↦ false ]

-- ORDER BY size(node_ids) DESC, address ASC
abbrev pub group_before : DuplicateGroup → DuplicateGroup → Bool
group_before g h =
    ltb (length h.node_ids) (length g.node_ids)
    || (length h.node_ids == length g.node_ids && text_before g.address h.address)

unfoldable pub insert_group : DuplicateGroup → List DuplicateGroup → List DuplicateGroup
insert_group g [] = g ∷ []
insert_group g (h ∷ hs) = if group_before g h then g ∷ h ∷ hs else h ∷ insert_group g hs

unfoldable pub sort_groups : List DuplicateGroup → List DuplicateGroup
sort_groups [] = []
sort_groups (g ∷ gs) = insert_group g (sort_groups gs)

-- WHERE size(node_ids) > 1
unfoldable pub groups_of : List IdNode → List String → List DuplicateGroup
groups_of nodes [] = []
groups_of nodes (a ∷ more) =
    let rest = groups_of nodes more in
    let ids = ids_of a nodes in
    if ltb 1 (length ids) then record { address = a; node_ids = ids } ∷ rest else rest

pub record Progress : Type 0 where
  pub graph : IdGraph
  pub repaired_groups : ℕ
  pub repaired_nodes : ℕ
  pub calls : ℕ

abbrev pub counted : Progress → IdGraph × ℕ → Progress
counted p (g, deleted) =
    if deleted == 0 then record p { graph = g; calls = p.calls + 1 } else record p {
      graph = g;
      repaired_groups = p.repaired_groups + 1;
      repaired_nodes = p.repaired_nodes + deleted;
      calls = p.calls + 1;
    }

pub data RepairResult : Type 0 where
  finished : Progress → RepairResult
  failed : Progress → RepairResult
  out_of_fuel : RepairResult

abbrev pub after_round : (Progress → RepairResult) → Progress × Bool → RepairResult
after_round again (p, true) = failed p
after_round again (p, false) = again p

module _ (lib : AddressLib) where
  -- repairAccountGroup, where the database answers: the graph and the nodes deleted.
  unfoldable pub repair_account_group : String → List ℕ → IdGraph → IdGraph × ℕ
  repair_account_group address ids g =
      let a = normalize_address lib address in
      if str_eq a "" then (g, 0) else merge_sorted a (sort_ids ids) g

  -- repairDuplicateAccountAddress with accountNodeIDsByAddress
  unfoldable pub repair_address : String → IdGraph → IdGraph × ℕ
  repair_address address g =
      repair_account_group address (sort_ids (ids_of (normalize_address lib address) g.nodes)) g

  -- The loop over the records of duplicateAccountGroups.
  unfoldable pub usable_groups : List DuplicateGroup → List DuplicateGroup
  usable_groups [] = []
  usable_groups (g ∷ gs) =
      let a = normalize_address lib g.address in
      let rest = usable_groups gs in
      if not (str_eq a "") && ltb 1 (length g.node_ids)
      then record { address = a; node_ids = g.node_ids } ∷ rest
      else rest

  unfoldable pub duplicate_account_groups : ℕ → List IdNode → List DuplicateGroup
  duplicate_account_groups limit nodes =
      usable_groups (take limit (sort_groups (groups_of nodes (distinct_of nodes))))

  -- The inner loop; the Boolean says that a repair failed. `fails n` says that the n-th call of the
  -- database fails.
  unfoldable pub repair_round : (ℕ → Bool) → List DuplicateGroup → Progress → Progress × Bool
  repair_round fails [] p = (p, false)
  repair_round fails (g ∷ gs) p =
      let next =
        repair_round fails gs (counted p (repair_account_group g.address g.node_ids p.graph)) in
      if fails p.calls then (p, true) else next

  abbrev pub after_query :
      (Progress → RepairResult) → (ℕ → Bool) → List DuplicateGroup → Progress → RepairResult
  after_query again fails [] p = finished p
  after_query again fails (g ∷ gs) p = after_round again (repair_round fails (g ∷ gs) p)

  -- The loop of RepairDuplicateAccounts. That the context has ended counts as a call that fails.
  unfoldable pub repair_loop : ℕ → (ℕ → Bool) → ℕ → Progress → RepairResult
  repair_loop zero fails batch p = out_of_fuel
  repair_loop (suc fuel) fails batch p =
      if fails p.calls
      then failed p
      else after_query (repair_loop fuel fails batch) fails
          (duplicate_account_groups batch p.graph.nodes) (record p { calls = p.calls + 1 })

  -- RepairDuplicateAccounts
  unfoldable pub repair_duplicate_accounts : ℕ → (ℕ → Bool) → ℕ → IdGraph → RepairResult
  repair_duplicate_accounts fuel fails batch_size g =
      repair_loop fuel fails (if batch_size == 0 then 100 else batch_size)
        (record { graph = g; repaired_groups = 0; repaired_nodes = 0; calls = 0 })

-- DuplicateAccountSummary: the groups, and the nodes that are too many.
unfoldable pub extra_nodes : List DuplicateGroup → ℕ
extra_nodes [] = 0
extra_nodes (g ∷ gs) = (length g.node_ids - 1) + extra_nodes gs

unfoldable pub duplicate_account_summary : IdGraph → ℕ × ℕ
duplicate_account_summary g =
    let groups = groups_of g.nodes (distinct_of g.nodes) in (length groups, extra_nodes groups)
