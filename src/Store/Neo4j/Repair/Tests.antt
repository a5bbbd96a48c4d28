-- ===== src/Store/Neo4j/Repair/Tests.antt =====
-- store/neo4j.go: the repair of a graph in which two nodes have one address and send to each other.
use forensic_listener.Prelude.{
  Bool, arith, ◌+◌, ◌≡◌, refl, true, false, ◌&&◌, not, [], ◌∷◌, ◌==◌, length, keep,
}
use forensic_listener.Store.Fixtures.{lib}
use forensic_listener.Store.Address.{normalize_address, trim_space, is_space}
use forensic_listener.Store.Neo4j.{sent, transferred}
use forensic_listener.Store.Neo4j.Repair.{
  IdNode, Rel, IdGraph, is_in, move_rels, repair_account_group, repair_duplicate_accounts,
  duplicate_account_summary, groups_of, extra_nodes, distinct_of, ids_of,
}
use forensic_listener.Store.Neo4j.Repair.Moves.{has_rel, views}
use forensic_listener.Store.Neo4j.Repair.Exact.{moves-views}
use forensic_listener.Store.Neo4j.Repair.Flows.{has_flow, address_of}
use forensic_listener.Store.Neo4j.Repair.Groups.{repaired-flow}
use forensic_listener.Store.Neo4j.Repair.Queries.{IsSound}
use forensic_listener.Store.Neo4j.Repair.Termination.{EndsRepaired, repair_ends}

abbrev node_7 : IdNode
node_7 = record {
  id = 7;
  address = "0xAAAAAAAAAAAAAAAAAAAAAAAAAAAAAAAAAAAAAAAA";
  is_contract = false;
}

abbrev node_4 : IdNode
node_4 = record {
  id = 4;
  address = "0xBBBBBBBBBBBBBBBBBBBBBBBBBBBBBBBBBBBBBBBB";
  is_contract = false;
}

abbrev node_2 : IdNode
node_2 = record {
  id = 2;
  address = "0xAAAAAAAAAAAAAAAAAAAAAAAAAAAAAAAAAAAAAAAA";
  is_contract = true;
}

abbrev self_payment : Rel
self_payment = record {
  key = sent "h";
  from_id = 7;
  to_id = 2;
  timestamp = 10;
  amount = 5;
  token = "";
  nonce = 1;
}

abbrev token_payment : Rel
token_payment = record self_payment { key = transferred "t" 0; from_id = 4; to_id = 7 }

abbrev doubled : IdGraph
doubled = record { nodes = node_7 ∷ node_4 ∷ node_2 ∷ []; rels = self_payment ∷ token_payment ∷ [] }

one_too_many : duplicate_account_summary doubled ≡ (1, 1)
unfolding duplicate_account_summary groups_of extra_nodes distinct_of ids_of
one_too_many = refl

abbrev is_live : Rel → Bool
is_live r = not (is_in (7 ∷ []) r.from_id) && not (is_in (7 ∷ []) r.to_id)

moves-views_example :
    has_rel (sent "h") 2 2 (keep is_live (move_rels 2 (7 ∷ []) doubled.rels))
    ≡ views 2 (7 ∷ []) (sent "h") 2 2 doubled.rels
moves-views_example = moves-views 2 (7 ∷ []) (sent "h") 2 2 doubled.rels refl

doubled-IsSound : IsSound lib doubled.nodes
unfolding normalize_address trim_space is_space
doubled-IsSound = record { unique = ground arith; canonical = ground arith }

repaired-flow_applied :
    has_flow
      (sent "h")
      "0xAAAAAAAAAAAAAAAAAAAAAAAAAAAAAAAAAAAAAAAA"
      "0xAAAAAAAAAAAAAAAAAAAAAAAAAAAAAAAAAAAAAAAA"
      (repair_account_group lib "0xAAAAAAAAAAAAAAAAAAAAAAAAAAAAAAAAAAAAAAAA" (7 ∷ 2 ∷ []) doubled).0
    ≡ has_flow
        (sent "h")
        "0xAAAAAAAAAAAAAAAAAAAAAAAAAAAAAAAAAAAAAAAA"
        "0xAAAAAAAAAAAAAAAAAAAAAAAAAAAAAAAAAAAAAAAA"
        doubled
unfolding normalize_address trim_space is_space address_of
repaired-flow_applied =
    repaired-flow lib "0xAAAAAAAAAAAAAAAAAAAAAAAAAAAAAAAAAAAAAAAA" (7 ∷ 2 ∷ []) doubled refl
      (ground arith) (sent "h") "0xAAAAAAAAAAAAAAAAAAAAAAAAAAAAAAAAAAAAAAAA"
      "0xAAAAAAAAAAAAAAAAAAAAAAAAAAAAAAAAAAAAAAAA" (refl, (refl, tt))

repair_ends_example :
    EndsRepaired
      (λ n. n == 3)
      doubled
      (repair_duplicate_accounts lib (length doubled.nodes + 1) (λ n. n == 3) 0 doubled)
repair_ends_example = repair_ends lib (λ n. n == 3) 0 doubled doubled-IsSound
