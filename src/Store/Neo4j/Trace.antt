-- ===== src/Store/Neo4j/Trace.antt =====
-- store/neo4j.go: FlowTypes, TracePath and TopHubs, by the meaning of their Cypher.
pub mod Paths
mod Tests
use forensic_listener.Prelude.{
  ℕ, zero, suc, ◌+◌, String, Bool, true, false, ◌&&◌, ◌||◌, not, Option, none, some, List, [], ◌∷◌,
  map, str_eq, ◌==◌, if◌then◌else◌, any, keep, take, length,
}
use forensic_listener.Store.Address.{AddressLib, normalize_address}
use forensic_listener.Store.Neo4j.{
  Graph, Node, Edge, Kind, eth, token, kind_of, hash_of, end_of, nodes_of, shortest, clamp,
}
use forensic_listener.Store.Neo4j.Repair.{text_before}
use forensic_listener.Store.Postgres.Pages.{newest}

-- FlowTypes: whether a relationship type is in the expression for a flow.
abbrev pub is_eth : Kind → Bool
is_eth eth = true
is_eth token = false

unfoldable pub flow_types : String → Kind → Bool
flow_types flows kind =
    if str_eq flows "eth"
    then is_eth kind
    else if str_eq flows "token"
    then not (is_eth kind)
    else true

abbrev pub flow_edges : String → List Edge → List Edge
flow_edges flows es = keep (λ (e : Edge). flow_types flows (kind_of e.key)) es

-- models.AddressTrace; each edge stands for its GraphEdge.
pub record AddressTrace : Type 0 where
  pub from : String
  pub to : String
  pub hops : ℕ
  pub path : List String
  pub transaction_hashes : List String
  pub edges : List Edge

unfoldable pub trace_of : String → String → List Edge → AddressTrace
trace_of from to p = record {
  from = from;
  to = to;
  hops = length p;
  path = nodes_of from p;
  transaction_hashes = map (λ (e : Edge). hash_of e.key) p;
  edges = p;
}

abbrev pub ends_at : String → String → List Edge → Bool
ends_at from to p = str_eq (end_of from p) to

abbrev pub has_account_node : String → Graph → Bool
has_account_node a g = any (λ (n : Node). str_eq n.address a) g.nodes

abbrev pub trace_result : String → String → Option (List Edge) → Option AddressTrace
trace_result from to none = none
trace_result from to (some p) = some (trace_of from to p)

-- shortestPath((src)-[:types*1..max]->(dst))
unfoldable pub shortest_path : String → String → ℕ → String → List Edge → Option (List Edge)
shortest_path from to max_hops flows es =
    shortest (clamp max_hops 1 6) 1 (ends_at from to) from (flow_edges flows es)

-- TracePath, where the database answers.
unfoldable pub trace_path : AddressLib → String → String → ℕ → String → Graph → Option AddressTrace
trace_path lib from to max_hops flows g =
    let a = normalize_address lib from in
    let b = normalize_address lib to in
    if str_eq a "" || str_eq b "" || str_eq a b || max_hops == 0
    then none
    else if has_account_node a g && has_account_node b g
    then trace_result a b (shortest_path a b max_hops flows g.edges)
    else none

-- models.HubSummary, as TopHubs fills it in.
pub record Hub : Type 0 where
  pub address : String
  pub is_contract : Bool
  pub outgoing_count : ℕ
  pub incoming_count : ℕ
  pub degree : ℕ

unfoldable pub hub_summary : List Edge → Node → Hub
hub_summary es n =
    let outgoing = length (keep (λ (e : Edge). str_eq e.source n.address) es) in
    let incoming = length (keep (λ (e : Edge). str_eq e.target n.address) es) in
    record {
      address = n.address;
      is_contract = n.is_contract;
      outgoing_count = outgoing;
      incoming_count = incoming;
      degree = outgoing + incoming;
    }

unfoldable pub insert_hub : Hub → List Hub → List Hub
insert_hub h [] = h ∷ []
insert_hub h (k ∷ ks) = if text_before k.address h.address then k ∷ insert_hub h ks else h ∷ k ∷ ks

-- ORDER BY address ASC
unfoldable pub sort_hubs : List Hub → List Hub
sort_hubs [] = []
sort_hubs (h ∷ hs) = insert_hub h (sort_hubs hs)

-- TopHubs: ORDER BY degree DESC, address ASC
unfoldable pub top_hubs : ℕ → Graph → List Hub
top_hubs limit g = take (if limit == 0 then 10 else limit) (
    newest (λ (h : Hub). h.degree)
      (sort_hubs (keep (λ (h : Hub). not (h.degree == 0)) (map (hub_summary g.edges) g.nodes))))
