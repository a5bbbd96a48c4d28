-- ===== src/Store/Neo4j/Trace/Tests.antt =====
-- store/neo4j.go: a trace of two hops, and the hub in its middle.
use forensic_listener.Prelude.{◌≡◌, refl, String, some, none, false, [], ◌∷◌, map}
use forensic_listener.Store.Fixtures.{lib}
use forensic_listener.Store.Address.{normalize_address, trim_space, trim_left, trim_right, is_space}
use forensic_listener.Store.Neo4j.{
  Graph, Node, Edge, sent, trails, picks, extend_all, collect, first_that, shortest,
}
use forensic_listener.Store.Neo4j.Trace.{
  Hub, trace_path, shortest_path, trace_of, flow_edges, flow_types, top_hubs, hub_summary,
  sort_hubs, insert_hub,
}
use forensic_listener.Store.Neo4j.Trace.Paths.{IsTraced, trace_path-IsTraced}
use forensic_listener.Store.Postgres.Pages.{newest, insert_newest}

abbrev account : String → Node
account a = record { address = a; first_seen = none; last_seen = none; is_contract = false }

abbrev payment_edge : String → String → String → Edge
payment_edge h from to = record {
  key = sent h;
  source = from;
  target = to;
  timestamp = 1;
  amount = 5;
  token = "";
  nonce = 0;
}

abbrev graph : Graph
graph = record {
  nodes = account "x" ∷ account "y" ∷ account "z" ∷ [];
  edges = payment_edge "a" "x" "y" ∷ payment_edge "b" "y" "z" ∷ [];
}

two_hops :
    trace_path lib "x" "z" 3 "eth" graph
    ≡ some (trace_of "x" "z" (payment_edge "a" "x" "y" ∷ payment_edge "b" "y" "z" ∷ []))
unfolding trace_path shortest_path shortest trails picks collect extend_all first_that flow_types
    normalize_address trim_space trim_left trim_right is_space
two_hops = refl

middle_first : map (λ (h : Hub). h.address) (top_hubs 1 graph) ≡ "y" ∷ []
unfolding top_hubs hub_summary sort_hubs insert_hub newest insert_newest
middle_first = refl

trace_path-IsTraced_example :
    IsTraced (flow_edges "eth" graph.edges) "x" "z" 3 (trace_path lib "x" "z" 3 "eth" graph)
unfolding normalize_address trim_space trim_left trim_right is_space
trace_path-IsTraced_example = trace_path-IsTraced lib "x" "z" 3 "eth" graph refl refl
