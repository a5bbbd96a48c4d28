-- ===== src/Store/Neo4j/Tests.antt =====
-- store/neo4j.go: tests of the graph, and its laws at three transfers.
use forensic_listener.Prelude.{
  inl, ℕ, ◌≤◌, ◌<◌, ◌≡◌, ◌≢◌, refl, String, false, some, none, List, [], ◌∷◌, arith, str_eq, eq_iff,
  length,
}
use forensic_listener.Store.Fixtures.{lib, payment, transfer}
use forensic_listener.Store.Address.{normalize_address, trim_space, trim_left, trim_right, is_space}
use forensic_listener.Store.Neo4j.{
  Edge, sent, Graph, graph_transaction, graph_transfers, find_return_path, CircularFlow, eth, picks,
  extend_all, collect, trails, in_window, is_time_ordered, is_return, first_that, shortest, clamp,
  flow_of,
}
use forensic_listener.Store.Neo4j.Trails.{IsReturn}
use forensic_listener.Store.Neo4j.Shortest.{finds-IsReturn, finds_shortest, finds_all}
use forensic_listener.Store.Neo4j.Merge.{
  graph_transaction_again, IsFlowGraph, graph_transfers-IsFlowGraph,
}

abbrev pub sends : String → String → String → ℕ → Edge
sends h a b t = record {
  key = sent h;
  source = a;
  target = b;
  timestamp = t;
  amount = 5;
  token = "";
  nonce = 0;
}

-- From B over C back to A, and a transfer that came too late.
abbrev pub edges : List Edge
edges =
    sends "h1" "0xBBBBBBBBBBBBBBBBBBBBBBBBBBBBBBBBBBBBBBBB" "C" 10
    ∷ sends "h2" "C" "0xAAAAAAAAAAAAAAAAAAAAAAAAAAAAAAAAAAAAAAAA" 20
    ∷ sends "h3" "0xBBBBBBBBBBBBBBBBBBBBBBBBBBBBBBBBBBBBBBBB"
        "0xAAAAAAAAAAAAAAAAAAAAAAAAAAAAAAAAAAAAAAAA" 90
    ∷ []

abbrev way : List Edge
way =
    sends "h1" "0xBBBBBBBBBBBBBBBBBBBBBBBBBBBBBBBBBBBBBBBB" "C" 10
    ∷ sends "h2" "C" "0xAAAAAAAAAAAAAAAAAAAAAAAAAAAAAAAAAAAAAAAA" 20
    ∷ []

abbrev flow : CircularFlow
flow = record {
  path =
      "0xBBBBBBBBBBBBBBBBBBBBBBBBBBBBBBBBBBBBBBBB" ∷ "C"
      ∷ "0xAAAAAAAAAAAAAAAAAAAAAAAAAAAAAAAAAAAAAAAA" ∷ [];
  transaction_hashes = "h1" ∷ "h2" ∷ [];
  kinds = eth ∷ eth ∷ [];
  hops = 2;
}

finds_flow :
    find_return_path lib "0xaaaaaaaaaaaaaaaaaaaaaaaaaaaaaaaaaaaaaaaa"
      "0xBBBBBBBBBBBBBBBBBBBBBBBBBBBBBBBBBBBBBBBB" 0 50 3 edges
    ≡ some flow
unfolding find_return_path shortest first_that trails collect extend_all picks is_return in_window
    is_time_ordered flow_of normalize_address trim_space trim_left trim_right is_space
finds_flow = refl

finds_nothing :
    find_return_path lib "0xaaaaaaaaaaaaaaaaaaaaaaaaaaaaaaaaaaaaaaaa"
      "0xBBBBBBBBBBBBBBBBBBBBBBBBBBBBBBBBBBBBBBBB" 0 50 1 edges
    ≡ none
unfolding find_return_path shortest first_that trails collect extend_all picks is_return in_window
    is_time_ordered flow_of normalize_address trim_space trim_left trim_right is_space
finds_nothing = refl

way-IsReturn :
    IsReturn edges
      (normalize_address lib "0xaaaaaaaaaaaaaaaaaaaaaaaaaaaaaaaaaaaaaaaa")
      (normalize_address lib "0xBBBBBBBBBBBBBBBBBBBBBBBBBBBBBBBBBBBBBBBB")
      0
      50
      way
unfolding normalize_address trim_space trim_left trim_right is_space
way-IsReturn = (
  (
    sends "h2" "C" "0xAAAAAAAAAAAAAAAAAAAAAAAAAAAAAAAAAAAAAAAA" 20
        ∷ sends "h3" "0xBBBBBBBBBBBBBBBBBBBBBBBBBBBBBBBBBBBBBBBB"
            "0xAAAAAAAAAAAAAAAAAAAAAAAAAAAAAAAAAAAAAAAA" 90
        ∷ [],
    inl (refl, refl),
    refl,
    (
      sends "h3" "0xBBBBBBBBBBBBBBBBBBBBBBBBBBBBBBBBBBBBBBBB"
            "0xAAAAAAAAAAAAAAAAAAAAAAAAAAAAAAAAAAAAAAAA" 90
          ∷ [],
      inl (refl, refl),
      refl,
      tt,
    ),
  ),
  refl,
  ((omega arith, omega arith), ((omega arith, omega arith), tt)),
  (omega arith, tt),
)

same_text : (s t : String) → str_eq s t ≡ false → s ≢ t
same_text s t d e = let q = (eq_iff s t).1 e in cc

there :
    (normalize_address lib "0xaaaaaaaaaaaaaaaaaaaaaaaaaaaaaaaaaaaaaaaa" ≢ "")
    × (normalize_address lib "0xBBBBBBBBBBBBBBBBBBBBBBBBBBBBBBBBBBBBBBBB" ≢ "")
    × (normalize_address lib "0xaaaaaaaaaaaaaaaaaaaaaaaaaaaaaaaaaaaaaaaa"
        ≢ normalize_address lib "0xBBBBBBBBBBBBBBBBBBBBBBBBBBBBBBBBBBBBBBBB")
unfolding normalize_address trim_space trim_left trim_right is_space
there = (
  same_text "0xAAAAAAAAAAAAAAAAAAAAAAAAAAAAAAAAAAAAAAAA" "" refl,
  same_text "0xBBBBBBBBBBBBBBBBBBBBBBBBBBBBBBBBBBBBBBBB" "" refl,
  same_text "0xAAAAAAAAAAAAAAAAAAAAAAAAAAAAAAAAAAAAAAAA"
      "0xBBBBBBBBBBBBBBBBBBBBBBBBBBBBBBBBBBBBBBBB" refl,
)

finds-IsReturn_example :
    (p : List Edge) × IsReturn edges
      (normalize_address lib "0xaaaaaaaaaaaaaaaaaaaaaaaaaaaaaaaaaaaaaaaa")
      (normalize_address lib "0xBBBBBBBBBBBBBBBBBBBBBBBBBBBBBBBBBBBBBBBB")
      0
      50
      p
    × (flow ≡ flow_of (normalize_address lib "0xBBBBBBBBBBBBBBBBBBBBBBBBBBBBBBBBBBBBBBBB") p)
    × (1 ≤ length p)
    × (length p ≤ clamp 3 1 4)
finds-IsReturn_example =
    finds-IsReturn lib "0xaaaaaaaaaaaaaaaaaaaaaaaaaaaaaaaaaaaaaaaa"
      "0xBBBBBBBBBBBBBBBBBBBBBBBBBBBBBBBBBBBBBBBB" 0 50 3 edges flow finds_flow

finds_shortest_applied : flow.hops ≤ length way
finds_shortest_applied =
    finds_shortest lib "0xaaaaaaaaaaaaaaaaaaaaaaaaaaaaaaaaaaaaaaaa"
      "0xBBBBBBBBBBBBBBBBBBBBBBBBBBBBBBBBBBBBBBBB" 0 50 3 edges flow way finds_flow way-IsReturn
      (omega arith)

finds_all_applied : clamp 1 1 4 < length way
finds_all_applied =
    finds_all lib "0xaaaaaaaaaaaaaaaaaaaaaaaaaaaaaaaaaaaaaaaa"
      "0xBBBBBBBBBBBBBBBBBBBBBBBBBBBBBBBBBBBBBBBB" 0 50 1 edges way finds_nothing there.0 there.1
      there.2 (omega arith) way-IsReturn (omega arith)

abbrev empty_graph : Graph
empty_graph = record { nodes = []; edges = [] }

graph_transaction_again_applied :
    graph_transaction lib payment (graph_transaction lib payment empty_graph)
    ≡ graph_transaction lib payment empty_graph
graph_transaction_again_applied = graph_transaction_again lib payment empty_graph

graph_transfers-IsFlowGraph_applied :
    IsFlowGraph (graph_transfers lib (transfer ∷ []) (graph_transaction lib payment empty_graph))
graph_transfers-IsFlowGraph_applied =
    graph_transfers-IsFlowGraph lib (transfer ∷ []) payment empty_graph tt
