-- ===== src/Store/Neo4j.antt =====
-- store/neo4j.go: the graph of accounts and transfers, how it is written, and FindReturnPath.
pub mod Trails
pub mod Search
pub mod Shortest
pub mod Merge
pub mod Repair
pub mod Trace
mod Tests
use forensic_listener.Prelude.{
  ℕ, zero, suc, ◌+◌, ◌-◌, max, min, String, Bool, true, false, ◌&&◌, ◌||◌, not, Option, none, some,
  List, [], ◌∷◌, ◌++◌, map, str_eq, ltb, leb, ◌==◌, if◌then◌else◌, length, any,
}
use forensic_listener.Models.{Transaction, TokenTransfer}
use forensic_listener.Store.Address.{AddressLib, normalize_address}

pub record Node : Type 0 where
  pub address : String
  pub first_seen : Option ℕ
  pub last_seen : Option ℕ
  pub is_contract : Bool

-- A :SENT edge is merged by its hash, a :TRANSFERRED edge by its hash and the log index.
pub data EdgeKey : Type 0 where
  sent : String → EdgeKey
  transferred : String → ℕ → EdgeKey

pub record Edge : Type 0 where
  pub key : EdgeKey
  pub source : String
  pub target : String
  pub timestamp : ℕ
  pub amount : ℕ
  pub token : String
  pub nonce : ℕ

pub record Graph : Type 0 where
  pub nodes : List Node
  pub edges : List Edge

pub data Kind : Type 0 where
  eth token : Kind

-- CASE type(r) WHEN 'SENT' THEN 'eth' ELSE 'token' END
abbrev pub kind_of : EdgeKey → Kind
kind_of (sent _) = eth
kind_of (transferred _ _) = token

-- coalesce(r.hash, r.tx_hash)
abbrev pub hash_of : EdgeKey → String
hash_of (sent h) = h
hash_of (transferred h _) = h

unfoldable pub key_eq : EdgeKey → EdgeKey → Bool
key_eq (sent h) (sent k) = str_eq h k
key_eq (transferred h i) (transferred k j) = str_eq h k && i == j
key_eq (sent _) (transferred _ _) = false
key_eq (transferred _ _) (sent _) = false

-- CASE WHEN last_seen IS NULL OR last_seen < ts THEN ts ELSE last_seen END
abbrev pub later_seen : ℕ → Option ℕ → Option ℕ
later_seen ts none = some ts
later_seen ts (some t) = some (max t ts)

-- MERGE (a:Account {address: $a}) ON CREATE SET a.first_seen = ... SET a.last_seen = ...
unfoldable pub merge_node : ℕ → String → List Node → List Node
merge_node ts a [] =
    record { address = a; first_seen = some ts; last_seen = some ts; is_contract = false } ∷ []
merge_node ts a (n ∷ ns) =
    if str_eq n.address a
    then record n { last_seen = later_seen ts n.last_seen } ∷ ns
    else n ∷ merge_node ts a ns

unfoldable pub is_edge : Edge → Edge → Bool
is_edge e f = key_eq f.key e.key && str_eq f.source e.source && str_eq f.target e.target

-- MERGE (from)-[r {key}]->(to) SET r.... : every property but the endpoints and the key is set.
unfoldable pub merge_edge : Edge → List Edge → List Edge
merge_edge e [] = e ∷ []
merge_edge e (f ∷ fs) = if is_edge e f then e ∷ fs else f ∷ merge_edge e fs

-- One row: the two accounts, then the edge between them.
unfoldable pub merge_transfer : Edge → Graph → Graph
merge_transfer e g = record {
  nodes = merge_node e.timestamp e.target (merge_node e.timestamp e.source g.nodes);
  edges = merge_edge e g.edges;
}

abbrev pub zero_address : String
zero_address = "0x0000000000000000000000000000000000000000"

abbrev pub is_flow_end : String → Bool
is_flow_end a = not (str_eq a zero_address) && not (str_eq a "")

module _ (lib : AddressLib) where
  unfoldable pub sent_edge : Transaction → Edge
  sent_edge tx = record {
    key = sent tx.hash;
    source = normalize_address lib tx.from;
    target = normalize_address lib tx.to;
    timestamp = tx.timestamp;
    amount = tx.value;
    token = "";
    nonce = tx.nonce;
  }

  -- SaveTransaction
  unfoldable pub graph_transaction : Transaction → Graph → Graph
  graph_transaction tx g =
      if str_eq (normalize_address lib tx.to) "" then g else merge_transfer (sent_edge tx) g

  unfoldable pub transferred_edge : TokenTransfer → Edge
  transferred_edge t = record {
    key = transferred t.tx_hash t.log_index;
    source = normalize_address lib t.from;
    target = normalize_address lib t.to;
    timestamp = t.mined_at;
    amount = t.amount;
    token = normalize_address lib t.token;
    nonce = 0;
  }

  -- SaveTokenTransfers: mints, burns and ends without an address are left out.
  unfoldable pub graph_transfers : List TokenTransfer → Graph → Graph
  graph_transfers [] g = g
  graph_transfers (t ∷ ts) g = graph_transfers ts (
      if is_flow_end (normalize_address lib t.from) && is_flow_end (normalize_address lib t.to)
      then merge_transfer (transferred_edge t) g
      else g)

  -- MarkContract
  unfoldable pub mark_node : String → List Node → List Node
  mark_node a [] =
      record { address = a; first_seen = none; last_seen = none; is_contract = true } ∷ []
  mark_node a (n ∷ ns) =
      if str_eq n.address a then record n { is_contract = true } ∷ ns else n ∷ mark_node a ns

  unfoldable pub graph_contract : String → Graph → Graph
  graph_contract address g =
      let a = normalize_address lib address in
      if str_eq a "" then g else record g { nodes = mark_node a g.nodes }

-- Every element, with the others.
unfoldable pub picks : List Edge → List (Edge × List Edge)
picks [] = []
picks (e ∷ es) = (e, es) ∷ map (λ p. (p.0, e ∷ p.1)) (picks es)

unfoldable pub extend_all : Edge → List (List Edge) → List (List Edge)
extend_all e = map (λ p. e ∷ p)

unfoldable pub collect :
    String → (String → List Edge → List (List Edge)) → List (Edge × List Edge) → List (List Edge)
collect at deeper [] = []
collect at deeper ((e, rest) ∷ more) =
    (if str_eq e.source at then extend_all e (deeper e.target rest) else [])
    ++ collect at deeper more

-- The trails of k edges of the pattern from a node on: no edge twice.
unfoldable pub trails : ℕ → String → List Edge → List (List Edge)
trails zero at es = [] ∷ []
trails (suc k) at es = collect at (trails k) (picks es)

-- Where a trail ends.
abbrev pub end_of : String → List Edge → String
end_of at [] = at
end_of at (e ∷ p) = end_of e.target p

unfoldable pub in_window : ℕ → ℕ → List Edge → Bool
in_window since before [] = true
in_window since before (e ∷ p) =
    leb since e.timestamp && leb e.timestamp before && in_window since before p

abbrev pub not_before : ℕ → List Edge → Bool
not_before t [] = true
not_before t (e ∷ p) = leb t e.timestamp

-- relationships(p)[i].timestamp <= relationships(p)[i + 1].timestamp for all i
unfoldable pub is_time_ordered : List Edge → Bool
is_time_ordered [] = true
is_time_ordered (e ∷ p) = not_before e.timestamp p && is_time_ordered p

-- The MATCH and the WHERE, of a trail from `to`.
unfoldable pub is_return : String → String → ℕ → ℕ → List Edge → Bool
is_return from to since before p =
    str_eq (end_of to p) from && in_window since before p && is_time_ordered p

unfoldable pub first_that : (List Edge → Bool) → List (List Edge) → Option (List Edge)
first_that p [] = none
first_that p (x ∷ xs) = if p x then some x else first_that p xs

-- ORDER BY hops ASC LIMIT 1, over the hops that are left. Of trails of one length any may come first.
unfoldable pub shortest : ℕ → ℕ → (List Edge → Bool) → String → List Edge → Option (List Edge)
shortest zero hops p at es = none
shortest (suc left) hops p at es = elim (first_that p (trails hops at es)) [
  | some t ↦ some t
  | none ↦ shortest left (hops + 1) p at es
]

abbrev pub clamp : ℕ → ℕ → ℕ → ℕ
clamp v lo hi = max lo (min v hi)

pub record CircularFlow : Type 0 where
  pub path : List String
  pub transaction_hashes : List String
  pub kinds : List Kind
  pub hops : ℕ

-- nodes(p)
abbrev pub nodes_of : String → List Edge → List String
nodes_of at p = at ∷ map (λ (e : Edge). e.target) p

unfoldable pub flow_of : String → List Edge → CircularFlow
flow_of at p = record {
  path = nodes_of at p;
  transaction_hashes = map (λ (e : Edge). hash_of e.key) p;
  kinds = map (λ (e : Edge). kind_of e.key) p;
  hops = length p;
}

abbrev pub return_trail : String → String → ℕ → ℕ → ℕ → List Edge → Option (List Edge)
return_trail from to since before max_hops es =
    shortest (clamp max_hops 1 4) 1 (is_return from to since before) to es

abbrev pub flow_result : String → Option (List Edge) → Option CircularFlow
flow_result to none = none
flow_result to (some p) = some (flow_of to p)

-- FindReturnPath, where the database answers.
unfoldable pub find_return_path :
    AddressLib → String → String → ℕ → ℕ → ℕ → List Edge → Option CircularFlow
find_return_path lib from to since before max_hops es =
    let a = normalize_address lib from in
    let b = normalize_address lib to in
    if str_eq a "" || str_eq b "" || str_eq a b || max_hops == 0
    then none
    else flow_result b (return_trail a b since before max_hops es)
