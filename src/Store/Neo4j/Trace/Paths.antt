-- ===== src/Store/Neo4j/Trace/Paths.antt =====
-- store/neo4j.go: TracePath returns a shortest path of the flow, whenever there is one.
use forensic_listener.Prelude.{
  ℕ, ◌≤◌, ◌<◌, String, ◌≡◌, refl, true, false, ◌||◌, ◌&&◌, Option, none, some, List, arith, str_eq,
  eq_iff, ◌==◌, length,
}
use forensic_listener.Store.Address.{AddressLib, normalize_address}
use forensic_listener.Store.Neo4j.{Graph, Edge, end_of, shortest, clamp}
use forensic_listener.Store.Neo4j.Trails.{IsTrail}
use forensic_listener.Store.Neo4j.Search.{IsLeast, search-IsLeast}
use forensic_listener.Store.Neo4j.Trace.{
  AddressTrace, flow_edges, trace_of, ends_at, has_account_node, trace_result, shortest_path,
  trace_path,
}

-- A walk of one edge or more from one address to the other along edges of the flow, none twice.
abbrev pub IsPath : List Edge → String → String → List Edge → Type 0
IsPath es from to q = IsTrail es from q × (end_of from q ≡ to) × (1 ≤ length q)

-- The answer for a bound on the hops: a shortest path, or none within the bound.
abbrev pub IsTraced : List Edge → String → String → ℕ → Option AddressTrace → Type 0
IsTraced es from to bound none = (q : List Edge) → IsPath es from to q → bound < length q
IsTraced es from to bound (some t) =
    (p : List Edge) × (t ≡ trace_of from to p)
    × IsPath es from to p
    × (length p ≤ bound)
    × ((q : List Edge) → IsPath es from to q → length p ≤ length q)

module _ (es : List Edge) (from to : String) (bound : ℕ) where
  traced :
      (o : Option (List Edge))
      → IsLeast es from (ends_at from to) bound 1 o
      → IsTraced es from to bound (trace_result from to o)
  traced none h =
      λ q (trail, e, n). let m = h q (trail, (eq_iff (end_of from q) to).1 e) n in omega arith
  traced (some p) ((trail, ok), low, high, least) = (
    p,
    refl,
    (trail, (eq_iff (end_of from p) to).0 ok, low),
    omega arith,
    λ q (trail', e, n). least q (trail', (eq_iff (end_of from q) to).1 e) n,
  )

-- Between two different accounts of the graph TracePath returns a path along edges of the flow that no
-- other path of the flow is shorter than, and nothing only where every path has more hops than the
-- bound, cut to 1 to 6, allows.
pub trace_path-IsTraced :
    (lib : AddressLib) (from to : String) (max_hops : ℕ) (flows : String) (g : Graph)
    → (str_eq (normalize_address lib from) ""
        || str_eq (normalize_address lib to) ""
        || str_eq (normalize_address lib from) (normalize_address lib to)
        || max_hops == 0)
      ≡ false
    → (has_account_node (normalize_address lib from) g
        && has_account_node (normalize_address lib to) g)
      ≡ true
    → IsTraced
        (flow_edges flows g.edges)
        (normalize_address lib from)
        (normalize_address lib to)
        (clamp max_hops 1 6)
        (trace_path lib from to max_hops flows g)
unfolding trace_path shortest_path
trace_path-IsTraced lib from to max_hops flows g valid present =
    let a = normalize_address lib from in
    let b = normalize_address lib to in
    let es = flow_edges flows g.edges in
    rw (valid, present)
      (traced es a b (clamp max_hops 1 6) (shortest (clamp max_hops 1 6) 1 (ends_at a b) a es)
        (search-IsLeast es a (ends_at a b) (clamp max_hops 1 6) 1))
