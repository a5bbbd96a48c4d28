-- ===== src/Store/Neo4j/Shortest.antt =====
-- store/neo4j.go: FindReturnPath finds a shortest way back, whenever there is one.
use forensic_listener.Prelude.{
  ℕ, ◌+◌, ◌≤◌, ◌<◌, max, String, ◌≡◌, ◌≢◌, refl, true, false, ◌||◌, Option, none, some, List, [],
  ◌∷◌, arith, str_eq, eq_iff, ◌==◌, length, Bool-cases, Option-cases, inl, inr, All,
}
use forensic_listener.Store.Address.{AddressLib, normalize_address}
use forensic_listener.Store.Neo4j.{
  Edge, end_of, in_window, is_time_ordered, is_return, shortest, clamp, return_trail, CircularFlow,
  flow_of, find_return_path,
}
use forensic_listener.Store.Neo4j.Search.{search-IsLeast, IsLeast}
use forensic_listener.Store.Neo4j.Trails.{IsTrail, IsOrdered, IsReturn}

window-All :
    (since before : ℕ) (p : List Edge)
    → in_window since before p ≡ true
    → All (λ (e : Edge). (since ≤ e.timestamp) × (e.timestamp ≤ before)) p
unfolding in_window
window-All since before [] h = tt
window-All since before (e ∷ p) h =
    ((ground arith, ground arith), window-All since before p (ground arith))

All-window :
    (since before : ℕ) (p : List Edge)
    → All (λ (e : Edge). (since ≤ e.timestamp) × (e.timestamp ≤ before)) p
    → in_window since before p ≡ true
unfolding in_window
All-window since before [] h = refl
All-window since before (e ∷ p) ((a, b), h) = ground (arith, All-window since before p h)

time_order_sound : (p : List Edge) → is_time_ordered p ≡ true → IsOrdered p
unfolding is_time_ordered
time_order_sound [] h = tt
time_order_sound (e ∷ []) h = tt
time_order_sound (e ∷ f ∷ p) h = (ground arith, time_order_sound (f ∷ p) (ground arith))

time_order_complete : (p : List Edge) → IsOrdered p → is_time_ordered p ≡ true
unfolding is_time_ordered
time_order_complete [] h = refl
time_order_complete (e ∷ []) h = refl
time_order_complete (e ∷ f ∷ p) (a, h) =
    let rest = time_order_complete (f ∷ p) h in ground (arith, rest)

module _ (es : List Edge) (from to : String) (since before : ℕ) where
  is_return_sound :
      (q : List Edge)
      → IsTrail es to q
      → is_return from to since before q ≡ true
      → IsReturn es from to since before q
  unfolding is_return
  is_return_sound q trail h = (
    trail,
    (eq_iff (end_of to q) from).0 (ground arith),
    window-All since before q (ground arith),
    time_order_sound q (ground arith),
  )

  is_return_complete :
      (q : List Edge) → IsReturn es from to since before q → is_return from to since before q ≡ true
  unfolding is_return
  is_return_complete q (_, e, w, o) =
      rw ((eq_iff (end_of to q) from).1 e, All-window since before q w, time_order_complete q o)
        refl

  -- What the search over `left` lengths from `hops` on says of the ways back.
  abbrev pub IsShortest : ℕ → ℕ → Option (List Edge) → Type 0
  IsShortest left hops none =
      (q : List Edge)
      → IsReturn es from to since before q
      → hops ≤ length q
      → hops + left ≤ length q
  IsShortest left hops (some p) =
      IsReturn es from to since before p
      × (hops ≤ length p)
      × (length p < hops + left)
      × ((q : List Edge)
          → IsReturn es from to since before q
          → hops ≤ length q
          → length p ≤ length q)

  shortest-IsShortest :
      (left hops : ℕ)
      → IsShortest left hops (shortest left hops (is_return from to since before) to es)
  shortest-IsShortest left hops =
      go (shortest left hops (is_return from to since before) to es)
        (search-IsLeast es to (is_return from to since before) left hops)
    where
      go :
          (o : Option (List Edge))
          → IsLeast es to (is_return from to since before) left hops o
          → IsShortest left hops o
      go none h = λ q r n. h q (r.0, is_return_complete q r) n
      go (some p) ((trail, ok), low, high, least) =
          (is_return_sound p trail ok, low, high, λ q r n. least q (r.0, is_return_complete q r) n)

-- `clamp(maxHops, 1, 4)` of a positive bound is between 1 and 4.
clamp_range : (n : ℕ) → (1 ≤ clamp n 1 4) × (clamp n 1 4 ≤ 4) × (clamp n 1 4 ≤ max 1 n)
clamp_range n = ground arith

module _ (lib : AddressLib) (from to : String) (since before max_hops : ℕ) (es : List Edge) where
  abbrev pub sender : String
  sender = normalize_address lib from

  abbrev pub receiver : String
  receiver = normalize_address lib to

  found_trail :
      (flow : CircularFlow)
      → find_return_path lib from to since before max_hops es ≡ some flow
      → (p : List Edge) × (return_trail sender receiver since before max_hops es ≡ some p)
        × (flow ≡ flow_of receiver p)
  unfolding find_return_path
  found_trail flow h =
      elim (Bool-cases
        (str_eq sender "" || str_eq receiver "" || str_eq sender receiver || max_hops == 0)) [
          | inl out ↦ cc (rw out at h)
          | inr go ↦ elim (Option-cases (return_trail sender receiver since before max_hops es)) [
            | inl e ↦ cc (rw (go, e) at h)
            | inr (p, e) ↦ (p, e, let g = rw (go, e) at h in cc)
          ]
        ]

  -- What FindReturnPath returns is a way back: a walk from the recipient to the sender along edges of
  -- the graph, none twice, all inside the window and none earlier than the one before it, of 1 to 4
  -- edges.
  pub finds-IsReturn :
      (flow : CircularFlow)
      → find_return_path lib from to since before max_hops es ≡ some flow
      → (p : List Edge) × IsReturn es sender receiver since before p
        × (flow ≡ flow_of receiver p)
        × (1 ≤ length p)
        × (length p ≤ clamp max_hops 1 4)
  finds-IsReturn flow h =
      let (p, e, same) = found_trail flow h in
      let s = shortest-IsShortest es sender receiver since before (clamp max_hops 1 4) 1 in
      let (r, low, high, _) = rw e at s in (p, r, same, low, omega arith)

  -- No way back is shorter than the one that it returns.
  pub finds_shortest :
      (flow : CircularFlow) (q : List Edge)
      → find_return_path lib from to since before max_hops es ≡ some flow
      → IsReturn es sender receiver since before q
      → 1 ≤ length q
      → flow.hops ≤ length q
  unfolding flow_of
  finds_shortest flow q h r n =
      let (p, e, same) = found_trail flow h in
      let s = shortest-IsShortest es sender receiver since before (clamp max_hops 1 4) 1 in
      let (_, _, _, least) = rw e at s in rw same (least q r n)

  -- Where the two addresses are there and differ, and it finds nothing, every way back is longer than
  -- the bound.
  pub finds_all :
      (q : List Edge)
      → find_return_path lib from to since before max_hops es ≡ none
      → sender ≢ ""
      → receiver ≢ ""
      → sender ≢ receiver
      → 1 ≤ max_hops
      → IsReturn es sender receiver since before q
      → 1 ≤ length q
      → clamp max_hops 1 4 < length q
  unfolding find_return_path
  finds_all q h a b c m r n =
      let apart : (x y : String) → x ≢ y → str_eq x y ≡ false = λ x y d.
        elim (Bool-cases (str_eq x y)) [ inl e ↦ absurd (d ((eq_iff x y).0 e)) | inr e ↦ e ] in
      let go : (max_hops == 0) ≡ false = ground arith in
      let h' = rw (apart sender "" a, apart receiver "" b, apart sender receiver c, go) at h in
      elim (Option-cases (return_trail sender receiver since before max_hops es)) [
        | inr (p, e) ↦ cc (rw e at h')
        | inl e ↦
            let s = shortest-IsShortest es sender receiver since before (clamp max_hops 1 4) 1 in
            let all = rw e at s in omega (arith, all q r n)
      ]
