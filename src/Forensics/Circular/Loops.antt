-- ===== src/Forensics/Circular/Loops.antt =====
-- forensics/circular.go: what the detector flags, and that it misses no loop.
use forensic_listener.Prelude.{
  ℕ, ◌+◌, ◌-◌, ◌≤◌, String, ◌≡◌, ◌≢◌, refl, ◌∙◌, false, ◌||◌, some, List, [], ◌∷◌, map, arith,
  str_eq, eq_iff, length, Bool-cases, Option-cases, inl, inr,
}
use mathlib.Core.Path.{subst}
use forensic_listener.Store.Address.{AddressLib, normalize_address}
use forensic_listener.Store.Address.Canonical.{normalize_idem}
use forensic_listener.Store.Neo4j.{
  Edge, Kind, CircularFlow, find_return_path, flow_of, end_of, nodes_of, hash_of, kind_of,
}
use forensic_listener.Store.Neo4j.Trails.{IsReturn}
use forensic_listener.Store.Neo4j.Shortest.{finds-IsReturn, finds_shortest, finds_all}
use forensic_listener.Forensics.Circular.{
  circular_max_hops, circular_window, CircularFlag, circular_severity, loop_of, flag_of,
  circular_flag, evaluate,
}

abbrev pub last_of : String → List String → String
last_of a [] = a
last_of a (b ∷ more) = last_of b more

last-targets :
    (a : String) (p : List Edge) → last_of a (map (λ (e : Edge). e.target) p) ≡ end_of a p
last-targets a [] = refl
last-targets a (e ∷ p) = last-targets e.target p

texts_differ : (x y : String) → x ≢ y → str_eq x y ≡ false
texts_differ x y d = elim (Bool-cases (str_eq x y)) [
  | inl e ↦ absurd (d ((eq_iff x y).0 e))
  | inr e ↦ e
]

module _ (es : List Edge) (tx_hash from to : String) (at : ℕ) (kind : Kind) where
  abbrev pub flag_with : List Edge → CircularFlag
  flag_with p = record {
    tx_hash = tx_hash;
    address = from;
    severity = circular_severity (length p + 1);
    evidence = record {
      path = from ∷ nodes_of to p;
      transaction_hashes = tx_hash ∷ map (λ (e : Edge). hash_of e.key) p;
      kinds = kind ∷ map (λ (e : Edge). kind_of e.key) p;
      hops = length p + 1;
    };
  }

  -- The flag shows a loop: its path starts at the sender, goes to the recipient and comes back to the
  -- sender by a walk in the graph inside the seven days; it has 2 to 4 transfers, and its severity is
  -- by their number.
  abbrev pub IsLoopFlag : CircularFlag → List Edge → Type 0
  IsLoopFlag flag p =
      IsReturn es from to (at - circular_window) at p
      × (flag ≡ flag_with p)
      × (last_of from flag.evidence.path ≡ from)
      × (2 ≤ flag.evidence.hops)
      × (flag.evidence.hops ≤ 4)

module _ (lib : AddressLib) (es : List Edge) (tx_hash from to : String) (at : ℕ) (kind : Kind) where
  found_flag :
      (flag : CircularFlag)
      → evaluate lib es tx_hash from to at kind ≡ some flag
      → let a = normalize_address lib from in
        let b = normalize_address lib to in
        (flow : CircularFlow) × (find_return_path lib a b
            (at - circular_window)
            at
            circular_max_hops
            es
          ≡ some flow)
        × (flag_of tx_hash a kind (some flow) ≡ some flag)
  unfolding evaluate
  found_flag flag h =
      let a = normalize_address lib from in
      let b = normalize_address lib to in
      elim (Bool-cases (str_eq a "" || str_eq b "" || str_eq a b)) [
        | inl out ↦ cc (rw out at h)
        | inr go ↦
            elim (Option-cases
              (find_return_path lib a b (at - circular_window) at circular_max_hops es)) [
                | inl e ↦ cc (rw (go, e) at h)
                | inr (flow, e) ↦ (flow, e, rw (go, e) at h)
              ]
      ]

  -- Whatever is flagged is a loop of 2 to 4 transfers, as `IsLoopFlag` says, between the normalised
  -- sender and recipient.
  pub flags_loop :
      (flag : CircularFlag)
      → evaluate lib es tx_hash from to at kind ≡ some flag
      → (p : List Edge) × IsLoopFlag es tx_hash
          (normalize_address lib from)
          (normalize_address lib to)
          at
          kind
          flag
          p
  unfolding loop_of flow_of
  flags_loop flag h =
      let a = normalize_address lib from in
      let b = normalize_address lib to in
      let (flow, e, f) = found_flag flag h in
      let (p, r, same, low_, high_) =
        finds-IsReturn lib a b (at - circular_window) at circular_max_hops es flow e in
      let r' : IsReturn es a b (at - circular_window) at p =
        rw (normalize_idem lib from, normalize_idem lib to) at r in
      let same' : flow ≡ flow_of b p = rw (normalize_idem lib to) at same in
      let g : some (flag_with es tx_hash a b at kind p) ≡ some flag = rw same' at f in
      let q : flag_with es tx_hash a b at kind p ≡ flag = cc in
      (
        p,
        subst (λ (x : CircularFlag). IsLoopFlag es tx_hash a b at kind x p) q
            (r', refl, last-targets b p ∙ r'.1, omega arith, omega arith),
      )

  -- Every loop is flagged: where the sender and the recipient are there and differ, and the graph has a
  -- way back of at most three transfers inside the seven days, the transfer is flagged, with a loop
  -- that is no longer.
  pub flags_every_loop :
      (p : List Edge)
      → normalize_address lib from ≢ ""
      → normalize_address lib to ≢ ""
      → normalize_address lib from ≢ normalize_address lib to
      → IsReturn es
          (normalize_address lib from)
          (normalize_address lib to)
          (at - circular_window)
          at
          p
      → 1 ≤ length p
      → length p ≤ 3
      → (flag : CircularFlag) × (evaluate lib es tx_hash from to at kind ≡ some flag)
        × (flag.evidence.hops ≤ length p + 1)
  unfolding evaluate loop_of
  flags_every_loop p a_there b_there differ r low_ high_ =
      let a = normalize_address lib from in
      let b = normalize_address lib to in
      let ia = normalize_idem lib from in
      let ib = normalize_idem lib to in
      let r' : IsReturn es (normalize_address lib a) (normalize_address lib b)
          (at - circular_window) at p =
        rw (ia, ib) r in
      let go : (str_eq a "" || str_eq b "" || str_eq a b) ≡ false =
        rw (texts_differ a "" a_there, texts_differ b "" b_there, texts_differ a b differ) refl in
      elim (Option-cases
        (find_return_path lib a b (at - circular_window) at circular_max_hops es)) [
          | inl e ↦
              let far =
                finds_all lib a b (at - circular_window) at circular_max_hops es p e (rw ia a_there)
                  (rw ib b_there) (rw (ia, ib) differ) (omega arith) r' low_ in
              absurd (omega (arith, far))
          | inr (flow, e) ↦
              let least =
                finds_shortest lib a b (at - circular_window) at circular_max_hops es flow p e r'
                  low_ in
              (circular_flag tx_hash a kind flow, rw (go, e) refl, omega (arith, least))
        ]
