-- ===== src/Store/Neo4j/Repair/Redirect.antt =====
-- store/neo4j.go: after the moves of repairAccountGroup every edge of a duplicate is there at the kept
-- node.
use forensic_listener.Prelude.{
  ℕ, ◌≡◌, refl, true, ◌&&◌, List, [], ◌∷◌, map, arith, ◌==◌, ==_iff, keep, Bool-cases, inl, inr,
}
use forensic_listener.Store.Neo4j.{EdgeKey, sent, transferred, Kind, eth, token}
use forensic_listener.Store.Neo4j.Repair.{
  Rel, merge_rel, merge_rels, is_kind, move_out, move_in, move_each, move_rels,
}
use forensic_listener.Store.Neo4j.Repair.Moves.{
  key_eq_sound, joins, has_rel, rep, merge_rel-has, has-merge_rels,
}

merge_rels-has :
    (k : EdgeKey) (s t : ℕ) (rs es : List Rel)
    → has_rel k s t rs ≡ true
    → has_rel k s t (merge_rels rs es) ≡ true
unfolding has_rel merge_rels
merge_rels-has k s t [] es h = cc
merge_rels-has k s t (r ∷ rs) es h = elim (Bool-cases (joins k s t r)) [
  | inr other ↦ merge_rels-has k s t rs (merge_rel r es) (rw other at h)
  | inl here ↦
      let a : r.key ≡ k = key_eq_sound r.key k (ground arith) in
      let b : r.from_id ≡ s = ground arith in
      let c : r.to_id ≡ t = ground arith in
      has-merge_rels rs k s t (merge_rel r es) (rw (← a, ← b, ← c) (merge_rel-has r es))
]

-- A move redirects each edge of the duplicate.
module _ (kind : Kind) (survivor d : ℕ) (k : EdgeKey) (right : is_kind kind k ≡ true) where
  moved_out :
      (t : ℕ) (es : List Rel)
      → has_rel k d t es ≡ true
      → has_rel k survivor t (
          map
            (λ (r : Rel). record r { from_id = survivor })
            (keep (λ (r : Rel). is_kind kind r.key && r.from_id == d) es))
        ≡ true
  unfolding has_rel
  moved_out t [] h = cc
  moved_out t (e ∷ es) h = elim (Bool-cases (joins k d t e)) [
    | inl here ↦
        let a : e.key ≡ k = key_eq_sound e.key k (ground arith) in
        let kept : (is_kind kind e.key && e.from_id == d) ≡ true = rw (a, right) (ground arith) in
        rw kept (ground arith)
    | inr other ↦
        let ih = moved_out t es (rw other at h) in
        elim (Bool-cases (is_kind kind e.key && e.from_id == d)) [
          | inl kept ↦ rw kept (ground arith)
          | inr out ↦ rw out ih
        ]
  ]

  moved_in :
      (s : ℕ) (es : List Rel)
      → has_rel k s d es ≡ true
      → has_rel k s survivor (
          map
            (λ (r : Rel). record r { to_id = survivor })
            (keep (λ (r : Rel). is_kind kind r.key && r.to_id == d) es))
        ≡ true
  unfolding has_rel
  moved_in s [] h = cc
  moved_in s (e ∷ es) h = elim (Bool-cases (joins k s d e)) [
    | inl here ↦
        let a : e.key ≡ k = key_eq_sound e.key k (ground arith) in
        let kept : (is_kind kind e.key && e.to_id == d) ≡ true = rw (a, right) (ground arith) in
        rw kept (ground arith)
    | inr other ↦
        let ih = moved_in s es (rw other at h) in
        elim (Bool-cases (is_kind kind e.key && e.to_id == d)) [
          | inl kept ↦ rw kept (ground arith)
          | inr out ↦ rw out ih
        ]
  ]

-- A move that makes no edge go away.
abbrev Grows : (ℕ → List Rel → List Rel) → Type 0
Grows move =
    (d : ℕ) (k : EdgeKey) (s t : ℕ) (es : List Rel)
    → has_rel k s t es ≡ true
    → has_rel k s t (move d es) ≡ true

move_out-Grows : (kind : Kind) (survivor : ℕ) → Grows (move_out kind survivor)
unfolding move_out
move_out-Grows kind survivor d k s t es h = has-merge_rels _ k s t es h

move_in-Grows : (kind : Kind) (survivor : ℕ) → Grows (move_in kind survivor)
unfolding move_in
move_in-Grows kind survivor d k s t es h = has-merge_rels _ k s t es h

each-Grows :
    (move : ℕ → List Rel → List Rel) (ds : List ℕ)
    → Grows move
    → (k : EdgeKey) (s t : ℕ) (es : List Rel) → has_rel k s t es ≡ true
    → has_rel k s t (move_each move ds es) ≡ true
unfolding move_each
each-Grows move [] g k s t es h = h
each-Grows move (d ∷ ds) g k s t es h = each-Grows move ds g k s t (move d es) (g d k s t es h)

module _ (kind : Kind) (survivor : ℕ) (k : EdgeKey) (right : is_kind kind k ≡ true) where
  each_out :
      (ds : List ℕ) (s t : ℕ) (es : List Rel)
      → has_rel k s t es ≡ true
      → has_rel k (rep survivor ds s) t (move_each (move_out kind survivor) ds es) ≡ true
  unfolding move_each
  each_out [] s t es h = h
  each_out (d ∷ ds) s t es h = elim (Bool-cases (d == s)) [
    | inl same ↦
        let q : d ≡ s = (==_iff d s).0 same in
        let moved : has_rel k survivor t (move_out kind survivor d es) ≡ true =
          unfold move_out in
          merge_rels-has k survivor t _ es (moved_out kind survivor d k right t es (rw q h)) in
        rw same (
          each-Grows (move_out kind survivor) ds (move_out-Grows kind survivor) k survivor t
            (move_out kind survivor d es) moved)
    | inr other ↦
        rw other (
          each_out ds s t (move_out kind survivor d es) (move_out-Grows kind survivor d k s t es h))
  ]

  each_in :
      (ds : List ℕ) (s t : ℕ) (es : List Rel)
      → has_rel k s t es ≡ true
      → has_rel k s (rep survivor ds t) (move_each (move_in kind survivor) ds es) ≡ true
  unfolding move_each
  each_in [] s t es h = h
  each_in (d ∷ ds) s t es h = elim (Bool-cases (d == t)) [
    | inl same ↦
        let q : d ≡ t = (==_iff d t).0 same in
        let moved : has_rel k s survivor (move_in kind survivor d es) ≡ true =
          unfold move_in in
          merge_rels-has k s survivor _ es (moved_in kind survivor d k right s es (rw q h)) in
        rw same (
          each-Grows (move_in kind survivor) ds (move_in-Grows kind survivor) k s survivor
            (move_in kind survivor d es) moved)
    | inr other ↦
        rw other
          (each_in ds s t (move_in kind survivor d es) (move_in-Grows kind survivor d k s t es h))
  ]

  -- Both clauses of a kind, one after the other.
  each_both :
      (ds : List ℕ) (s t : ℕ) (es : List Rel)
      → has_rel k s t es ≡ true
      → has_rel k
          (rep survivor ds s)
          (rep survivor ds t)
          (move_each (move_in kind survivor) ds (move_each (move_out kind survivor) ds es))
        ≡ true
  each_both ds s t es h = each_in ds (rep survivor ds s) t _ (each_out ds s t es h)

-- Every edge is there after the moves, between the nodes that its ends stand for.
pub moves-has :
    (survivor : ℕ) (dups : List ℕ) (k : EdgeKey) (s t : ℕ) (es : List Rel)
    → has_rel k s t es ≡ true
    → has_rel k (rep survivor dups s) (rep survivor dups t) (move_rels survivor dups es) ≡ true
unfolding move_rels
moves-has survivor dups (sent x) s t es h =
    each-Grows (move_in token survivor) dups (move_in-Grows token survivor) (sent x) _ _ _ (
      each-Grows (move_out token survivor) dups (move_out-Grows token survivor) (sent x) _ _ _
        (each_both eth survivor (sent x) refl dups s t es h))
moves-has survivor dups (transferred x i) s t es h =
    each_both token survivor (transferred x i) refl dups s t _ (
      each-Grows (move_in eth survivor) dups (move_in-Grows eth survivor) (transferred x i) s t _ (
        each-Grows (move_out eth survivor) dups (move_out-Grows eth survivor) (transferred x i) s t
          es h))
