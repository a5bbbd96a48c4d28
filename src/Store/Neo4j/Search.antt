-- ===== src/Store/Neo4j/Search.antt =====
-- store/neo4j.go: the search by length finds a shortest trail that passes a test, whenever there is one.
use forensic_listener.Prelude.{
  ℕ, zero, suc, ◌+◌, ◌≤◌, ◌<◌, String, ◌≡◌, refl, Bool, true, false, Option, none, some, List, [],
  ◌∷◌, arith, ◌==◌, length, Bool-cases, inl, inr,
}
use forensic_listener.Store.Neo4j.{Edge, trails, first_that, shortest}
use forensic_listener.Store.Neo4j.Trails.{In, IsTrail, trails-IsTrail, IsTrail-trails}

first_sound :
    (p : List Edge → Bool) (ts : List (List Edge)) (q : List Edge)
    → first_that p ts ≡ some q
    → (p q ≡ true) × In q ts
unfolding first_that
first_sound p [] q h = cc
first_sound p (t ∷ ts) q h = elim (Bool-cases (p t)) [
  | inl e ↦ let same : t ≡ q = let g = rw e at h in cc in (rw (← same) e, inl same)
  | inr e ↦ let (a, b) = first_sound p ts q (rw e at h) in (a, inr b)
]

first_complete :
    (p : List Edge → Bool) (ts : List (List Edge)) (q : List Edge)
    → first_that p ts ≡ none
    → In q ts
    → p q ≡ false
unfolding first_that
first_complete p [] q h i = elim i [ ]
first_complete p (t ∷ ts) q h i = elim (Bool-cases (p t)) [
  | inl e ↦ cc (rw e at h)
  | inr e ↦ elim i [
    | inl same ↦ rw (← same) e
    | inr later ↦ first_complete p ts q (rw e at h) later
  ]
]

module _ (es : List Edge) (at : String) (test : List Edge → Bool) where
  abbrev pub IsMatch : List Edge → Type 0
  IsMatch q = IsTrail es at q × (test q ≡ true)

  -- What the search over `left` lengths from `hops` on says of the trails that pass.
  abbrev pub IsLeast : ℕ → ℕ → Option (List Edge) → Type 0
  IsLeast left hops none = (q : List Edge) → IsMatch q → hops ≤ length q → hops + left ≤ length q
  IsLeast left hops (some p) =
      IsMatch p
      × (hops ≤ length p)
      × (length p < hops + left)
      × ((q : List Edge) → IsMatch q → hops ≤ length q → length p ≤ length q)

  skip :
      (hops : ℕ) (q : List Edge)
      → first_that test (trails hops at es) ≡ none
      → IsMatch q
      → hops ≤ length q
      → hops + 1 ≤ length q
  skip hops q e r h = elim (Bool-cases (length q == hops)) [
    | inl same ↦
        let n : length q ≡ hops = ground arith in
        let i : In q (trails hops at es) = rw (← n) (IsTrail-trails at es q r.0) in
        cc (first_complete test (trails hops at es) q e i, r.1)
    | inr other ↦ ground arith
  ]

  pub search-IsLeast : (left hops : ℕ) → IsLeast left hops (shortest left hops test at es)
  unfolding shortest
  search-IsLeast zero hops = λ q r h. omega arith
  search-IsLeast (suc left) hops =
      next (first_that test (trails hops at es)) refl (shortest left (hops + 1) test at es)
        (search-IsLeast left (hops + 1))
    where
      next :
          (o : Option (List Edge))
          → first_that test (trails hops at es) ≡ o
          → (later : Option (List Edge)) → IsLeast left (hops + 1) later
          → IsLeast (suc left) hops (elim o [ some t ↦ some t | none ↦ later ])
      next (some t) e later ih =
          let (ok, i) = first_sound test (trails hops at es) t e in
          let (trail, n) = trails-IsTrail hops at es t i in
          ((trail, ok), omega (arith, n), omega (arith, n), λ q r h. omega (arith, n))
      next none e none ih = λ q r h. omega (arith, ih q r (skip hops q e r h))
      next none e (some p) (r, low, high, least) =
          (r, omega arith, omega arith, λ q s h. least q s (skip hops q e s h))
