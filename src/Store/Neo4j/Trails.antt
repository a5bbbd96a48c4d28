-- ===== src/Store/Neo4j/Trails.antt =====
-- store/neo4j.go: FindReturnPath finds a shortest way back, whenever there is one.
use forensic_listener.Prelude.{
  ℕ, zero, suc, ◌≤◌, String, ◌≡◌, refl, sym, ap, ◌∙◌, true, List, [], ◌∷◌, ◌++◌, map, str_eq,
  eq_iff, length, Bool-cases, inl, inr, ◌⊎◌, All,
}
use mathlib.Core.Path.{subst}
use forensic_listener.Store.Neo4j.{Edge, picks, extend_all, collect, trails, end_of}

-- The list is one of these.
abbrev pub In : List Edge → List (List Edge) → Type 0
In p [] = ⊥
In p (q ∷ qs) = (q ≡ p) ⊎ In p qs

abbrev pub InPicks : Edge → List Edge → List (Edge × List Edge) → Type 0
InPicks e rest [] = ⊥
InPicks e rest (x ∷ xs) = (x.0 ≡ e) × (x.1 ≡ rest) ⊎ InPicks e rest xs

-- Taking e out of the edges leaves `rest`.
abbrev pub Pick : Edge → List Edge → List Edge → Type 0
Pick e [] rest = ⊥
Pick e (x ∷ xs) rest =
    (x ≡ e) × (xs ≡ rest) ⊎ (less : List Edge) × (x ∷ less ≡ rest) × Pick e xs less

-- A walk from a node along edges of the graph, no edge twice.
abbrev pub IsTrail : List Edge → String → List Edge → Type 0
IsTrail es at [] = Unit
IsTrail es at (e ∷ p) =
    (rest : List Edge) × Pick e es rest × (e.source ≡ at) × IsTrail rest e.target p

-- The walk comes back: it ends at `from`, each of its edges lies in the window, and none is earlier
-- than the one before it.
abbrev pub IsOrdered : List Edge → Type 0
IsOrdered [] = Unit
IsOrdered (e ∷ []) = Unit
IsOrdered (e ∷ f ∷ p) = (e.timestamp ≤ f.timestamp) × IsOrdered (f ∷ p)

abbrev pub IsReturn : List Edge → String → String → ℕ → ℕ → List Edge → Type 0
IsReturn es from to since before p =
    IsTrail es to p
    × (end_of to p ≡ from)
    × All (λ (e : Edge). (since ≤ e.timestamp) × (e.timestamp ≤ before)) p
    × IsOrdered p

In-append : (p : List Edge) (xs ys : List (List Edge)) → In p (xs ++ ys) → In p xs ⊎ In p ys
In-append p [] ys h = inr h
In-append p (x ∷ xs) ys (inl e) = inl (inl e)
In-append p (x ∷ xs) ys (inr h) = elim (In-append p xs ys h) [ inl a ↦ inl (inr a) | inr b ↦ inr b ]

In-left : (p : List Edge) (xs ys : List (List Edge)) → In p xs → In p (xs ++ ys)
In-left p [] ys h = elim h [ ]
In-left p (x ∷ xs) ys (inl e) = inl e
In-left p (x ∷ xs) ys (inr h) = inr (In-left p xs ys h)

In-right : (p : List Edge) (xs ys : List (List Edge)) → In p ys → In p (xs ++ ys)
In-right p [] ys h = h
In-right p (x ∷ xs) ys h = inr (In-right p xs ys h)

In-extend :
    (e : Edge) (p : List Edge) (ts : List (List Edge)) → In p ts → In (e ∷ p) (extend_all e ts)
unfolding extend_all
In-extend e p [] h = elim h [ ]
In-extend e p (t ∷ ts) (inl q) = inl (ap (λ u. e ∷ u) q)
In-extend e p (t ∷ ts) (inr h) = inr (In-extend e p ts h)

extend-In :
    (e : Edge) (q : List Edge) (ts : List (List Edge))
    → In q (extend_all e ts)
    → (p : List Edge) × (e ∷ p ≡ q) × In p ts
unfolding extend_all
extend-In e q [] h = elim h [ ]
extend-In e q (t ∷ ts) (inl h) = (t, h, inl refl)
extend-In e q (t ∷ ts) (inr h) = let (p, s, i) = extend-In e q ts h in (p, s, inr i)

picks-map :
    (x e : Edge) (rest : List Edge) (ps : List (Edge × List Edge))
    → InPicks e rest (map (λ p. (p.0, x ∷ p.1)) ps)
    → (less : List Edge) × (x ∷ less ≡ rest) × InPicks e less ps
picks-map x e rest [] h = elim h [ ]
picks-map x e rest (p ∷ ps) (inl (a, b)) = (p.1, b, inl (a, refl))
picks-map x e rest (p ∷ ps) (inr h) = let (l, q, i) = picks-map x e rest ps h in (l, q, inr i)

map-picks :
    (x e : Edge) (less rest : List Edge) (ps : List (Edge × List Edge))
    → x ∷ less ≡ rest
    → InPicks e less ps
    → InPicks e rest (map (λ p. (p.0, x ∷ p.1)) ps)
map-picks x e less rest [] q h = elim h [ ]
map-picks x e less rest (p ∷ ps) q (inl (a, b)) = inl (a, ap (λ u. x ∷ u) b ∙ q)
map-picks x e less rest (p ∷ ps) q (inr h) = inr (map-picks x e less rest ps q h)

picks-Pick : (e : Edge) (es rest : List Edge) → InPicks e rest (picks es) → Pick e es rest
unfolding picks
picks-Pick e [] rest h = elim h [ ]
picks-Pick e (x ∷ es) rest (inl h) = inl h
picks-Pick e (x ∷ es) rest (inr h) =
    let (less, q, i) = picks-map x e rest (picks es) h in inr (less, q, picks-Pick e es less i)

Pick-picks : (e : Edge) (es rest : List Edge) → Pick e es rest → InPicks e rest (picks es)
unfolding picks
Pick-picks e [] rest h = elim h [ ]
Pick-picks e (x ∷ es) rest (inl h) = inl h
Pick-picks e (x ∷ es) rest (inr (less, q, i)) =
    inr (map-picks x e less rest (picks es) q (Pick-picks e es less i))

-- What `collect` collects from a list of picks.
collect-In :
    (at : String) (deeper : String → List Edge → List (List Edge)) (ps : List (Edge × List Edge))
    (q : List Edge)
    → In q (collect at deeper ps)
    → (e : Edge) × (rest p : List Edge) × InPicks e rest ps
      × (e.source ≡ at)
      × (e ∷ p ≡ q)
      × In p (deeper e.target rest)
unfolding collect
collect-In at deeper [] q h = elim h [ ]
collect-In at deeper ((e, rest) ∷ more) q h = elim (Bool-cases (str_eq e.source at)) [
  | inl same ↦
      elim (In-append q (extend_all e (deeper e.target rest)) (collect at deeper more)
        (rw same at h)) [
          | inl here ↦
              let (p, s, i) = extend-In e q (deeper e.target rest) here in
              (e, rest, p, inl (refl, refl), (eq_iff e.source at).0 same, s, i)
          | inr there ↦
              let (f, r, p, i, a, s, d) = collect-In at deeper more q there in
              (f, r, p, inr i, a, s, d)
        ]
  | inr other ↦
      let (f, r, p, i, a, s, d) = collect-In at deeper more q (rw other at h) in
      (f, r, p, inr i, a, s, d)
]

In-collect :
    (at : String) (deeper : String → List Edge → List (List Edge)) (ps : List (Edge × List Edge))
    (e : Edge) (rest p : List Edge)
    → InPicks e rest ps
    → e.source ≡ at
    → In p (deeper e.target rest)
    → In (e ∷ p) (collect at deeper ps)
unfolding collect
In-collect at deeper [] e rest p h s d = elim h [ ]
In-collect at deeper ((x, r) ∷ more) e rest p (inl (a, b)) s d =
    let same : str_eq x.source at ≡ true =
      (eq_iff x.source at).1 (ap (λ (y : Edge). y.source) a ∙ s) in
    let i : In (e ∷ p) (extend_all x (deeper x.target r)) =
      subst (λ (y : Edge). In (e ∷ p) (extend_all y (deeper y.target r))) (sym a)
        (subst (λ (u : List Edge). In (e ∷ p) (extend_all e (deeper e.target u))) (sym b)
          (In-extend e p (deeper e.target rest) d)) in
    rw same (In-left (e ∷ p) (extend_all x (deeper x.target r)) (collect at deeper more) i)
In-collect at deeper ((x, r) ∷ more) e rest p (inr h) s d =
    In-right (e ∷ p) _ (collect at deeper more) (In-collect at deeper more e rest p h s d)

-- The enumeration has the trails of k edges, and no other lists.
pub trails-IsTrail :
    (k : ℕ) (at : String) (es q : List Edge)
    → In q (trails k at es)
    → IsTrail es at q × (length q ≡ k)
unfolding trails
trails-IsTrail zero at es q (inl e) = subst (λ u. IsTrail es at u × (length u ≡ 0)) e (tt, refl)
trails-IsTrail zero at es q (inr h) = elim h [ ]
trails-IsTrail (suc k) at es q h =
    let (e, rest, p, i, s, same, d) = collect-In at (trails k) (picks es) q h in
    let (trail, n) = trails-IsTrail k e.target rest p d in
    subst (λ u. IsTrail es at u × (length u ≡ suc k)) same
      ((rest, picks-Pick e es rest i, s, trail), ap suc n)

pub IsTrail-trails :
    (at : String) (es q : List Edge) → IsTrail es at q → In q (trails (length q) at es)
unfolding trails
IsTrail-trails at es [] h = inl refl
IsTrail-trails at es (e ∷ p) (rest, pick, s, trail) =
    In-collect at (trails (length p)) (picks es) e rest p (Pick-picks e es rest pick) s
      (IsTrail-trails e.target rest p trail)
