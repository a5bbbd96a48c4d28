-- ===== src/Store/Neo4j/Repair/Moves.antt =====
-- store/neo4j.go: the moves of repairAccountGroup redirect every edge of a duplicate to the kept node,
-- and make no other edge.
use forensic_listener.Prelude.{
  ℕ, ◌≡◌, refl, sym, ap, ◌∙◌, Bool, true, false, ◌&&◌, ◌||◌, List, [], ◌∷◌, arith, eq_iff, eq_refl,
  ◌==◌, if◌then◌else◌, any, All, Bool-cases, inl, inr,
}
use forensic_listener.Store.Neo4j.{EdgeKey, sent, transferred, key_eq}
use forensic_listener.Store.Neo4j.Repair.{Rel, is_in, is_rel, merge_rel, merge_rels}

pub key_eq_sound : (k l : EdgeKey) → key_eq k l ≡ true → k ≡ l
unfolding key_eq
key_eq_sound (sent h) (sent k) e = ap sent ((eq_iff h k).0 e)
key_eq_sound (transferred h i) (transferred k j) e = ground (arith, eq_iff h k)
key_eq_sound (sent h) (transferred k j) e = cc
key_eq_sound (transferred h i) (sent k) e = cc

pub key_eq_self : (k : EdgeKey) → key_eq k k ≡ true
unfolding key_eq
key_eq_self (sent h) = eq_refl h
key_eq_self (transferred h i) = ground (arith, eq_refl h)

-- The edge of this key between these nodes is there.
abbrev pub joins : EdgeKey → ℕ → ℕ → Rel → Bool
joins k s t e = key_eq e.key k && e.from_id == s && e.to_id == t

unfoldable pub has_rel : EdgeKey → ℕ → ℕ → List Rel → Bool
has_rel k s t = any (joins k s t)

-- A node, with the kept one for its duplicates.
abbrev pub rep : ℕ → List ℕ → ℕ → ℕ
rep survivor dups i = if is_in dups i then survivor else i

-- An edge of this key joins these nodes, or duplicates of theirs.
unfoldable pub views : ℕ → List ℕ → EdgeKey → ℕ → ℕ → List Rel → Bool
views survivor dups k s t = any (λ (e : Rel).
    key_eq e.key k && rep survivor dups e.from_id == s && rep survivor dups e.to_id == t)

is_rel_joins :
    (e f : Rel)
    → is_rel e f ≡ true
    → (f.key ≡ e.key) × (f.from_id ≡ e.from_id) × (f.to_id ≡ e.to_id)
unfolding is_rel
is_rel_joins e f h = (key_eq_sound f.key e.key (ground arith), ground arith, ground arith)

has-merge_rel :
    (e : Rel) (k : EdgeKey) (s t : ℕ) (es : List Rel)
    → has_rel k s t es ≡ true
    → has_rel k s t (merge_rel e es) ≡ true
unfolding has_rel merge_rel
has-merge_rel e k s t [] h = cc
has-merge_rel e k s t (f ∷ fs) h = elim (Bool-cases (is_rel e f)) [
  | inr other ↦ rw other (ground (arith, has-merge_rel e k s t fs))
  | inl same ↦
      let (a, b, c) = is_rel_joins e f same in
      let q : key_eq e.key k ≡ key_eq f.key k = ap (λ (l : EdgeKey). key_eq l k) (sym a) in
      rw same (ground arith)
]

pub merge_rel-has :
    (e : Rel) (es : List Rel) → has_rel e.key e.from_id e.to_id (merge_rel e es) ≡ true
unfolding has_rel merge_rel
merge_rel-has e [] = rw (key_eq_self e.key) (ground arith)
merge_rel-has e (f ∷ fs) = elim (Bool-cases (is_rel e f)) [
  | inl same ↦ rw (same, key_eq_self e.key) (ground arith)
  | inr other ↦ rw other (ground (arith, merge_rel-has e fs))
]

pub has-merge_rels :
    (rs : List Rel) (k : EdgeKey) (s t : ℕ) (es : List Rel)
    → has_rel k s t es ≡ true
    → has_rel k s t (merge_rels rs es) ≡ true
unfolding merge_rels
has-merge_rels [] k s t es h = h
has-merge_rels (r ∷ rs) k s t es h =
    has-merge_rels rs k s t (merge_rel r es) (has-merge_rel r k s t es h)

module _ (survivor : ℕ) (dups : List ℕ) where
  abbrev pub at : ℕ → ℕ
  at i = rep survivor dups i

  abbrev pub seen : Rel → List Rel → Bool
  seen r es = views survivor dups r.key (at r.from_id) (at r.to_id) es

  -- Merging an edge that the view has already changes nothing in the view.
  views-merge_rel :
      (e : Rel) (k : EdgeKey) (s t : ℕ) (es : List Rel)
      → views survivor dups k s t (merge_rel e es)
        ≡ ((key_eq e.key k && at e.from_id == s && at e.to_id == t) || views survivor dups k s t es)
  unfolding views merge_rel
  views-merge_rel e k s t [] = ground arith
  views-merge_rel e k s t (f ∷ fs) = elim (Bool-cases (is_rel e f)) [
    | inr other ↦ rw (other, views-merge_rel e k s t fs) (ground arith)
    | inl same ↦
        let (a, b, c) = is_rel_joins e f same in
        let q : key_eq f.key k ≡ key_eq e.key k = ap (λ (l : EdgeKey). key_eq l k) a in
        let u : at f.from_id ≡ at e.from_id = ap (λ (i : ℕ). at i) b in
        let v : at f.to_id ≡ at e.to_id = ap (λ (i : ℕ). at i) c in
        rw (same, q, u, v) (ground arith)
  ]

  views-seen :
      (r : Rel) (k : EdgeKey) (s t : ℕ) (es : List Rel)
      → (key_eq r.key k && at r.from_id == s && at r.to_id == t) ≡ true
      → seen r es ≡ true
      → views survivor dups k s t es ≡ true
  views-seen r k s t es h v =
      let a : r.key ≡ k = key_eq_sound r.key k (ground arith) in
      let b : at r.from_id ≡ s = ground arith in
      let c : at r.to_id ≡ t = ground arith in rw (← a, ← b, ← c) v

  pub views-merge_rels :
      (k : EdgeKey) (s t : ℕ) (rs es : List Rel)
      → All (λ r. seen r es ≡ true) rs
      → views survivor dups k s t (merge_rels rs es) ≡ views survivor dups k s t es
  unfolding merge_rels
  views-merge_rels k s t [] es h = refl
  views-merge_rels k s t (r ∷ rs) es h =
      let one : (l : EdgeKey) (a b : ℕ)
          → views survivor dups l a b (merge_rel r es) ≡ views survivor dups l a b es =
        λ l a b. views-merge_rel r l a b es ∙ absorbed _ _ (λ m. views-seen r l a b es m h.0) in
      views-merge_rels k s t rs (merge_rel r es) (still rs one h.1) ∙ one k s t
    where
      absorbed : (x y : Bool) → (x ≡ true → y ≡ true) → (x || y) ≡ y
      absorbed true y f = sym (f refl)
      absorbed false y f = refl

      still :
          (qs : List Rel)
          → ((l : EdgeKey) (a b : ℕ)
              → views survivor dups l a b (merge_rel r es) ≡ views survivor dups l a b es)
          → All (λ q. seen q es ≡ true) qs
          → All (λ q. seen q (merge_rel r es) ≡ true) qs
      still [] same g = tt
      still (q ∷ qs) same g = (same q.key (at q.from_id) (at q.to_id) ∙ g.0, still qs same g.1)
