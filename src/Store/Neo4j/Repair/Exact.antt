-- ===== src/Store/Neo4j/Repair/Exact.antt =====
-- store/neo4j.go: the moves and the deletion of repairAccountGroup leave exactly the edges that there
-- were, with the kept node for the duplicates.
use forensic_listener.Prelude.{
  ℕ, ◌≡◌, refl, sym, ◌∙◌, Bool, true, false, ◌&&◌, not, List, [], ◌∷◌, map, arith, ◌==◌, keep, All,
  Bool-cases, inl, inr,
}
use forensic_listener.Store.Neo4j.{EdgeKey, Kind, eth, token, key_eq}
use forensic_listener.Store.Neo4j.Repair.{
  Rel, is_in, is_kind, move_out, move_in, move_each, move_rels,
}
use forensic_listener.Store.Neo4j.Repair.Moves.{
  key_eq_self, joins, has_rel, rep, views, seen, views-merge_rels,
}
use forensic_listener.Store.Neo4j.Repair.Redirect.{moves-has}

All-map {ℓ} :
    {A : Type ℓ} (P : A → Type 0) (f : A → A) (p : A → Bool) (xs : List A)
    → ((x : A) → p x ≡ true → P x → P (f x))
    → All P xs
    → All P (map f (keep p xs))
All-map P f p [] g h = tt
All-map P f p (x ∷ xs) g h = elim (Bool-cases (p x)) [
  | inl e ↦ rw e (g x e h.0, All-map P f p xs g h.1)
  | inr e ↦ rw e (All-map P f p xs g h.1)
]

pub Bool-antisym : (a b : Bool) → (a ≡ true → b ≡ true) → (b ≡ true → a ≡ true) → a ≡ b
Bool-antisym true b f g = sym (f refl)
Bool-antisym false true f g = g refl
Bool-antisym false false f g = refl

module _ (survivor : ℕ) (dups : List ℕ) where
  rep_survivor : rep survivor dups survivor ≡ survivor
  rep_survivor = elim (Bool-cases (is_in dups survivor)) [ inl e ↦ rw e refl | inr e ↦ rw e refl ]

  seen-cons :
      (e : Rel) (es : List Rel) (xs : List Rel)
      → All (λ r. seen survivor dups r es ≡ true) xs
      → All (λ r. seen survivor dups r (e ∷ es) ≡ true) xs
  unfolding views
  seen-cons e es [] h = tt
  seen-cons e es (x ∷ xs) h = (ground arith, seen-cons e es xs h.1)

  all_seen : (es : List Rel) → All (λ r. seen survivor dups r es ≡ true) es
  unfolding views
  all_seen [] = tt
  all_seen (e ∷ es) = (rw (key_eq_self e.key) (ground arith), seen-cons e es es (all_seen es))

  -- A move that changes nothing of the view, for a duplicate.
  abbrev Keeps : (ℕ → List Rel → List Rel) → Type 0
  Keeps move =
      (d : ℕ) (k : EdgeKey) (s t : ℕ) (es : List Rel)
      → is_in dups d ≡ true
      → views survivor dups k s t (move d es) ≡ views survivor dups k s t es

  move_out-Keeps : (kind : Kind) → Keeps (move_out kind survivor)
  unfolding move_out
  move_out-Keeps kind d k s t es m = views-merge_rels survivor dups k s t _ es (
      All-map _ _ (λ (r : Rel). is_kind kind r.key && r.from_id == d) es
        (λ r e h.
          let q : d ≡ r.from_id = ground arith in
          let there : rep survivor dups r.from_id ≡ survivor = rw (rw q at m) refl in
          rw (rep_survivor) (rw there at h))
        (all_seen es))

  move_in-Keeps : (kind : Kind) → Keeps (move_in kind survivor)
  unfolding move_in
  move_in-Keeps kind d k s t es m = views-merge_rels survivor dups k s t _ es (
      All-map _ _ (λ (r : Rel). is_kind kind r.key && r.to_id == d) es
        (λ r e h.
          let q : d ≡ r.to_id = ground arith in
          let there : rep survivor dups r.to_id ≡ survivor = rw (rw q at m) refl in
          rw (rep_survivor) (rw there at h))
        (all_seen es))

  each-Keeps :
      (move : ℕ → List Rel → List Rel)
      → Keeps move
      → (ds : List ℕ) (k : EdgeKey) (s t : ℕ) (es : List Rel) → All (λ d. is_in dups d ≡ true) ds
      → views survivor dups k s t (move_each move ds es) ≡ views survivor dups k s t es
  unfolding move_each
  each-Keeps move g [] k s t es h = refl
  each-Keeps move g (d ∷ ds) k s t es h =
      each-Keeps move g ds k s t (move d es) h.1 ∙ g d k s t es h.0

  in-cons :
      (d : ℕ) (more xs : List ℕ)
      → All (λ x. is_in more x ≡ true) xs
      → All (λ x. is_in (d ∷ more) x ≡ true) xs
  in-cons d more [] h = tt
  in-cons d more (x ∷ xs) h = (ground arith, in-cons d more xs h.1)

all_in : (ds : List ℕ) → All (λ d. is_in ds d ≡ true) ds
all_in [] = tt
all_in (d ∷ ds) = (ground arith, in-cons 0 [] d ds ds (all_in ds))

module _ (survivor : ℕ) (dups : List ℕ) (k : EdgeKey) (s t : ℕ) where
  views-moves :
      (es : List Rel)
      → views survivor dups k s t (move_rels survivor dups es) ≡ views survivor dups k s t es
  unfolding move_rels
  views-moves es =
      let same = each-Keeps survivor dups in
      let h = all_in dups in
      same (move_in token survivor) (move_in-Keeps survivor dups token) dups k s t _ h
      ∙ same (move_out token survivor) (move_out-Keeps survivor dups token) dups k s t _ h
      ∙ same (move_in eth survivor) (move_in-Keeps survivor dups eth) dups k s t _ h
      ∙ same (move_out eth survivor) (move_out-Keeps survivor dups eth) dups k s t es h

  -- What the view shows is an edge, or one between duplicates.
  pub views-find :
      (es : List Rel)
      → views survivor dups k s t es ≡ true
      → (a b : ℕ) × (has_rel k a b es ≡ true)
        × (rep survivor dups a ≡ s)
        × (rep survivor dups b ≡ t)
  unfolding views has_rel
  views-find [] h = cc
  views-find (e ∷ es) h =
      elim (Bool-cases
        (key_eq e.key k && rep survivor dups e.from_id == s && rep survivor dups e.to_id == t)) [
          | inl here ↦ (e.from_id, e.to_id, ground arith, ground arith, ground arith)
          | inr other ↦
              let (a, b, i, u, v) = views-find es (rw other at h) in (a, b, ground arith, u, v)
        ]

  pub views-has :
      (a b : ℕ) (es : List Rel)
      → has_rel k a b es ≡ true
      → rep survivor dups a ≡ s
      → rep survivor dups b ≡ t
      → views survivor dups k s t es ≡ true
  unfolding views has_rel
  views-has a b [] h u v = cc
  views-has a b (e ∷ es) h u v = elim (Bool-cases (joins k a b e)) [
    | inl here ↦
        let p : e.from_id ≡ a = ground arith in
        let q : e.to_id ≡ b = ground arith in rw (p, q, u, v) (ground arith)
    | inr other ↦ let ih = views-has a b es (rw other at h) u v in ground arith
  ]

  abbrev is_left : Rel → Bool
  is_left r = not (is_in dups r.from_id) && not (is_in dups r.to_id)

  has-left :
      (es : List Rel)
      → has_rel k s t (keep is_left es)
        ≡ (not (is_in dups s) && not (is_in dups t) && has_rel k s t es)
  unfolding has_rel
  has-left [] = ground arith
  has-left (e ∷ es) = elim (Bool-cases (joins k s t e)) [
    | inl here ↦
        let p : e.from_id ≡ s = ground arith in
        let q : e.to_id ≡ t = ground arith in
        elim (Bool-cases (is_left e)) [
          | inl l ↦
              let m : (not (is_in dups s) && not (is_in dups t)) ≡ true = rw (p, q) at l in
              rw l (ground arith)
          | inr l ↦
              let m : (not (is_in dups s) && not (is_in dups t)) ≡ false = rw (p, q) at l in
              rw l (has-left es ∙ ground arith)
        ]
    | inr other ↦ elim (Bool-cases (is_left e)) [
      | inl l ↦ rw (l, other) (has-left es)
      | inr l ↦ rw (l, other) (has-left es)
    ]
  ]

  -- Where the kept node is not one of its duplicates, after the moves and the deletion of the duplicates
  -- an edge of this key joins two nodes exactly if one joined them before, or joined nodes that become
  -- them once the kept node stands for each duplicate.
  pub moves-views :
      (es : List Rel)
      → is_in dups survivor ≡ false
      → has_rel k s t (keep is_left (move_rels survivor dups es)) ≡ views survivor dups k s t es
  moves-views es out =
      has-left (move_rels survivor dups es)
      ∙ Bool-antisym _ _
          (λ h.
            sym (views-moves es)
            ∙ views-has s t (move_rels survivor dups es) (ground arith) (stays s (ground arith))
                (stays t (ground arith)))
          (λ h.
            let (a, b, i, u, v) = views-find es h in
            let there = moves-has survivor dups k a b es i in
            let l : is_in dups s ≡ false = rw (← u) (lands a) in
            let r : is_in dups t ≡ false = rw (← v) (lands b) in rw (l, r) (rw (u, v) at there))
    where
      stays : (i : ℕ) → is_in dups i ≡ false → rep survivor dups i ≡ i
      stays i e = rw e refl

      lands : (i : ℕ) → is_in dups (rep survivor dups i) ≡ false
      lands i = elim (Bool-cases (is_in dups i)) [ inl e ↦ rw e out | inr e ↦ rw e e ]
