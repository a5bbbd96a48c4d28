-- ===== src/Store/Postgres/Pages/Newest.antt =====
-- store/postgres.go: a page holds the newest rows.
use mathlib.Core.List.{Perm}
use mathlib.Core.List.Perm
use forensic_listener.Prelude.{
  ℕ, zero, suc, ◌≤◌, min, ◌≡◌, refl, ap, ◌∙◌, List, [], ◌∷◌, ◌++◌, arith, leb, take, drop, length,
  length-take, All, Bool-cases, inl, inr,
}
use forensic_listener.Store.Postgres.Pages.{insert_newest, newest, page}

module _ {A : Type 0} (key : A → ℕ) where
  -- None is newer than the one before it.
  abbrev pub IsNewestFirst : List A → Type 0
  IsNewestFirst [] = Unit
  IsNewestFirst (x ∷ xs) = All (λ y. key y ≤ key x) xs × IsNewestFirst xs

  insert_newest-perm : (x : A) (xs : List A) → Perm (insert_newest key x xs) (x ∷ xs)
  unfolding insert_newest
  insert_newest-perm x [] = Perm.refl (x ∷ [])
  insert_newest-perm x (y ∷ ys) = elim (Bool-cases (leb (key y) (key x))) [
    | inl e ↦ rw e (Perm.refl (x ∷ y ∷ ys))
    | inr e ↦ rw e (Perm.trans (Perm.cons y (insert_newest-perm x ys)) (Perm.swap x y ys))
  ]

  newest-perm : (xs : List A) → Perm (newest key xs) xs
  unfolding newest
  newest-perm [] = Perm.refl []
  newest-perm (x ∷ xs) =
      Perm.trans (insert_newest-perm x (newest key xs)) (Perm.cons x (newest-perm xs))

  All-insert :
      (P : A → Type 0) (x : A) (xs : List A) → P x → All P xs → All P (insert_newest key x xs)
  unfolding insert_newest
  All-insert P x [] p h = (p, tt)
  All-insert P x (y ∷ ys) p h = elim (Bool-cases (leb (key y) (key x))) [
    | inl e ↦ rw e (p, h)
    | inr e ↦ rw e (h.0, All-insert P x ys p h.1)
  ]

  All-le :
      (a b : A) (xs : List A)
      → key a ≤ key b
      → All (λ y. key y ≤ key a) xs
      → All (λ y. key y ≤ key b) xs
  All-le a b [] n h = tt
  All-le a b (x ∷ xs) n h = (omega arith, All-le a b xs n h.1)

  insert-IsNewestFirst :
      (x : A) (xs : List A) → IsNewestFirst xs → IsNewestFirst (insert_newest key x xs)
  unfolding insert_newest
  insert-IsNewestFirst x [] h = (tt, tt)
  insert-IsNewestFirst x (y ∷ ys) h = elim (Bool-cases (leb (key y) (key x))) [
    | inl e ↦ let n : key y ≤ key x = ground arith in rw e ((n, All-le y x ys n h.0), h)
    | inr e ↦
        rw e
          (All-insert (λ z. key z ≤ key y) x ys (ground arith) h.0, insert-IsNewestFirst x ys h.1)
  ]

  newest-IsNewestFirst : (xs : List A) → IsNewestFirst (newest key xs)
  unfolding newest
  newest-IsNewestFirst [] = tt
  newest-IsNewestFirst (x ∷ xs) = insert-IsNewestFirst x (newest key xs) (newest-IsNewestFirst xs)

  take-All : (P : A → Type 0) (n : ℕ) (xs : List A) → All P xs → All P (take n xs)
  take-All P zero xs h = tt
  take-All P (suc n) [] h = tt
  take-All P (suc n) (x ∷ xs) h = (h.0, take-All P n xs h.1)

  drop-All : (P : A → Type 0) (n : ℕ) (xs : List A) → All P xs → All P (drop n xs)
  drop-All P zero xs h = h
  drop-All P (suc n) [] h = tt
  drop-All P (suc n) (x ∷ xs) h = drop-All P n xs h.1

  -- The first n are newest first, and none after them is newer than one of them.
  split_newest :
      (n : ℕ) (xs : List A)
      → IsNewestFirst xs
      → IsNewestFirst (take n xs)
        × All (λ x. All (λ y. key y ≤ key x) (drop n xs)) (take n xs)
        × (take n xs ++ drop n xs ≡ xs)
  split_newest zero xs h = (tt, tt, refl)
  split_newest (suc n) [] h = (tt, tt, refl)
  split_newest (suc n) (x ∷ xs) h =
      let (a, b, c) = split_newest n xs h.1 in
      ((take-All _ n xs h.0, a), (drop-All _ n xs h.0, b), ap (λ t. x ∷ t) c)

  length-insert : (x : A) (xs : List A) → length (insert_newest key x xs) ≡ suc (length xs)
  unfolding insert_newest
  length-insert x [] = refl
  length-insert x (y ∷ ys) = elim (Bool-cases (leb (key y) (key x))) [
    | inl e ↦ rw e refl
    | inr e ↦ rw e (ap suc (length-insert x ys))
  ]

  pub length-newest : (xs : List A) → length (newest key xs) ≡ length xs
  unfolding newest
  length-newest [] = refl
  length-newest (x ∷ xs) = length-insert x (newest key xs) ∙ ap suc (length-newest xs)

  -- A page has as many rows as the limit allows, each as often as in the table, newest first; a row that
  -- is left out is not newer than any on the page.
  pub page_lem :
      (limit : ℕ) (rows : List A)
      → (rest : List A) × Perm (page key limit rows ++ rest) rows
        × IsNewestFirst (page key limit rows)
        × All (λ x. All (λ y. key y ≤ key x) rest) (page key limit rows)
        × (length (page key limit rows) ≡ min limit (length rows))
  unfolding page
  page_lem limit rows =
      let sorted = newest key rows in
      let (a, b, c) = split_newest limit sorted (newest-IsNewestFirst rows) in
      let all : Perm (take limit sorted ++ drop limit sorted) rows = rw c (newest-perm rows) in
      (drop limit sorted, all, a, b, length-take limit sorted ∙ ap (min limit) (length-newest rows))
