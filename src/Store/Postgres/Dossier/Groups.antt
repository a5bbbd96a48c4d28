-- ===== src/Store/Postgres/Dossier/Groups.antt =====
-- store/postgres.go: the groups of a GROUP BY add up to the rows, and ORDER BY keeps their sums.
use forensic_listener.Prelude.{
  ℕ, zero, suc, ◌+◌, ◌≤◌, String, ◌≡◌, refl, ap, ◌∙◌, true, List, [], ◌∷◌, ◌++◌, map, arith, str_eq,
  eq_iff, eq_refl, leb, if◌then◌else◌, any, keep, take, length, All, Bool-cases, inl, inr,
}
use forensic_listener.Store.Postgres.Pages.{insert_newest, newest}
use forensic_listener.Store.Postgres.Network.{count_distinct}
use forensic_listener.Store.Postgres.Dossier.{sum_all, distinct_names}

pub length-distinct : (xs : List String) → length (distinct_names xs) ≡ count_distinct xs
unfolding distinct_names count_distinct
length-distinct [] = refl
length-distinct (x ∷ xs) = elim (Bool-cases (any (str_eq x) xs)) [
  | inl e ↦ rw e (length-distinct xs)
  | inr e ↦ rw e (omega (arith, length-distinct xs))
]

abbrev picked : String → ℕ → String → ℕ
picked a v c = if str_eq a c then v else 0

any-same :
    (a b : String) (xs : List String) → str_eq a b ≡ true → any (str_eq a) xs ≡ any (str_eq b) xs
any-same a b xs e = ap (λ c. any (str_eq c) xs) ((eq_iff a b).0 e)

-- A name of the list is one of its distinct names once.
sum-picked :
    (a : String) (v : ℕ) (xs : List String)
    → sum_all (picked a v) (distinct_names xs) ≡ (if any (str_eq a) xs then v else 0)
unfolding distinct_names sum_all
sum-picked a v [] = refl
sum-picked a v (x ∷ xs) = elim (Bool-cases (str_eq a x)) [
  | inl same ↦
      let there = any-same a x xs same in
      elim (Bool-cases (any (str_eq x) xs)) [
        | inl e ↦ rw e (sum-picked a v xs ∙ rw (same, there, e) refl)
        | inr e ↦ rw (e, same, sum-picked a v xs, there, e) (omega arith)
      ]
  | inr other ↦ elim (Bool-cases (any (str_eq x) xs)) [
    | inl e ↦ rw e (sum-picked a v xs ∙ rw other refl)
    | inr e ↦ rw (e, other, sum-picked a v xs) (omega arith)
  ]
]

module _ {ℓ} {A : Type ℓ} where
  pub sum-add :
      (f g h : A → ℕ) (xs : List A)
      → ((x : A) → h x ≡ f x + g x)
      → sum_all h xs ≡ sum_all f xs + sum_all g xs
  unfolding sum_all
  sum-add f g h [] e = refl
  sum-add f g h (x ∷ xs) e = omega (arith, e x, sum-add f g h xs e)

  pub sum-append : (f : A → ℕ) (xs ys : List A) → sum_all f (xs ++ ys) ≡ sum_all f xs + sum_all f ys
  unfolding sum_all
  sum-append f [] ys = omega arith
  sum-append f (x ∷ xs) ys = omega (arith, sum-append f xs ys)

  pub sum_one : (xs : List A) → sum_all (λ x. 1) xs ≡ length xs
  unfolding sum_all
  sum_one [] = refl
  sum_one (x ∷ xs) = omega (arith, sum_one xs)

  pub sum-cong : (f g : A → ℕ) (xs : List A) → ((x : A) → f x ≡ g x) → sum_all f xs ≡ sum_all g xs
  unfolding sum_all
  sum-cong f g [] e = refl
  sum-cong f g (x ∷ xs) e = omega (arith, e x, sum-cong f g xs e)

  sum_zero : (xs : List A) → sum_all (λ x. 0) xs ≡ 0
  unfolding sum_all
  sum_zero [] = refl
  sum_zero (x ∷ xs) = omega (arith, sum_zero xs)

module _ {ℓ} {A : Type ℓ} (name : A → String) (f : A → ℕ) where
  abbrev pub group_sum : List A → String → ℕ
  group_sum xs c = sum_all f (keep (λ x. str_eq (name x) c) xs)

  step :
      (x : A) (xs : List A) (c : String)
      → group_sum (x ∷ xs) c ≡ picked (name x) (f x) c + group_sum xs c
  unfolding sum_all
  step x xs c = elim (Bool-cases (str_eq (name x) c)) [
    | inl e ↦ rw e refl
    | inr e ↦ rw e (omega arith)
  ]

  -- The sums of the groups of a list whose names are all listed add up to its sum.
  grouped :
      (names : List String) (xs : List A)
      → All (λ x. any (str_eq (name x)) names ≡ true) xs
      → sum_all (group_sum xs) (distinct_names names) ≡ sum_all f xs
  unfolding sum_all
  grouped names [] h = sum_zero (distinct_names names)
  grouped names (x ∷ xs) h =
      sum-add (picked (name x) (f x)) (group_sum xs) (group_sum (x ∷ xs)) (distinct_names names)
        (step x xs)
      ∙ rw (sum-picked (name x) (f x) names, h.0, grouped names xs h.1) refl

  any-widen :
      (ys : List String) (y : String) (xs : List A)
      → All (λ x. any (str_eq (name x)) ys ≡ true) xs
      → All (λ x. any (str_eq (name x)) (y ∷ ys) ≡ true) xs
  any-widen ys y [] h = tt
  any-widen ys y (x ∷ xs) h = (let e = h.0 in ground arith, any-widen ys y xs h.1)

  all_named : (xs : List A) → All (λ x. any (str_eq (name x)) (map name xs) ≡ true) xs
  all_named [] = tt
  all_named (x ∷ xs) =
      (let e = eq_refl (name x) in ground arith, any-widen (map name xs) (name x) xs (all_named xs))

  -- GROUP BY loses and doubles no row.
  pub sum-groups :
      (xs : List A) → sum_all (group_sum xs) (distinct_names (map name xs)) ≡ sum_all f xs
  sum-groups xs = grouped (map name xs) xs (all_named xs)

module _ {A : Type 0} where
  sum-insert :
      (f key : A → ℕ) (x : A) (xs : List A)
      → sum_all f (insert_newest key x xs) ≡ f x + sum_all f xs
  unfolding insert_newest sum_all
  sum-insert f key x [] = refl
  sum-insert f key x (y ∷ ys) = elim (Bool-cases (leb (key y) (key x))) [
    | inl e ↦ rw e refl
    | inr e ↦ rw e (omega (arith, sum-insert f key x ys))
  ]

  -- ORDER BY keeps every sum.
  pub sum-newest : (f key : A → ℕ) (xs : List A) → sum_all f (newest key xs) ≡ sum_all f xs
  unfolding newest sum_all
  sum-newest f key [] = refl
  sum-newest f key (x ∷ xs) =
      sum-insert f key x (newest key xs) ∙ omega (arith, sum-newest f key xs)

  pub take-all : (n : ℕ) (xs : List A) → length xs ≤ n → take n xs ≡ xs
  take-all zero [] h = refl
  take-all zero (x ∷ xs) h = absurd (omega arith)
  take-all (suc n) [] h = refl
  take-all (suc n) (x ∷ xs) h = ap (λ t. x ∷ t) (take-all n xs (omega arith))

  pub sum-map {ℓ} :
      {B : Type ℓ} (f : A → ℕ) (g : B → A) (xs : List B)
      → sum_all f (map g xs) ≡ sum_all (λ x. f (g x)) xs
  unfolding sum_all
  sum-map f g [] = refl
  sum-map f g (x ∷ xs) = ap (λ n. f (g x) + n) (sum-map f g xs)
