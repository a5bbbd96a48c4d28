-- ===== src/Store/Postgres/Pages/Anchor.antt =====
-- store/postgres.go: LatestTransactionHashFor finds the latest transaction that called or created an
-- address.
use forensic_listener.Prelude.{
  ℕ, ◌≤◌, String, ◌≡◌, refl, Bool, true, false, ◌||◌, List, [], ◌∷◌, ◌++◌, arith, leb, keep, take,
  All, Any, Bool-cases, inl, inr, ◌⊎◌,
}
use forensic_listener.Store.Address.{AddressLib, normalize_address}
use forensic_listener.Store.Postgres.Transactions.{TxRow}
use forensic_listener.Store.Postgres.Pages.{
  insert_newest, newest, page, equals, first_hash, latest_transaction_hash_for,
}

abbrev time : TxRow → ℕ
time r = r.timestamp

-- The row is in the table.
abbrev pub IsRow : TxRow → List TxRow → Type 0
IsRow r rows = Any (λ s. s ≡ r) rows

-- What the latest of some rows is.
abbrev IsLatest : List TxRow → List TxRow → Type 0
IsLatest rows [] = rows ≡ []
IsLatest rows (r ∷ more) = (more ≡ []) × IsRow r rows × All (λ s. s.timestamp ≤ r.timestamp) rows

All-at-most :
    (a b : TxRow) (rows : List TxRow)
    → a.timestamp ≤ b.timestamp
    → All (λ s. s.timestamp ≤ a.timestamp) rows
    → All (λ s. s.timestamp ≤ b.timestamp) rows
All-at-most a b [] n h = tt
All-at-most a b (r ∷ rs) n h = (omega arith, All-at-most a b rs n h.1)

IsLatest-step :
    (x : TxRow) (rows sorted : List TxRow)
    → IsLatest rows (take 1 sorted)
    → IsLatest (x ∷ rows) (take 1 (insert_newest time x sorted))
unfolding insert_newest
IsLatest-step x rows [] h = (refl, inl refl, (omega arith, rw h tt))
IsLatest-step x rows (y ∷ ys) (e, i, all) = elim (Bool-cases (leb y.timestamp x.timestamp)) [
  | inl le ↦ rw le (refl, inl refl, (omega arith, All-at-most y x rows (ground arith) all))
  | inr gt ↦ rw gt (refl, inr i, (ground arith, all))
]

page-IsLatest : (rows : List TxRow) → IsLatest rows (page time 1 rows)
unfolding page newest
page-IsLatest [] = refl
page-IsLatest (x ∷ rows) = IsLatest-step x rows (newest time rows) (page-IsLatest rows)

keep-none : (p : TxRow → Bool) (rows : List TxRow) → keep p rows ≡ [] → All (λ r. p r ≡ false) rows
keep-none p [] e = tt
keep-none p (r ∷ rs) e = elim (Bool-cases (p r)) [
  | inl h ↦ cc (rw h at e)
  | inr h ↦ (h, keep-none p rs (rw h at e))
]

IsRow-keep :
    (p : TxRow → Bool) (r : TxRow) (rows : List TxRow)
    → IsRow r (keep p rows)
    → IsRow r rows × (p r ≡ true)
IsRow-keep p r [] i = elim i [ ]
IsRow-keep p r (s ∷ rows) i = elim (Bool-cases (p s)) [
  | inr e ↦ let (a, b) = IsRow-keep p r rows (rw e at i) in (inr a, b)
  | inl e ↦ elim (rw e at i) [
    | inl same ↦ (inl same, rw (← same) e)
    | inr later ↦ let (a, b) = IsRow-keep p r rows later in (inr a, b)
  ]
]

all-keep :
    (p : TxRow → Bool) (m : ℕ) (rows : List TxRow)
    → All (λ s. s.timestamp ≤ m) (keep p rows)
    → All (λ s. p s ≡ true → s.timestamp ≤ m) rows
all-keep p m [] h = tt
all-keep p m (s ∷ rows) h = elim (Bool-cases (p s)) [
  | inl e ↦ let (a, b) = rw e at h in (λ _. a, all-keep p m rows b)
  | inr e ↦ (λ t. cc, all-keep p m rows (rw e at h))
]

-- The transaction called the address, or created it.
abbrev pub involves : String → TxRow → Bool
involves a r = equals a r.to_address || equals a r.created_contract

merge_none :
    (p q : TxRow → Bool) (m : ℕ) (rows : List TxRow)
    → All (λ s. p s ≡ true → s.timestamp ≤ m) rows
    → All (λ s. q s ≡ true → s.timestamp ≤ m) rows
    → All (λ s. (p s || q s) ≡ true → s.timestamp ≤ m) rows
merge_none p q m [] h k = tt
merge_none p q m (s ∷ rows) h k = (
  λ e. elim (Bool-cases (p s)) [ inl a ↦ h.0 a | inr a ↦ k.0 (rw a at e) ],
  merge_none p q m rows h.1 k.1,
)

weaken :
    (p : TxRow → Bool) (m n : ℕ) (rows : List TxRow)
    → m ≤ n
    → All (λ s. p s ≡ true → s.timestamp ≤ m) rows
    → All (λ s. p s ≡ true → s.timestamp ≤ n) rows
weaken p m n [] le h = tt
weaken p m n (s ∷ rows) le h =
    (λ e. let k : s.timestamp ≤ m = h.0 e in omega arith, weaken p m n rows le h.1)

never :
    (p : TxRow → Bool) (m : ℕ) (rows : List TxRow)
    → All (λ s. p s ≡ false) rows
    → All (λ s. p s ≡ true → s.timestamp ≤ m) rows
never p m [] h = tt
never p m (s ∷ rows) h = (λ e. let k : p s ≡ false = h.0 in cc, never p m rows h.1)

neither :
    (p q : TxRow → Bool) (rows : List TxRow)
    → All (λ s. p s ≡ false) rows
    → All (λ s. q s ≡ false) rows
    → All (λ s. (p s || q s) ≡ false) rows
neither p q [] h k = tt
neither p q (s ∷ rows) h k =
    let a : p s ≡ false = h.0 in let b : q s ≡ false = k.0 in (rw a b, neither p q rows h.1 k.1)

-- The hash is empty and no row passes the test, or it is that of the latest row that does.
abbrev pub IsLatestHash : (TxRow → Bool) → List TxRow → String → Type 0
IsLatestHash p rows hash =
    (hash ≡ "") × All (λ s. p s ≡ false) rows
    ⊎ (r : TxRow) × (hash ≡ r.hash)
      × IsRow r rows
      × (p r ≡ true)
      × All (λ s. p s ≡ true → s.timestamp ≤ r.timestamp) rows

or_true : (b : Bool) → (b || true) ≡ true
or_true true = refl
or_true false = refl

module _ (p q : TxRow → Bool) (rows : List TxRow) where
  abbrev Found : List TxRow → Type 0
  Found best = IsLatestHash (λ s. p s || q s) rows (first_hash (page time 1 best))

  combine :
      (ts cs : List TxRow)
      → IsLatest (keep p rows) ts
      → IsLatest (keep q rows) cs
      → Found (ts ++ cs)
  unfolding page newest insert_newest
  combine [] [] h k = inl (refl, neither p q rows (keep-none p rows h) (keep-none q rows k))
  combine [] (c ∷ more) h (e, i, all) =
      let (a, b) = IsRow-keep q c rows i in
      rw e (
        inr (
          c,
          refl,
          a,
          rw b (or_true (p c)),
          merge_none p q c.timestamp rows (never p c.timestamp rows (keep-none p rows h))
              (all-keep q c.timestamp rows all),
        ))
  combine (t ∷ more) [] (e, i, all) k =
      let (a, b) = IsRow-keep p t rows i in
      rw e (
        inr (
          t,
          refl,
          a,
          rw b refl,
          merge_none p q t.timestamp rows (all-keep p t.timestamp rows all)
              (never q t.timestamp rows (keep-none q rows k)),
        ))
  combine (t ∷ more) (c ∷ rest) (e, i, all) (f, j, each) =
      let (a, b) = IsRow-keep p t rows i in
      let (u, v) = IsRow-keep q c rows j in
      let calls = all-keep p t.timestamp rows all in
      let creations = all-keep q c.timestamp rows each in
      elim (Bool-cases (leb c.timestamp t.timestamp)) [
        | inl le ↦
            rw (e, f, le)
              (inr (
                t,
                refl,
                a,
                rw b refl,
                merge_none p q t.timestamp rows calls
                    (weaken q c.timestamp t.timestamp rows (ground arith) creations),
              ))
        | inr gt ↦
            rw (e, f, gt)
              (inr (
                c,
                refl,
                u,
                rw v (or_true (p c)),
                merge_none p q c.timestamp rows
                    (weaken p t.timestamp c.timestamp rows (ground arith) calls) creations,
              ))
      ]

-- LatestTransactionHashFor returns the hash of the latest of all transactions that called or created
-- the address, however it is spelled, and the empty text where there is none.
pub latest_transaction_hash_for-IsLatest :
    (lib : AddressLib) (address : String) (rows : List TxRow)
    → IsLatestHash
        (involves (normalize_address lib address))
        rows
        (latest_transaction_hash_for lib address rows)
unfolding latest_transaction_hash_for
latest_transaction_hash_for-IsLatest lib address rows =
    let a = normalize_address lib address in
    combine (λ (r : TxRow). equals a r.to_address) (λ (r : TxRow). equals a r.created_contract) rows
      _ _ (page-IsLatest (keep (λ (r : TxRow). equals a r.to_address) rows))
      (page-IsLatest (keep (λ (r : TxRow). equals a r.created_contract) rows))
