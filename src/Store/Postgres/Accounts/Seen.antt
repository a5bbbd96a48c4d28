-- ===== src/Store/Postgres/Accounts/Seen.antt =====
-- store/postgres.go: which accounts a touch leaves seen at a time, and that touching again adds nothing.
use forensic_listener.Prelude.{
  sym, ◌∙◌, ◌||◌, ℕ, max, String, ◌≡◌, refl, ap, Bool, true, false, List, [], ◌∷◌, arith, leb,
  str_eq, eq_iff, if◌then◌else◌, any, All, Bool-cases, inl, inr,
}
use forensic_listener.Models.{Account}
use forensic_listener.Store.Postgres.Accounts.{
  has_account, is_account_format, touch_account, distinct_addresses, touch_all, upsert_accounts,
  mark_contracts,
}

-- The account is stored, and was last seen at `ts` or later.
pub seen_by : ℕ → String → List Account → Bool
seen_by ts a [] = false
seen_by ts a (r ∷ rs) = if str_eq r.address a then leb ts r.last_seen else seen_by ts a rs

max-of-le : (a b : ℕ) → leb b a ≡ true → max a b ≡ a
max-of-le a b h = ground arith

touch-seen :
    (ts : ℕ) (a : String) (rows : List Account)
    → seen_by ts a rows ≡ true
    → touch_account ts a rows ≡ rows
unfolding seen_by touch_account
touch-seen ts a [] h = cc
touch-seen ts a (r ∷ rs) h = elim (Bool-cases (str_eq r.address a)) [
  | inl e ↦ rw e (rw (max-of-le r.last_seen ts (rw e at h)) refl)
  | inr e ↦ rw e (ap (λ t. r ∷ t) (touch-seen ts a rs (rw e at h)))
]

seen-touch_self :
    (ts : ℕ) (a : String) (rows : List Account) → seen_by ts a (touch_account ts a rows) ≡ true
unfolding seen_by touch_account
seen-touch_self ts a [] = ground (arith, eq_iff a a)
seen-touch_self ts a (r ∷ rs) = ground (arith, seen-touch_self ts a rs)

seen-touch :
    (ts : ℕ) (a b : String) (rows : List Account)
    → seen_by ts a rows ≡ true
    → seen_by ts a (touch_account ts b rows) ≡ true
unfolding seen_by touch_account
seen-touch ts a b [] h = cc
seen-touch ts a b (r ∷ rs) h = ground (arith, seen-touch ts a b rs)

seen-touch_all :
    (ts : ℕ) (a : String) (more : List String) (rows : List Account)
    → seen_by ts a rows ≡ true
    → seen_by ts a (touch_all ts more rows) ≡ true
unfolding touch_all
seen-touch_all ts a [] rows h = h
seen-touch_all ts a (b ∷ more) rows h =
    seen-touch_all ts a more (touch_account ts b rows) (seen-touch ts a b rows h)

All-seen :
    (ts : ℕ) (addresses : List String) (rows : List Account)
    → All (λ a. seen_by ts a (touch_all ts addresses rows) ≡ true) addresses
unfolding touch_all
All-seen ts [] rows = tt
All-seen ts (a ∷ more) rows = (
  seen-touch_all ts a more (touch_account ts a rows) (seen-touch_self ts a rows),
  All-seen ts more (touch_account ts a rows),
)

touch_all-seen :
    (ts : ℕ) (addresses : List String) (rows : List Account)
    → All (λ a. seen_by ts a rows ≡ true) addresses
    → touch_all ts addresses rows ≡ rows
unfolding touch_all
touch_all-seen ts [] rows h = refl
touch_all-seen ts (a ∷ more) rows h =
    rw (touch-seen ts a rows h.0) (touch_all-seen ts more rows h.1)

pub upsert_accounts_idem :
    (addresses : List String) (ts : ℕ) (rows : List Account)
    → upsert_accounts addresses ts (upsert_accounts addresses ts rows)
      ≡ upsert_accounts addresses ts rows
unfolding upsert_accounts
upsert_accounts_idem addresses ts rows =
    touch_all-seen ts (distinct_addresses addresses) _
      (All-seen ts (distinct_addresses addresses) rows)

seen-has :
    (ts : ℕ) (a : String) (rows : List Account)
    → seen_by ts a rows ≡ true
    → has_account a rows ≡ true
unfolding seen_by has_account
seen-has ts a [] h = cc
seen-has ts a (r ∷ rs) h = ground (arith, seen-has ts a rs)

-- Every address but the empty one is among the distinct ones.
distinct_complete :
    (a : String) (addresses : List String)
    → str_eq a "" ≡ false
    → any (λ b. str_eq b a) addresses ≡ true
    → any (λ b. str_eq b a) (distinct_addresses addresses) ≡ true
unfolding distinct_addresses
distinct_complete a [] n h = cc
distinct_complete a (b ∷ more) n h = ground (arith, eq_iff b a, distinct_complete a more n)

All-any :
    (P : String → Type 0) (a : String) (addresses : List String)
    → All P addresses
    → any (λ b. str_eq b a) addresses ≡ true
    → P a
All-any P a [] h e = cc
All-any P a (b ∷ more) h e = elim (Bool-cases (str_eq b a)) [
  | inl same ↦ let q : b ≡ a = (eq_iff b a).0 same in rw (← q) h.0
  | inr other ↦ All-any P a more h.1 (rw other at e)
]

-- After the statement every listed address but the empty one is stored, and was last seen at the
-- time of the statement or later.
pub upsert_accounts-seen :
    (addresses : List String) (ts : ℕ) (rows : List Account) (a : String)
    → str_eq a "" ≡ false
    → any (λ b. str_eq b a) addresses ≡ true
    → seen_by ts a (upsert_accounts addresses ts rows) ≡ true
unfolding upsert_accounts
upsert_accounts-seen addresses ts rows a n h =
    All-any _ a (distinct_addresses addresses) (All-seen ts (distinct_addresses addresses) rows)
      (distinct_complete a addresses n h)

pub upsert_accounts-has :
    (addresses : List String) (ts : ℕ) (rows : List Account) (a : String)
    → str_eq a "" ≡ false
    → any (λ b. str_eq b a) addresses ≡ true
    → has_account a (upsert_accounts addresses ts rows) ≡ true
upsert_accounts-has addresses ts rows a n h =
    seen-has ts a _ (upsert_accounts-seen addresses ts rows a n h)

has-touch :
    (ts : ℕ) (a b : String) (rows : List Account)
    → has_account a rows ≡ true
    → has_account a (touch_account ts b rows) ≡ true
unfolding has_account touch_account
has-touch ts a b [] h = cc
has-touch ts a b (r ∷ rs) h = ground (arith, has-touch ts a b rs)

pub has-touch_all :
    (ts : ℕ) (a : String) (more : List String) (rows : List Account)
    → has_account a rows ≡ true
    → has_account a (touch_all ts more rows) ≡ true
unfolding touch_all
has-touch_all ts a [] rows h = h
has-touch_all ts a (b ∷ more) rows h =
    has-touch_all ts a more (touch_account ts b rows) (has-touch ts a b rows h)

pub has-mark_contracts :
    (a : String) (created : List String) (rows : List Account)
    → has_account a (mark_contracts created rows) ≡ has_account a rows
unfolding has_account mark_contracts
has-mark_contracts a created [] = refl
has-mark_contracts a created (r ∷ rs) = ground (arith, has-mark_contracts a created rs)

All-of_any :
    (P : String → Type 0) (addresses : List String)
    → ((a : String) → any (λ b. str_eq b a) addresses ≡ true → P a)
    → All P addresses
All-of_any P [] h = tt
All-of_any P (a ∷ more) h =
    (h a (ground (arith, eq_iff a a)), All-of_any P more (λ b m. h b (ground (arith, m))))

-- The address is blank or stored.
abbrev pub IsStored : List Account → String → Type 0
IsStored rows a = (str_eq a "" || has_account a rows) ≡ true

pub upsert_accounts-IsStored :
    (addresses : List String) (ts : ℕ) (rows : List Account)
    → All (IsStored (upsert_accounts addresses ts rows)) addresses
upsert_accounts-IsStored addresses ts rows = All-of_any _ addresses (λ a m.
    elim (Bool-cases (str_eq a "")) [
      | inl blank ↦ rw blank refl
      | inr text ↦ rw (text, upsert_accounts-has addresses ts rows a text m) refl
    ])

-- An address that passes the CHECK is not blank.
pub format-text : (a : String) → is_account_format a ≡ true → str_eq a "" ≡ false
unfolding is_account_format
format-text a h = elim (Bool-cases (str_eq a "")) [
  | inr text ↦ text
  | inl blank ↦
      let q : is_account_format "" ≡ true =
        ap is_account_format (sym ((eq_iff a "").0 blank)) ∙ h in
      cc
]
