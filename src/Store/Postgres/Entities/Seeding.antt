-- ===== src/Store/Postgres/Entities/Seeding.antt =====
-- store/postgres.go: what SeedKnownEntities leaves alone, and that seeding again changes nothing.
use forensic_listener.Prelude.{
  ℕ, ◌+◌, String, ◌≡◌, refl, ap, Bool, true, false, ◌||◌, not, Option, none, some, List, [], ◌∷◌,
  arith, str_eq, eq_iff, eq_refl, if◌then◌else◌, All, Bool-cases, inl, inr, ◌⊎◌,
}
use forensic_listener.Models.{Account}
use forensic_listener.Store.Address.{AddressLib, normalize_address}
use forensic_listener.Store.Postgres.Accounts.{has_account}
use forensic_listener.Store.Postgres.Entities.{
  EntityRow, KnownEntitySeed, LabelDb, find_entity, same_label, is_stale, seed_entity, seed_account,
  SeedOutcome, both, account_fails, entity_fails, seeded, db_after, seed_row, account_seeded,
  entity_seeded, seed_known_entities, count_seeded,
}

-- A row that is not a seed, or that already has this label.
abbrev current : EntityRow → Option EntityRow → Bool
current e none = false
current e (some r) = not (is_stale r e)

-- Nothing is left to do for the entity, or for the account.
abbrev entity_settled : EntityRow → List EntityRow → Bool
entity_settled e rows = current e (find_entity e.address rows)

abbrev account_settled : String → Bool → List Account → Bool
account_settled a contract [] = false
account_settled a contract (r ∷ rs) =
    if str_eq r.address a then r.is_contract || not contract else account_settled a contract rs

never_stale : (e : EntityRow) → is_stale e e ≡ false
unfolding is_stale same_label
never_stale e = ground (arith, eq_refl e.name, eq_refl e.entity_type, eq_refl e.risk_level)

seed-settles :
    (e : EntityRow) (rows : List EntityRow) → entity_settled e (seed_entity e rows).0 ≡ true
unfolding find_entity seed_entity
seed-settles e [] = rw (eq_refl e.address) (rw (never_stale e) refl)
seed-settles e (r ∷ rs) = elim (Bool-cases (str_eq r.address e.address)) [
  | inr other ↦ rw (other, other) (seed-settles e rs)
  | inl same ↦ elim (Bool-cases (is_stale r e)) [
    | inl old ↦ rw (same, old, eq_refl e.address) (rw (never_stale e) refl)
    | inr new ↦ rw (same, new, same) (rw new refl)
  ]
]

seed-fixed :
    (e : EntityRow) (rows : List EntityRow)
    → entity_settled e rows ≡ true
    → seed_entity e rows ≡ (rows, 0)
unfolding find_entity seed_entity
seed-fixed e [] h = cc
seed-fixed e (r ∷ rs) h = elim (Bool-cases (str_eq r.address e.address)) [
  | inl same ↦
      let fresh : is_stale r e ≡ false = let g = rw same at h in ground arith in
      rw (same, fresh) refl
  | inr other ↦ rw (other, seed-fixed e rs (rw other at h)) refl
]

-- A seed of one address leaves the others' rows as they are.
seed-other :
    (a : String) (e : EntityRow) (rows : List EntityRow)
    → str_eq a e.address ≡ false
    → find_entity a (seed_entity e rows).0 ≡ find_entity a rows
unfolding find_entity seed_entity
seed-other a e [] d = ground (arith, eq_iff a e.address, eq_iff e.address a)
seed-other a e (r ∷ rs) d = ground (
  arith,
  seed-other a e rs d,
  eq_iff a e.address,
  eq_iff r.address e.address,
  eq_iff e.address a,
  eq_iff r.address a,
)

-- A row that an investigator edited is left as it is.
seed-manual :
    (a : String) (e r : EntityRow) (rows : List EntityRow)
    → find_entity a rows ≡ some r
    → str_eq r.source "seed" ≡ false
    → find_entity a (seed_entity e rows).0 ≡ some r
unfolding find_entity seed_entity is_stale
seed-manual a e r [] h m = cc
seed-manual a e r (s ∷ rs) h m = elim (Bool-cases (str_eq s.address a)) [
  | inr other ↦ elim (Bool-cases (str_eq s.address e.address)) [
    | inr apart ↦ rw (apart, other) (seed-manual a e r rs (rw other at h) m)
    | inl same ↦
        let q : s.address ≡ e.address = (eq_iff s.address e.address).0 same in ground (arith)
  ]
  | inl here ↦
      let q : s ≡ r = let g = rw here at h in cc in
      let k : str_eq s.source "seed" ≡ false = rw q m in ground arith
]

account-settles :
    (now : ℕ) (a : String) (c : Bool) (rows : List Account)
    → account_settled a c (seed_account now a c rows) ≡ true
unfolding seed_account
account-settles now a c [] = ground (arith, eq_refl a)
account-settles now a c (r ∷ rs) = ground (arith, account-settles now a c rs)

account-fixed :
    (now : ℕ) (a : String) (c : Bool) (rows : List Account)
    → account_settled a c rows ≡ true
    → seed_account now a c rows ≡ rows
unfolding seed_account
account-fixed now a c [] h = cc
account-fixed now a c (r ∷ rs) h = elim (Bool-cases (str_eq r.address a)) [
  | inl same ↦
      let k : (r.is_contract || c) ≡ r.is_contract = let g = rw same at h in ground arith in
      rw same (ap (λ (b : Bool). record r { is_contract = b } ∷ rs) k)
  | inr other ↦ rw other (ap (λ t. r ∷ t) (account-fixed now a c rs (rw other at h)))
]

account-keeps :
    (now : ℕ) (a b : String) (c d : Bool) (rows : List Account)
    → account_settled a c rows ≡ true
    → account_settled a c (seed_account now b d rows) ≡ true
unfolding seed_account
account-keeps now a b c d [] h = cc
account-keeps now a b c d (r ∷ rs) h = ground (arith, account-keeps now a b c d rs)

pub has-seed_account :
    (now : ℕ) (a b : String) (d : Bool) (rows : List Account)
    → has_account a rows ≡ true
    → has_account a (seed_account now b d rows) ≡ true
unfolding seed_account has_account
has-seed_account now a b d [] h = cc
has-seed_account now a b d (r ∷ rs) h = ground (arith, has-seed_account now a b d rs)

outcome_cases : (o : SeedOutcome) → (o ≡ both) ⊎ ((o ≡ account_fails) ⊎ (o ≡ entity_fails))
outcome_cases both = inl refl
outcome_cases account_fails = inr (inl refl)
outcome_cases entity_fails = inr (inr refl)

add_zero : (n : ℕ) → n + 0 ≡ n
add_zero n = omega arith

module _ (lib : AddressLib) where
  abbrev pub seed_address : KnownEntitySeed → String
  seed_address s = normalize_address lib s.address

  -- No two seeds stand for one address.
  abbrev pub IsDistinct : List KnownEntitySeed → Type 0
  IsDistinct [] = Unit
  IsDistinct (s ∷ ss) =
      All (λ t. str_eq (seed_address s) (seed_address t) ≡ false) ss × IsDistinct ss

  -- The seed is without address, or applied.
  abbrev IsSettled : KnownEntitySeed → LabelDb → Type 0
  IsSettled s db =
      str_eq (seed_address s) "" ≡ false
      → (entity_settled (seed_row lib 0 s) db.known_entities ≡ true)
        × (account_settled (seed_address s) s.is_contract db.accounts ≡ true)

  -- What holds of the tables, and is kept by both statements of each seed, holds after the seeding,
  -- wherever it stops.
  pub seeding_keeps :
      (P : LabelDb → Type 0) (now : ℕ) (outcome : String → SeedOutcome) (n : ℕ)
      (ss : List KnownEntitySeed) (db : LabelDb)
      → ((s : KnownEntitySeed) (d : LabelDb) → P d → P (account_seeded lib now s d))
      → ((s : KnownEntitySeed) (d : LabelDb) → P d → P (entity_seeded lib now s d))
      → P db
      → P (db_after (seed_known_entities lib now outcome n ss db))
  unfolding seed_known_entities
  seeding_keeps P now outcome n [] db a e h = h
  seeding_keeps P now outcome n (s ∷ ss) db a e h = elim (Bool-cases (str_eq (seed_address s) "")) [
    | inl blank ↦ rw blank (seeding_keeps P now outcome n ss db a e h)
    | inr named ↦ elim (outcome_cases (outcome s.address)) [
      | inl o ↦
          rw (named, o)
            (seeding_keeps P now outcome (count_seeded lib now n s db) ss
              (entity_seeded lib now s db) a e (e s db h))
      | inr (inl o) ↦ rw (named, o) h
      | inr (inr o) ↦ rw (named, o) (a s db h)
    ]
  ]

  -- Seeding never changes a label whose source is not `seed`, as that of an investigator, wherever it
  -- stops.
  pub manual_survives :
      (now : ℕ) (outcome : String → SeedOutcome) (ss : List KnownEntitySeed) (db : LabelDb)
      (a : String) (r : EntityRow)
      → find_entity a db.known_entities ≡ some r
      → str_eq r.source "seed" ≡ false
      → find_entity a (db_after (seed_known_entities lib now outcome 0 ss db)).known_entities
        ≡ some r
  manual_survives now outcome ss db a r h m =
      seeding_keeps (λ d. find_entity a d.known_entities ≡ some r) now outcome 0 ss db (λ s d k. k)
        (λ s d k. unfold entity_seeded in seed-manual a (seed_row lib now s) r d.known_entities k m)
        h

  stays_one :
      (s t : KnownEntitySeed) (now : ℕ) (db : LabelDb)
      → str_eq (seed_address s) (seed_address t) ≡ false
      → IsSettled s db
      → IsSettled s (entity_seeded lib now t db)
  unfolding entity_seeded seed_row
  stays_one s t now db d k = λ named.
      let (e, a) = k named in
      (
        rw (seed-other (seed_address s) (seed_row lib now t) db.known_entities d) e,
        account-keeps now (seed_address s) (seed_address t) s.is_contract t.is_contract db.accounts
            a,
      )

  settles_one :
      (s : KnownEntitySeed) (now : ℕ) (db : LabelDb) → IsSettled s (entity_seeded lib now s db)
  unfolding entity_seeded seed_row is_stale same_label
  settles_one s now db = λ named. (
    seed-settles (seed_row lib now s) db.known_entities,
    account-settles now (seed_address s) s.is_contract db.accounts,
  )

  settled_one :
      (s : KnownEntitySeed) (now : ℕ) (db : LabelDb)
      → entity_settled (seed_row lib 0 s) db.known_entities ≡ true
      → account_settled (seed_address s) s.is_contract db.accounts ≡ true
      → (entity_seeded lib now s db ≡ db)
        × ((seed_entity (seed_row lib now s) db.known_entities).1 ≡ 0)
  unfolding entity_seeded seed_row is_stale same_label
  settled_one s now db e a =
      let q = seed-fixed (seed_row lib now s) db.known_entities e in
      (rw (q, account-fixed now (seed_address s) s.is_contract db.accounts a) refl, rw q refl)

  -- A seeding that goes through, seen from one seed that is not among those left.
  IsSettled-stays :
      (s : KnownEntitySeed) (now : ℕ) (outcome : String → SeedOutcome) (n m : ℕ)
      (ss : List KnownEntitySeed) (db done : LabelDb)
      → All (λ t. str_eq (seed_address s) (seed_address t) ≡ false) ss
      → seed_known_entities lib now outcome n ss db ≡ seeded m done
      → IsSettled s db
      → IsSettled s done
  unfolding seed_known_entities entity_seeded seed_row
  IsSettled-stays s now outcome n m [] db done d h k = let q : db ≡ done = cc in rw (← q) k
  IsSettled-stays s now outcome n m (t ∷ ts) db done d h k =
      elim (Bool-cases (str_eq (seed_address t) "")) [
        | inl blank ↦ IsSettled-stays s now outcome n m ts db done d.1 (rw blank at h) k
        | inr named ↦ elim (outcome_cases (outcome t.address)) [
          | inl o ↦
              IsSettled-stays s now outcome (count_seeded lib now n t db) m ts
                (entity_seeded lib now t db) done d.1 (rw (named, o) at h)
                (stays_one s t now db d.0 k)
          | inr (inl o) ↦ let g = rw (named, o) at h in cc
          | inr (inr o) ↦ let g = rw (named, o) at h in cc
        ]
      ]

  -- A seeding that goes through settles every seed.
  seeding_settles :
      (now : ℕ) (outcome : String → SeedOutcome) (n m : ℕ) (ss : List KnownEntitySeed)
      (db done : LabelDb)
      → IsDistinct ss
      → seed_known_entities lib now outcome n ss db ≡ seeded m done
      → All (λ s. IsSettled s done) ss
  unfolding seed_known_entities
  seeding_settles now outcome n m [] db done d h = tt
  seeding_settles now outcome n m (s ∷ ss) db done d h =
      elim (Bool-cases (str_eq (seed_address s) "")) [
        | inl blank ↦ (λ named. cc, seeding_settles now outcome n m ss db done d.1 (rw blank at h))
        | inr named ↦ elim (outcome_cases (outcome s.address)) [
          | inl o ↦
              let g = rw (named, o) at h in
              (
                IsSettled-stays s now outcome (count_seeded lib now n s db) m ss
                    (entity_seeded lib now s db) done d.0 g (settles_one s now db),
                seeding_settles now outcome (count_seeded lib now n s db) m ss
                    (entity_seeded lib now s db) done d.1 g,
              )
          | inr (inl o) ↦ let g = rw (named, o) at h in cc
          | inr (inr o) ↦ let g = rw (named, o) at h in cc
        ]
      ]

  settled_seeding :
      (now n : ℕ) (ss : List KnownEntitySeed) (db : LabelDb)
      → All (λ s. IsSettled s db) ss
      → seed_known_entities lib now (λ _. both) n ss db ≡ seeded n db
  unfolding seed_known_entities
  settled_seeding now n [] db h = refl
  settled_seeding now n (s ∷ ss) db h = elim (Bool-cases (str_eq (seed_address s) "")) [
    | inl blank ↦ rw blank (settled_seeding now n ss db h.1)
    | inr named ↦
        let (e, a) = h.0 named in
        let (same, zero_rows) = settled_one s now db e a in
        rw (named, same, zero_rows, add_zero n) (settled_seeding now n ss db h.1)
  ]

  -- A start after one whose seeding went through changes nothing and reports no change, whatever
  -- failed before that; no two seeds may stand for one address.
  pub seeding_again :
      (now later m : ℕ) (outcome : String → SeedOutcome) (ss : List KnownEntitySeed)
      (db done : LabelDb)
      → IsDistinct ss
      → seed_known_entities lib now outcome 0 ss db ≡ seeded m done
      → seed_known_entities lib later (λ _. both) 0 ss done ≡ seeded 0 done
  seeding_again now later m outcome ss db done d h =
      settled_seeding later 0 ss done (seeding_settles now outcome 0 m ss db done d h)
