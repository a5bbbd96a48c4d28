-- ===== src/Store/Postgres/Entities/Lookup.antt =====
-- store/postgres.go: which addresses normalizeAddressList asks for, and that a label is found again.
use forensic_listener.Prelude.{
  ℕ, String, ◌≡◌, refl, sym, ap, ◌∙◌, Bool, true, false, ◌&&◌, ◌||◌, not, none, some, List, [], ◌∷◌,
  arith, str_eq, eq_iff, eq_refl, if◌then◌else◌, any, keep, Bool-cases, inl, inr,
}
use forensic_listener.Store.Address.{AddressLib, normalize_address}
use forensic_listener.Store.Postgres.Accounts.{
  has_account, is_account_format, violates_format, touch_all, upsert_accounts, distinct_addresses,
}
use forensic_listener.Store.Postgres.Accounts.Seen.{upsert_accounts-has, format-text}
use forensic_listener.Store.Postgres.Entities.{
  EntityRow, LabelDb, find_entity, put_entity, manual_row, upsert_known_entity, normalize_from,
  normalize_address_list, known_entities_by_addresses, accepts, is_risk_level,
}

-- No text twice.
abbrev pub IsNodup : List String → Type 0
IsNodup [] = Unit
IsNodup (a ∷ more) = (any (str_eq a) more ≡ false) × IsNodup more

pub find-put :
    (a : String) (e : EntityRow) (rows : List EntityRow)
    → find_entity a (put_entity e rows)
      ≡ (if str_eq e.address a then some e else find_entity a rows)
unfolding find_entity put_entity
find-put a e [] = refl
find-put a e (r ∷ rs) =
    ground
      (arith, find-put a e rs, eq_iff r.address e.address, eq_iff r.address a, eq_iff e.address a)

pub find-keep :
    (a : String) (wanted : List String) (rows : List EntityRow)
    → find_entity a (keep (λ (r : EntityRow). any (str_eq r.address) wanted) rows)
      ≡ (if any (str_eq a) wanted then find_entity a rows else none)
unfolding find_entity
find-keep a wanted [] = elim (Bool-cases (any (str_eq a) wanted)) [
  | inl e ↦ rw e refl
  | inr e ↦ rw e refl
]
find-keep a wanted (r ∷ rs) = elim (Bool-cases (str_eq r.address a)) [
  | inl same ↦
      let q : r.address ≡ a = (eq_iff r.address a).0 same in
      let w : any (str_eq r.address) wanted ≡ any (str_eq a) wanted =
        ap (λ (b : String). any (str_eq b) wanted) q in
      elim (Bool-cases (any (str_eq a) wanted)) [
        | inl e ↦ rw (w, e, same) refl
        | inr e ↦ rw (w, e) (find-keep a wanted rs ∙ rw e refl)
      ]
  | inr other ↦ elim (Bool-cases (any (str_eq r.address) wanted)) [
    | inl e ↦ rw (e, other) (find-keep a wanted rs)
    | inr e ↦ rw (e, other) (find-keep a wanted rs)
  ]
]

blank_only : (b c : Bool) → (not b && true && c) ≡ (not b && c)
blank_only b c = ground arith

module _ (lib : AddressLib) where
  -- One of the texts is a spelling of the address.
  abbrev pub names : String → List String → Bool
  names a = any (λ b. str_eq a (normalize_address lib b))

  normalize_from-any :
      (a : String) (seen addresses : List String)
      → any (str_eq a) (normalize_from lib seen addresses)
        ≡ (not (str_eq a "") && not (any (str_eq a) seen) && names a addresses)
  unfolding normalize_from
  normalize_from-any a seen [] = ground arith
  normalize_from-any a seen (b ∷ more) =
      let address = normalize_address lib b in
      elim (Bool-cases (str_eq a address)) [
        | inl same ↦
            let q : a ≡ address = (eq_iff a address).0 same in
            let e : str_eq address "" ≡ str_eq a "" = ap (λ (s : String). str_eq s "") (sym q) in
            let s : any (str_eq address) seen ≡ any (str_eq a) seen =
              ap (λ (s : String). any (str_eq s) seen) (sym q) in
            rw (e, s)
              (ground
                (arith, normalize_from-any a seen more, normalize_from-any a (address ∷ seen) more))
        | inr other ↦
            ground
              (arith, normalize_from-any a seen more, normalize_from-any a (address ∷ seen) more)
      ]

  normalize_from-IsNodup :
      (seen addresses : List String) → IsNodup (normalize_from lib seen addresses)
  unfolding normalize_from
  normalize_from-IsNodup seen [] = tt
  normalize_from-IsNodup seen (b ∷ more) =
      let address = normalize_address lib b in
      elim (Bool-cases (str_eq address "" || any (str_eq address) seen)) [
        | inl skip ↦ rw skip (normalize_from-IsNodup seen more)
        | inr new ↦ rw new (
          normalize_from-any address (address ∷ seen) more
              ∙ (let r = eq_refl address in ground arith),
          normalize_from-IsNodup (address ∷ seen) more,
        )
      ]

  -- normalizeAddressList lists exactly the addresses that some text of the list spells, none of them
  -- blank and none twice.
  pub normalize_list_exact :
      (addresses : List String)
      → IsNodup (normalize_address_list lib addresses)
        × ((a : String)
            → any (str_eq a) (normalize_address_list lib addresses)
              ≡ (not (str_eq a "") && names a addresses))
  unfolding normalize_address_list
  normalize_list_exact addresses = (
    normalize_from-IsNodup [] addresses,
    λ a. normalize_from-any a [] addresses ∙ blank_only (str_eq a "") (names a addresses),
  )

  -- A map of labels has the row of an address exactly if one of the texts that were asked for spells it.
  pub known_entities-find :
      (addresses : List String) (rows : List EntityRow) (a : String)
      → find_entity a (known_entities_by_addresses lib addresses rows)
        ≡ (if not (str_eq a "") && names a addresses then find_entity a rows else none)
  unfolding known_entities_by_addresses
  known_entities-find addresses rows a =
      find-keep a (normalize_address_list lib addresses) rows
      ∙ rw ((normalize_list_exact addresses).1 a) refl

  blank-any : (a b : String) → str_eq a "" ≡ false → any (λ c. str_eq c a) (a ∷ b ∷ []) ≡ true
  blank-any a b h = ground (arith, eq_refl a)

  -- A label is saved if its address passes the CHECK of the accounts and its level is none, low, medium
  -- or high, and is then found under every spelling of the address; the labels of the other addresses
  -- stay as they were.
  pub upsert-find :
      (seen now : ℕ) (e : EntityRow) (db : LabelDb)
      → is_account_format (normalize_address lib e.address) ≡ true
      → is_risk_level e.risk_level ≡ true
      → (db' : LabelDb) × (upsert_known_entity lib seen now e db ≡ some (manual_row lib now e, db'))
        × ((addresses : List String) (a : String)
            → names a addresses ≡ true
            → str_eq a "" ≡ false
            → find_entity a (known_entities_by_addresses lib addresses db'.known_entities) ≡ (
                if str_eq (normalize_address lib e.address) a
                then some (manual_row lib now e)
                else find_entity a db.known_entities))
  unfolding upsert_known_entity manual_row accepts violates_format
  upsert-find seen now e db format level =
      let address = normalize_address lib e.address in
      let h = format-text address format in
      let row = manual_row lib now e in
      let accounts = upsert_accounts (address ∷ []) seen db.accounts in
      let stored : has_account address accounts ≡ true =
        upsert_accounts-has (address ∷ []) seen db.accounts address h
          (ground (arith, eq_refl address)) in
      (
        record { accounts = accounts; known_entities = put_entity row db.known_entities },
        rw (stored, format, level, h) refl,
        λ addresses a n b.
            known_entities-find addresses (put_entity row db.known_entities) a
            ∙ rw (n, b) (find-put a row db.known_entities),
      )

  -- The error of a label without address: the foreign key refuses it, since no account is blank.
  pub upsert-blank :
      (seen now : ℕ) (e : EntityRow) (db : LabelDb)
      → str_eq (normalize_address lib e.address) "" ≡ true
      → has_account "" db.accounts ≡ false
      → upsert_known_entity lib seen now e db ≡ none
  unfolding upsert_known_entity manual_row upsert_accounts distinct_addresses touch_all accepts
  upsert-blank seen now e db h k =
      let q : normalize_address lib e.address ≡ "" = (eq_iff _ "").0 h in rw (h, q) (rw k refl)
