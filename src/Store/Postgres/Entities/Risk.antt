-- ===== src/Store/Postgres/Entities/Risk.antt =====
-- store/postgres.go: what decides the risk of an address.
use forensic_listener.Prelude.{
  ℕ, max, String, ◌≡◌, refl, ap, ◌∙◌, true, false, ◌&&◌, not, Option, none, some, List, [], ◌∷◌,
  arith, str_eq, eq_iff, if◌then◌else◌, any, keep, map, Bool-cases, inl, inr,
}
use forensic_listener.Models.{Account, ForensicFlag}
use forensic_listener.Store.Address.{AddressLib, normalize_address}
use forensic_listener.Store.Postgres.Accounts.{has_account, upsert_accounts, distinct_addresses}
use forensic_listener.Store.Postgres.Accounts.Seen.{has-touch_all}
use forensic_listener.Store.Postgres.Entities.{
  EntityRow, LabelDb, put_entity, manual_row, upsert_known_entity, accepts, level_rank, level_name,
  flag_rank, label_rank, rank_of, risk_rank, find_level, address_risk_by_addresses,
  normalize_address_list,
}
use forensic_listener.Store.Postgres.Entities.Lookup.{names, normalize_list_exact, find-put}

rank-put :
    (a : String) (e : EntityRow) (flags : List ForensicFlag) (rows : List EntityRow)
    → risk_rank a flags (put_entity e rows) ≡ (
        if str_eq e.address a
        then max (flag_rank a flags) (level_rank e.risk_level)
        else risk_rank a flags rows)
unfolding risk_rank label_rank
rank-put a e flags rows =
    ap (λ (o : Option EntityRow). max (flag_rank a flags) (rank_of o)) (find-put a e rows)
    ∙ ground arith

module _ (lib : AddressLib) where
  level-keep :
      (a : String) (wanted : List String) (accounts : List Account) (flags : List ForensicFlag)
      (rows : List EntityRow)
      → find_level a (
          map
            (λ (r : Account). (r.address, level_name (risk_rank r.address flags rows)))
            (keep (λ (r : Account). any (str_eq r.address) wanted) accounts))
        ≡ (if any (str_eq a) wanted && has_account a accounts
            then some (level_name (risk_rank a flags rows))
            else none)
  unfolding find_level has_account
  level-keep a wanted [] flags rows = elim (Bool-cases (any (str_eq a) wanted)) [
    | inl e ↦ rw e refl
    | inr e ↦ rw e refl
  ]
  level-keep a wanted (r ∷ rs) flags rows = elim (Bool-cases (str_eq r.address a)) [
    | inl same ↦
        let q : r.address ≡ a = (eq_iff r.address a).0 same in
        let w : any (str_eq r.address) wanted ≡ any (str_eq a) wanted =
          ap (λ (b : String). any (str_eq b) wanted) q in
        let l : level_name (risk_rank r.address flags rows) ≡ level_name (risk_rank a flags rows) =
          ap (λ (b : String). level_name (risk_rank b flags rows)) q in
        elim (Bool-cases (any (str_eq a) wanted)) [
          | inl e ↦ rw (w, e, same) (ap some l)
          | inr e ↦ rw (w, e) (level-keep a wanted rs flags rows ∙ rw e refl)
        ]
    | inr other ↦ elim (Bool-cases (any (str_eq r.address) wanted)) [
      | inl e ↦ rw (e, other) (level-keep a wanted rs flags rows)
      | inr e ↦ rw (e, other) (level-keep a wanted rs flags rows)
    ]
  ]

  -- The map of risk levels has an address exactly if it has an account and some text that was asked
  -- for spells it.
  pub risk-find :
      (addresses : List String) (accounts : List Account) (flags : List ForensicFlag)
      (rows : List EntityRow) (a : String)
      → find_level a (address_risk_by_addresses lib addresses accounts flags rows) ≡ (
          if (not (str_eq a "") && names lib a addresses) && has_account a accounts
          then some (level_name (risk_rank a flags rows))
          else none)
  unfolding address_risk_by_addresses
  risk-find addresses accounts flags rows a =
      level-keep a (normalize_address_list lib addresses) accounts flags rows
      ∙ rw ((normalize_list_exact lib addresses).1 a) refl

  -- After an investigator has labelled an address, the risk of an address that had an account before is
  -- the worse of the new label and of its most severe flag if it is the labelled one, and what it was
  -- otherwise: no label hides a flag.
  pub label_hides_nothing :
      (seen now : ℕ) (e row : EntityRow) (flags : List ForensicFlag) (db db' : LabelDb)
      (addresses : List String) (a : String)
      → upsert_known_entity lib seen now e db ≡ some (row, db')
      → names lib a addresses ≡ true
      → str_eq a "" ≡ false
      → has_account a db.accounts ≡ true
      → find_level a (address_risk_by_addresses lib addresses db'.accounts flags db'.known_entities)
        ≡ some (
            level_name (
              if str_eq (normalize_address lib e.address) a
              then max (flag_rank a flags) (level_rank e.risk_level)
              else risk_rank a flags db.known_entities))
  unfolding upsert_known_entity upsert_accounts manual_row
  label_hides_nothing seen now e row flags db db' addresses a u n b k =
      let mine = manual_row lib now e in
      let accounts = upsert_accounts (mine.address ∷ []) seen db.accounts in
      elim (Bool-cases (accepts mine accounts)) [
        | inr out ↦ cc (rw out at u)
        | inl ok ↦
            let q : record {
              accounts = accounts;
              known_entities = put_entity mine db.known_entities;
            }
                ≡ db' =
              let g = rw ok at u in cc in
            let there : has_account a accounts ≡ true =
              has-touch_all seen a (distinct_addresses (mine.address ∷ [])) db.accounts k in
            rw (← q) (
              risk-find addresses accounts flags (put_entity mine db.known_entities) a
              ∙ rw (b, n, there)
                  (ap (λ (m : ℕ). some (level_name m)) (rank-put a mine flags db.known_entities)))
      ]
