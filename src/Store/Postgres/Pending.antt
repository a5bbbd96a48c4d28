-- ===== src/Store/Postgres/Pending.antt =====
-- store/postgres.go: what SaveTransaction stores, and that saving again adds nothing.
use forensic_listener.Prelude.{
  ℕ, String, ◌≡◌, refl, sym, ◌∙◌, true, false, none, some, List, [], ◌∷◌, ◌++◌, arith, str_eq,
  eq_iff, eq_refl, any, Bool-cases, inl, inr,
}
use forensic_listener.Models.{pending, Transaction}
use forensic_listener.Store.Address.{AddressLib, normalize_address}
use forensic_listener.Store.Postgres.Accounts.{has_account, upsert_accounts}
use forensic_listener.Store.Postgres.Accounts.Seen.{upsert_accounts_idem, upsert_accounts-has}
use forensic_listener.Store.Postgres.Transactions.{
  TxRow, nullable_string, or_empty, has_tx, find_tx, scan_transaction,
}
use forensic_listener.Store.Postgres.Transactions.Rows.{find-append, has-find}
use forensic_listener.Store.Postgres.{Db, pending_row, save_transaction}

has_tx-append : (m : TxRow) (rows : List TxRow) → has_tx m.hash (rows ++ m ∷ []) ≡ true
unfolding has_tx
has_tx-append m [] = ground (arith, eq_iff m.hash m.hash)
has_tx-append m (r ∷ rows) = ground (arith, has_tx-append m rows)

or_empty-nullable : (s : String) → or_empty (nullable_string s) ≡ s
unfolding nullable_string
or_empty-nullable s = elim (Bool-cases (str_eq s "")) [
  | inl e ↦ rw e (sym ((eq_iff s "").0 e))
  | inr e ↦ rw e
]

-- The addresses that the statement of SaveTransaction touches.
abbrev pub parties : AddressLib → Transaction → List String
parties lib tx = normalize_address lib tx.from ∷ normalize_address lib tx.to ∷ []

nothing_new :
    (lib : AddressLib) (now : ℕ) (tx : Transaction) (db : Db)
    → has_tx tx.hash db.transactions ≡ true
    → upsert_accounts (parties lib tx) tx.timestamp db.accounts ≡ db.accounts
    → save_transaction lib now tx db ≡ db
unfolding save_transaction
nothing_new lib now tx db h e = rw (h, e) refl

module _ (lib : AddressLib) (now : ℕ) (tx : Transaction) (db : Db) where
  saved_has : has_tx tx.hash (save_transaction lib now tx db).transactions ≡ true
  unfolding save_transaction pending_row
  saved_has = elim (Bool-cases (has_tx tx.hash db.transactions)) [
    | inl e ↦ rw e e
    | inr e ↦ rw e (has_tx-append (pending_row lib tx) db.transactions)
  ]

  pub saved_accounts :
      (save_transaction lib now tx db).accounts
      ≡ upsert_accounts (parties lib tx) tx.timestamp db.accounts
  unfolding save_transaction
  saved_accounts = elim (Bool-cases (has_tx tx.hash db.transactions)) [
    | inl e ↦ rw e
    | inr e ↦ rw e
  ]

  -- Saving a transaction again, at any later time, changes nothing, whether it was new or not.
  pub save_transaction_again :
      (later : ℕ)
      → save_transaction lib later tx (save_transaction lib now tx db)
        ≡ save_transaction lib now tx db
  save_transaction_again later =
      nothing_new lib later tx (save_transaction lib now tx db) saved_has
        (rw saved_accounts (upsert_accounts_idem (parties lib tx) tx.timestamp db.accounts))

  -- A new transaction is read back by its hash as it was given, but for its normalised addresses and
  -- what only a block tells.
  pub save_transaction_scan :
      has_tx tx.hash db.transactions ≡ false
      → (r : TxRow) × (find_tx tx.hash (save_transaction lib now tx db).transactions ≡ some r)
        × (scan_transaction r ≡ record tx {
          from = normalize_address lib tx.from;
          to = normalize_address lib tx.to;
          status = pending;
          block_number = none;
          mined_at = none;
          gas_used = none;
          effective_gas_price = none;
          receipt_status = none;
          created_contract = "";
        })
  unfolding save_transaction pending_row scan_transaction
  save_transaction_scan fresh = (
    pending_row lib tx,
    rw fresh (
        find-append (pending_row lib tx) tx.hash db.transactions
          (has-find tx.hash db.transactions fresh)
        ∙ rw (eq_refl tx.hash) refl),
    rw (or_empty-nullable (normalize_address lib tx.to)) refl,
  )

  -- The sender and the recipient are stored as accounts, so the foreign keys of the row hold.
  pub save_transaction-parties :
      (a : String)
      → str_eq a "" ≡ false
      → any (λ b. str_eq b a) (parties lib tx) ≡ true
      → has_account a (save_transaction lib now tx db).accounts ≡ true
  save_transaction-parties a n h =
      rw saved_accounts (upsert_accounts-has (parties lib tx) tx.timestamp db.accounts a n h)
