-- ===== src/Store/Postgres/Writes.antt =====
-- store/postgres.go: SaveBlock as one equation, and the row of each hash after it.
use forensic_listener.Prelude.{
  arith, ◌||◌, false, ◌≢◌, ◌⊎◌, ℕ, String, ◌≡◌, refl, sym, ap, ◌∙◌, Bool, true, not, Option, none,
  some, List, [], ◌∷◌, map, str_eq, eq_iff, if◌then◌else◌, any, Bool-cases, inl, inr,
}
use forensic_listener.Models.{Account, Transaction, TokenTransfer, MinedBlock}
use forensic_listener.Store.Address.{AddressLib}
use forensic_listener.Store.Postgres.Accounts.{upsert_accounts, mark_contracts, violates_format}
use forensic_listener.Store.Postgres.Transactions.{
  TxRow, find_tx, has_tx, has_duplicates, mark_replaced, upsert_mined_all, insert_transfers,
}
use forensic_listener.Store.Postgres.Transactions.Rows.{
  hashes, map_row, merge_rows, replace_row, find-mark_replaced, find-upsert_all,
}
use forensic_listener.Store.Postgres.Queue.{enqueue_all, requeue_all}
use forensic_listener.Store.Postgres.{
  check_violation, dangling_transfer, unique_violation, DbResult, hash_taken, DbError, dangling_tx,
  Db, committed, aborted, cardinality, foreign_key, upsert_block, stored_hash, mined_row,
  created_contracts, job_hashes, transfer_row, block_addresses, insert_token_transfers,
  upsert_mined_transactions, undo_block, write_block, dispatch_block, save_block,
}

abbrev pub tx_hashes : List Transaction → List String
tx_hashes = map (λ (tx : Transaction). tx.hash)

abbrev pub transfer_hashes : List TokenTransfer → List String
transfer_hashes = map (λ (tt : TokenTransfer). tt.tx_hash)

module _ (lib : AddressLib) where
  abbrev pub mined_rows : MinedBlock → List TxRow
  mined_rows mb = map (mined_row lib mb) mb.transactions

  -- The transactions table after the statements of upsertMinedTransactions.
  abbrev pub written_rows : MinedBlock → List TxRow → List TxRow
  written_rows mb rows = mark_replaced (mined_rows mb) (upsert_mined_all (mined_rows mb) rows)

  -- The transfers name only transactions that are stored by then.
  abbrev pub is_orphan : MinedBlock → List TxRow → Bool
  is_orphan mb rows =
      any (λ (tt : TokenTransfer). not (has_tx tt.tx_hash (written_rows mb rows)))
        mb.token_transfers

  -- What a write of a block that commits leaves.
  unfoldable pub written : ℕ → MinedBlock → Db → Db
  written now mb db = record {
    accounts = mark_contracts (created_contracts lib mb.transactions) (
        upsert_accounts (created_contracts lib mb.transactions) mb.block.mined_at
          (upsert_accounts (block_addresses lib mb) mb.block.mined_at db.accounts));
    blocks = upsert_block mb.block db.blocks;
    transactions = written_rows mb db.transactions;
    token_transfers =
        insert_transfers (map (transfer_row lib mb.block.number) mb.token_transfers)
          db.token_transfers;
    jobs =
        requeue_all now (transfer_hashes mb.token_transfers)
          (enqueue_all now (job_hashes lib mb.transactions) db.jobs);
  }

  -- The tables before the INSERT of the transactions, and before that of the transfers.
  abbrev pub accounts_written : MinedBlock → Db → List Account
  accounts_written mb db = mark_contracts (created_contracts lib mb.transactions) (
      upsert_accounts (created_contracts lib mb.transactions) mb.block.mined_at
        (upsert_accounts (block_addresses lib mb) mb.block.mined_at db.accounts))

  abbrev pub before_transfers : ℕ → MinedBlock → Db → Db
  before_transfers now mb db = record db {
    accounts = accounts_written mb db;
    blocks = upsert_block mb.block db.blocks;
    transactions = written_rows mb db.transactions;
    jobs = enqueue_all now (job_hashes lib mb.transactions) db.jobs;
  }

  -- The first constraint that the statements violate, in their order.
  abbrev pub violation : ℕ → MinedBlock → Db → Option DbError
  violation now mb db =
      if hash_taken mb.block db.blocks
      then some unique_violation
      else if violates_format (block_addresses lib mb)
      then some check_violation
      else if violates_format (created_contracts lib mb.transactions)
      then some check_violation
      else if has_duplicates (tx_hashes mb.transactions)
      then some cardinality
      else if any
          (dangling_tx mb.block.number db.transactions (accounts_written mb db)
            (upsert_block mb.block db.blocks))
          (mined_rows mb)
      then some foreign_key
      else if is_orphan mb db.transactions
          || any (dangling_transfer (before_transfers now mb db))
              (map (transfer_row lib mb.block.number) mb.token_transfers)
      then some foreign_key
      else none

  abbrev pub result_of : Option DbError → Db → DbResult
  result_of none db = committed db
  result_of (some e) db = aborted e

  pub write_block-eq :
      (now : ℕ) (mb : MinedBlock) (db : Db)
      → write_block lib now mb db ≡ result_of (violation now mb db) (written now mb db)
  unfolding write_block upsert_mined_transactions insert_token_transfers written
  write_block-eq now mb db = elim (Bool-cases (hash_taken mb.block db.blocks)) [
    | inl e ↦ rw e refl
    | inr a ↦ elim (Bool-cases (violates_format (block_addresses lib mb))) [
      | inl e ↦ rw (a, e) refl
      | inr b ↦ elim (Bool-cases (violates_format (created_contracts lib mb.transactions))) [
        | inl e ↦ rw (a, b, e) refl
        | inr c ↦ elim (Bool-cases (has_duplicates (tx_hashes mb.transactions))) [
          | inl e ↦ rw (a, b, c, e) refl
          | inr d ↦ written_or_not a b c d
        ]
      ]
    ]
  ]
    where
      dangling : Bool
      dangling =
          any
            (dangling_tx mb.block.number db.transactions (accounts_written mb db)
              (upsert_block mb.block db.blocks))
            (mined_rows mb)

      loose : Bool
      loose =
          is_orphan mb db.transactions
          || any (dangling_transfer (before_transfers now mb db))
              (map (transfer_row lib mb.block.number) mb.token_transfers)

      written_or_not :
          hash_taken mb.block db.blocks ≡ false
          → violates_format (block_addresses lib mb) ≡ false
          → violates_format (created_contracts lib mb.transactions) ≡ false
          → has_duplicates (tx_hashes mb.transactions) ≡ false
          → write_block lib now mb db ≡ result_of (violation now mb db) (written now mb db)
      written_or_not a b c d = elim (Bool-cases dangling) [
        | inl e ↦ rw (a, b, c, d, e) refl
        | inr e ↦ elim (Bool-cases loose) [
          | inl f ↦ rw (a, b, c, d, e, f) refl
          | inr f ↦ rw (a, b, c, d, e, f) refl
        ]
      ]

  hashes-mined_rows :
      (mb : MinedBlock) (txs : List Transaction)
      → hashes (map (mined_row lib mb) txs) ≡ tx_hashes txs
  unfolding mined_row
  hashes-mined_rows mb [] = refl
  hashes-mined_rows mb (tx ∷ txs) = ap (λ t. tx.hash ∷ t) (hashes-mined_rows mb txs)

  -- The row of a hash after the write: merged with the mined row of that hash if there is one, and
  -- then marked if it is superseded.
  pub find-written :
      (mb : MinedBlock) (h : String) (rows : List TxRow)
      → has_duplicates (tx_hashes mb.transactions) ≡ false
      → find_tx h (written_rows mb rows)
        ≡ map_row
            (replace_row (mined_rows mb))
            (merge_rows (find_tx h (mined_rows mb)) (find_tx h rows))
  find-written mb h rows e =
      find-mark_replaced (mined_rows mb) h (upsert_mined_all (mined_rows mb) rows)
      ∙ ap (map_row (replace_row (mined_rows mb)))
          (find-upsert_all (mined_rows mb) h rows (rw (hashes-mined_rows mb mb.transactions) e))

  -- The tables that the statements behind the look at the stored hash start from.
  abbrev pub base : MinedBlock → Option String → Db → Db
  base mb none db = db
  base mb (some _) db = undo_block mb.block.number db

  unique-none :
      (now : ℕ) (mb : MinedBlock) (db : Db)
      → violation now mb db ≡ none
      → has_duplicates (tx_hashes mb.transactions) ≡ false
  unique-none now mb db h = ground (arith, h)

  write-committed :
      (now : ℕ) (mb : MinedBlock) (db : Db) {db' : Db}
      → write_block lib now mb db ≡ committed db'
      → (has_duplicates (tx_hashes mb.transactions) ≡ false) × (db' ≡ written now mb db)
  write-committed now mb db {db' = db'} e =
      outcome (violation now mb db) refl (sym (write_block-eq now mb db) ∙ e)
    where
      outcome :
          (o : Option DbError)
          → violation now mb db ≡ o
          → result_of o (written now mb db) ≡ committed db'
          → (has_duplicates (tx_hashes mb.transactions) ≡ false) × (db' ≡ written now mb db)
      outcome none v h = (unique-none now mb db v, cc)
      outcome (some x) v h = cc

  -- What a SaveBlock that commits did, by the hash that was stored at its height.
  abbrev pub Outcome : ℕ → MinedBlock → Option String → Db → Db → Type 0
  Outcome now mb o db db' =
      (o ≡ some mb.block.hash) × (db' ≡ db)
      ⊎ (o ≢ some mb.block.hash)
        × (has_duplicates (tx_hashes mb.transactions) ≡ false)
        × (db' ≡ written now mb (base mb o db))

  dispatch-Outcome :
      (now : ℕ) (mb : MinedBlock) (o : Option String) (db : Db) {db' : Db}
      → dispatch_block lib now mb o db ≡ committed db'
      → Outcome now mb o db db'
  dispatch-Outcome now mb none db e = let w = write-committed now mb db e in inr (λ p. cc, w.0, w.1)
  dispatch-Outcome now mb (some h) db {db' = db'} e = decide (Bool-cases (str_eq h mb.block.hash))
    where
      decide :
          (str_eq h mb.block.hash ≡ true) ⊎ (str_eq h mb.block.hash ≡ false)
          → Outcome now mb (some h) db db'
      decide (inl same) = inl (ap some ((eq_iff h mb.block.hash).0 same), cc (rw same at e))
      decide (inr other) =
          let w = write-committed now mb (undo_block mb.block.number db) (rw other at e) in
          inr (
            λ p. let q : h ≡ mb.block.hash = cc in cc ((eq_iff h mb.block.hash).1 q, other),
            w.0,
            w.1,
          )

  pub save_block-Outcome :
      (now : ℕ) (mb : MinedBlock) (db : Db) {db' : Db}
      → save_block lib now mb db ≡ committed db'
      → Outcome now mb (stored_hash mb.block.number db.blocks) db db'
  unfolding save_block
  save_block-Outcome now mb db e =
      dispatch-Outcome now mb (stored_hash mb.block.number db.blocks) db e
