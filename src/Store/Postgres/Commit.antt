-- ===== src/Store/Postgres/Commit.antt =====
-- store/postgres.go: when SaveBlock commits, and which error it returns otherwise.
use forensic_listener.Prelude.{
  true, ℕ, String, ◌≡◌, ◌≢◌, refl, sym, ap, ◌∙◌, Bool, false, ◌||◌, not, Option, none, some, List,
  [], ◌∷◌, arith, str_eq, eq_iff, if◌then◌else◌, any, Bool-cases, Option-cases, inl, inr, is_some,
}
use forensic_listener.Models.{TokenTransfer, MinedBlock}
use forensic_listener.Store.Address.{AddressLib}
use forensic_listener.Store.Postgres.Transactions.{TxRow, find_tx, has_tx, has_duplicates}
use forensic_listener.Store.Postgres.Transactions.Rows.{
  map_row, merge_rows, find-revert_block, replace_row,
}
use forensic_listener.Store.Postgres.{
  Db, committed, aborted, foreign_key, undo_block, write_block, dispatch_block, stored_hash,
  save_block, hash_taken, block_addresses, created_contracts,
}
use forensic_listener.Store.Postgres.Accounts.{violates_format}
use forensic_listener.Store.Postgres.References.{HasSenders, HasParties, references_hold}
use forensic_listener.Store.Postgres.Writes.{
  tx_hashes, mined_rows, written_rows, written, write_block-eq, result_of, is_orphan, base,
  find-written,
}
use forensic_listener.Store.Postgres.Blocks.{find-included, included-find}

-- The transaction is one of the block's, or is stored.
abbrev pub is_known : MinedBlock → Db → String → Bool
is_known mb db h = any (λ k. str_eq k h) (tx_hashes mb.transactions) || has_tx h db.transactions

-- Some transfer of the block names a transaction that is neither in the block nor stored.
abbrev pub names_unknown : MinedBlock → Db → Bool
names_unknown mb db = any (λ (t : TokenTransfer). not (is_known mb db t.tx_hash)) mb.token_transfers

has-is_some : (h : String) (rows : List TxRow) → has_tx h rows ≡ is_some (find_tx h rows)
unfolding has_tx find_tx
has-is_some h [] = refl
has-is_some h (r ∷ rows) = ground (arith, has-is_some h rows)

is_some-map_row : (f : TxRow → TxRow) (o : Option TxRow) → is_some (map_row f o) ≡ is_some o
unfolding map_row
is_some-map_row f none = refl
is_some-map_row f (some r) = refl

is_some-merge_rows : (m o : Option TxRow) → is_some (merge_rows m o) ≡ (is_some m || is_some o)
unfolding merge_rows
is_some-merge_rows none o = refl
is_some-merge_rows (some m) o = refl

module _ (lib : AddressLib) (mb : MinedBlock) where
  find-included_iff :
      (h : String)
      → is_some (find_tx h (mined_rows lib mb)) ≡ any (λ k. str_eq k h) (tx_hashes mb.transactions)
  find-included_iff h = elim (Bool-cases (any (λ k. str_eq k h) (tx_hashes mb.transactions))) [
    | inl e ↦ let (m, found, _) = find-included lib mb h mb.transactions e in rw (found, e)
    | inr e ↦ elim (Option-cases (find_tx h (mined_rows lib mb))) [
      | inl none_found ↦ rw (none_found, e)
      | inr (m, found) ↦ cc (included-find lib mb h mb.transactions m found)
    ]
  ]

  has-base :
      (o : Option String) (db : Db) (h : String)
      → is_some (find_tx h (base lib mb o db).transactions) ≡ has_tx h db.transactions
  unfolding undo_block
  has-base none db h = sym (has-is_some h db.transactions)
  has-base (some _) db h =
      ap is_some (find-revert_block mb.block.number h db.transactions)
      ∙ is_some-map_row _ (find_tx h db.transactions)
      ∙ sym (has-is_some h db.transactions)

  has-written :
      (o : Option String) (db : Db) (h : String)
      → has_duplicates (tx_hashes mb.transactions) ≡ false
      → has_tx h (written_rows lib mb (base lib mb o db).transactions) ≡ is_known mb db h
  has-written o db h e =
      has-is_some h _
      ∙ ap is_some (find-written lib mb h (base lib mb o db).transactions e)
      ∙ is_some-map_row (replace_row (mined_rows lib mb)) _
      ∙ is_some-merge_rows (find_tx h (mined_rows lib mb)) _
      ∙ rw (find-included_iff h, has-base o db h) refl

  orphan-unknown :
      (o : Option String) (db : Db) (ts : List TokenTransfer)
      → has_duplicates (tx_hashes mb.transactions) ≡ false
      → any
          (λ (t : TokenTransfer).
            not (has_tx t.tx_hash (written_rows lib mb (base lib mb o db).transactions)))
          ts
        ≡ any (λ (t : TokenTransfer). not (is_known mb db t.tx_hash)) ts
  orphan-unknown o db [] e = refl
  orphan-unknown o db (t ∷ ts) e = rw (has-written o db t.tx_hash e, orphan-unknown o db ts e) refl

  base-blocks : (o : Option String) (db : Db) → (base lib mb o db).blocks ≡ db.blocks
  unfolding undo_block
  base-blocks none db = refl
  base-blocks (some _) db = refl

  -- Every address that the block's statements insert into the accounts is blank or passes the CHECK of
  -- that table.
  abbrev pub IsWellFormed : Type 0
  IsWellFormed =
      (violates_format (block_addresses lib mb) ≡ false)
      × (violates_format (created_contracts lib mb.transactions) ≡ false)

  write-result :
      (now : ℕ) (o : Option String) (db : Db)
      → hash_taken mb.block db.blocks ≡ false
      → IsWellFormed
      → HasSenders lib mb.transactions
      → HasParties lib mb.token_transfers
      → has_duplicates (tx_hashes mb.transactions) ≡ false
      → write_block lib now mb (base lib mb o db) ≡ (
          if names_unknown mb db
          then aborted foreign_key
          else committed (written lib now mb (base lib mb o db)))
  write-result now o db free (listed, created) senders parties e =
      let (rows, transfers) = references_hold lib now mb (base lib mb o db) senders parties in
      let untaken : hash_taken mb.block (base lib mb o db).blocks ≡ false =
        ap (hash_taken mb.block) (base-blocks o db) ∙ free in
      write_block-eq lib now mb (base lib mb o db)
      ∙ rw (untaken, listed, created, e, rows, orphan-unknown o db mb.token_transfers e, transfers)
          (either (names_unknown mb db) (written lib now mb (base lib mb o db)))
    where
      either :
          (b : Bool) (db : Db)
          → result_of lib (if b || false then some foreign_key else none) db
            ≡ (if b then aborted foreign_key else committed db)
      either true db = refl
      either false db = refl

  dispatch-write :
      (now : ℕ) (o : Option String) (db : Db)
      → o ≢ some mb.block.hash
      → dispatch_block lib now mb o db ≡ write_block lib now mb (base lib mb o db)
  dispatch-write now none db fresh = refl
  dispatch-write now (some h) db fresh = elim (Bool-cases (str_eq h mb.block.hash)) [
    | inl same ↦ absurd (fresh (ap some ((eq_iff h mb.block.hash).0 same)))
    | inr other ↦ rw other
  ]

  -- Say that a block is not stored yet and no block of another height has its hash, that each of its
  -- addresses is blank or passes the CHECK of the accounts, that no sender and no address of a transfer
  -- is blank, and that no transaction is in it twice. Then SaveBlock violates no constraint but one: it
  -- is rolled back by a foreign key if some transfer is of a transaction that is neither in the block nor
  -- stored, and commits otherwise. The ranges of the number columns are not part of the model.
  pub save_block_result :
      (now : ℕ) (db : Db)
      → stored_hash mb.block.number db.blocks ≢ some mb.block.hash
      → hash_taken mb.block db.blocks ≡ false
      → IsWellFormed
      → HasSenders lib mb.transactions
      → HasParties lib mb.token_transfers
      → has_duplicates (tx_hashes mb.transactions) ≡ false
      → save_block lib now mb db ≡ (
          if names_unknown mb db
          then aborted foreign_key
          else committed
              (written lib now mb (base lib mb (stored_hash mb.block.number db.blocks) db)))
  unfolding save_block
  save_block_result now db fresh free formed senders parties e =
      dispatch-write now (stored_hash mb.block.number db.blocks) db fresh
      ∙ write-result now (stored_hash mb.block.number db.blocks) db free formed senders parties e

  -- Where a transfer of the block is of a transaction that is neither in the block nor stored, the
  -- foreign key refuses it, also if it has a blank address.
  pub orphan_aborts :
      (now : ℕ) (db : Db)
      → stored_hash mb.block.number db.blocks ≢ some mb.block.hash
      → hash_taken mb.block db.blocks ≡ false
      → IsWellFormed
      → has_duplicates (tx_hashes mb.transactions) ≡ false
      → names_unknown mb db ≡ true
      → save_block lib now mb db ≡ aborted foreign_key
  unfolding save_block
  orphan_aborts now db fresh free (listed, created) e orphan =
      let o = stored_hash mb.block.number db.blocks in
      let untaken : hash_taken mb.block (base lib mb o db).blocks ≡ false =
        ap (hash_taken mb.block) (base-blocks o db) ∙ free in
      let left : is_orphan lib mb (base lib mb o db).transactions ≡ true =
        orphan-unknown o db mb.token_transfers e ∙ orphan in
      dispatch-write now o db fresh
      ∙ write_block-eq lib now mb (base lib mb o db)
      ∙ rw (untaken, listed, created, e, left) (either _)
    where
      either :
          (b : Bool)
          → result_of lib
              (if b then some foreign_key else some foreign_key)
              (written lib now mb (base lib mb (stored_hash mb.block.number db.blocks) db))
            ≡ aborted foreign_key
      either true = refl
      either false = refl
