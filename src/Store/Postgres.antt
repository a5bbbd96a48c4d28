-- ===== src/Store/Postgres.antt =====
-- store/postgres.go: the ingestion writes, each the body of one database transaction.
-- A table is the list of its rows, whose order means nothing. Each SQL statement is one function of
-- the table that it writes; NOW() is the argument `now`.
mod Tests
pub mod Accounts
pub mod Transactions
pub mod Queue
pub mod Writes
pub mod Blocks
pub mod Lifecycle
pub mod Pending
pub mod Outbox
pub mod Commit
pub mod References
pub mod Flags
pub mod Retries
pub mod Entities
pub mod Pages
pub mod Counts
pub mod Network
pub mod Dossier
use forensic_listener.Prelude.{
  ℕ, zero, suc, String, Bool, true, false, ◌||◌, ◌&&◌, not, Option, none, some, List, [], ◌∷◌, ◌++◌,
  map, str_eq, ◌==◌, if◌then◌else◌, any, keep,
}
use forensic_listener.Models.{
  pending, mined, Transaction, Block, Receipt, TokenTransfer, MinedBlock, Account, ForensicFlag,
}
use forensic_listener.Store.Address.{AddressLib, normalize_address}
use Accounts.{has_account, violates_format, upsert_accounts, upsert_one, mark_contracts}
use Transactions.{
  TxRow, has_duplicates, TransferRow, nullable_string, has_tx, revert_block, remove_transfers,
  upsert_mined_all, mark_replaced, insert_transfers, has_transfer,
}
use Queue.{Job, enqueue, enqueue_all, requeue_all}

-- The tables that the ingestion writes.
pub record Db : Type 0 where
  pub accounts : List Account
  pub blocks : List Block
  pub transactions : List TxRow
  pub token_transfers : List TransferRow
  pub jobs : List Job

pub data DbError : Type 0 where
  deadlock serialization cardinality foreign_key unique_violation check_violation : DbError
  unreachable : String → DbError

pub data DbResult : Type 0 where
  committed : Db → DbResult
  aborted : DbError → DbResult

-- SELECT hash FROM blocks WHERE number = n
unfoldable pub stored_hash : ℕ → List Block → Option String
stored_hash n [] = none
stored_hash n (b ∷ bs) = if b.number == n then some b.hash else stored_hash n bs

-- INSERT INTO blocks ... ON CONFLICT (number) DO UPDATE of every column
unfoldable pub upsert_block : Block → List Block → List Block
upsert_block b [] = b ∷ []
upsert_block b (c ∷ cs) = if c.number == b.number then b ∷ cs else c ∷ upsert_block b cs

unfoldable pub has_block : ℕ → List Block → Bool
has_block n = any (λ b. b.number == n)

-- UNIQUE (hash): another block has this hash.
unfoldable pub hash_taken : Block → List Block → Bool
hash_taken b = any (λ c. not (c.number == b.number) && str_eq c.hash b.hash)

abbrev pub refers : List Account → Option String → Bool
refers accounts none = true
refers accounts (some a) = has_account a accounts

-- A row of the INSERT of upsertMinedTransactions violates a foreign key. On conflict only the columns
-- that the statement sets are checked.
unfoldable pub dangling_tx : ℕ → List TxRow → List Account → List Block → TxRow → Bool
dangling_tx n rows accounts blocks r =
    not (has_block n blocks)
    || not (refers accounts r.created_contract)
    || (not (has_tx r.hash rows)
        && (not (has_account r.from_address accounts) || not (refers accounts r.to_address)))

-- A row of the INSERT of insertTokenTransfers that is new violates a foreign key to accounts or blocks.
unfoldable pub dangling_transfer : Db → TransferRow → Bool
dangling_transfer db r =
    not (has_transfer r.tx_hash r.log_index db.token_transfers)
    && (not (has_block r.block_number db.blocks)
        || not (has_account r.token_address db.accounts)
        || not (has_account r.from_address db.accounts)
        || not (has_account r.to_address db.accounts))

-- mb.Receipts[hash]
unfoldable pub lookup_receipt : String → List (String × Receipt) → Option Receipt
lookup_receipt h [] = none
lookup_receipt h ((k, r) ∷ rest) = if str_eq k h then some r else lookup_receipt h rest

-- The receipt columns: 0, '' and -1 stand for no receipt, and become NULL.
unfoldable pub receipt_gas : Option Receipt → Option ℕ
receipt_gas none = none
receipt_gas (some r) = if r.gas_used == 0 then none else some r.gas_used

unfoldable pub receipt_price : Option Receipt → Option ℕ
receipt_price none = none
receipt_price (some r) = r.effective_gas_price

unfoldable pub receipt_state : Option Receipt → Option ℕ
receipt_state none = none
receipt_state (some r) = some r.status

-- The reorg branch: what the block at this height had done is undone first.
unfoldable pub undo_block : ℕ → Db → Db
undo_block n db = record db {
  token_transfers = remove_transfers n db.token_transfers;
  transactions = revert_block n db.transactions;
}

module _ (lib : AddressLib) where
  -- The row that SaveTransaction inserts.
  unfoldable pub pending_row : Transaction → TxRow
  pending_row tx = record {
    hash = tx.hash;
    from_address = normalize_address lib tx.from;
    to_address = nullable_string (normalize_address lib tx.to);
    value = tx.value;
    gas = tx.gas;
    gas_price = tx.gas_price;
    max_priority_fee = tx.max_priority_fee;
    tx_type = tx.tx_type;
    nonce = tx.nonce;
    calldata = tx.calldata;
    timestamp = tx.timestamp;
    status = pending;
    block_number = none;
    mined_at = none;
    gas_used = none;
    effective_gas_price = none;
    receipt_status = none;
    created_contract = none;
  }

  -- SaveTransaction: accounts, the transaction and its job, in one transaction.
  unfoldable pub save_transaction : ℕ → Transaction → Db → Db
  save_transaction now tx db =
      let seen =
        upsert_accounts (normalize_address lib tx.from ∷ normalize_address lib tx.to ∷ [])
          tx.timestamp db.accounts in
      if has_tx tx.hash db.transactions then record db { accounts = seen } else record db {
        accounts = seen;
        transactions = db.transactions ++ pending_row tx ∷ [];
        jobs =
            if str_eq (normalize_address lib tx.to) ""
            then db.jobs
            else enqueue now tx.hash db.jobs;
      }

  -- The row of the i-th entries of the arrays of upsertMinedTransactions.
  unfoldable pub mined_row : MinedBlock → Transaction → TxRow
  mined_row mb tx =
      let receipt = lookup_receipt tx.hash mb.receipts in
      record {
        hash = tx.hash;
        from_address = normalize_address lib tx.from;
        to_address = nullable_string (normalize_address lib tx.to);
        value = tx.value;
        gas = tx.gas;
        gas_price = tx.gas_price;
        max_priority_fee = tx.max_priority_fee;
        tx_type = tx.tx_type;
        nonce = tx.nonce;
        calldata = tx.calldata;
        timestamp = mb.block.mined_at;
        status = mined;
        block_number = some mb.block.number;
        mined_at = some mb.block.mined_at;
        gas_used = receipt_gas receipt;
        effective_gas_price = receipt_price receipt;
        receipt_status = receipt_state receipt;
        created_contract = nullable_string (normalize_address lib tx.created_contract);
      }

  unfoldable pub created_contracts : List Transaction → List String
  created_contracts [] = []
  created_contracts (tx ∷ txs) =
      let rest = created_contracts txs in
      let created = normalize_address lib tx.created_contract in
      if str_eq created "" then rest else created ∷ rest

  unfoldable pub job_hashes : List Transaction → List String
  job_hashes [] = []
  job_hashes (tx ∷ txs) =
      let rest = job_hashes txs in
      if str_eq (normalize_address lib tx.to) ""
        && str_eq (normalize_address lib tx.created_contract) ""
      then rest
      else tx.hash ∷ rest

  -- upsertMinedTransactions. One INSERT may not touch a row twice.
  unfoldable pub upsert_mined_transactions : ℕ → MinedBlock → Db → DbResult
  upsert_mined_transactions now mb db =
      let rows = map (mined_row mb) mb.transactions in
      let created = created_contracts mb.transactions in
      let accounts =
        mark_contracts created (upsert_accounts created mb.block.mined_at db.accounts) in
      if violates_format created
      then aborted check_violation
      else if has_duplicates (map (λ (tx : Transaction). tx.hash) mb.transactions)
      then aborted cardinality
      else if any (dangling_tx mb.block.number db.transactions accounts db.blocks) rows
      then aborted foreign_key
      else committed (record db {
        accounts = accounts;
        transactions = mark_replaced rows (upsert_mined_all rows db.transactions);
        jobs = enqueue_all now (job_hashes mb.transactions) db.jobs;
      })

  unfoldable pub transfer_row : ℕ → TokenTransfer → TransferRow
  transfer_row n tt = record {
    tx_hash = tt.tx_hash;
    log_index = tt.log_index;
    block_number = n;
    token_address = normalize_address lib tt.token;
    from_address = normalize_address lib tt.from;
    to_address = normalize_address lib tt.to;
    amount = tt.amount;
  }

  -- insertTokenTransfers. Both tables that it writes refer to the transactions table.
  unfoldable pub insert_token_transfers : ℕ → ℕ → List TokenTransfer → Db → DbResult
  insert_token_transfers now n tts db =
      if any (λ (tt : TokenTransfer). not (has_tx tt.tx_hash db.transactions)) tts
        || any (dangling_transfer db) (map (transfer_row n) tts)
      then aborted foreign_key
      else committed (record db {
        token_transfers = insert_transfers (map (transfer_row n) tts) db.token_transfers;
        jobs = requeue_all now (map (λ (tt : TokenTransfer). tt.tx_hash) tts) db.jobs;
      })

  unfoldable pub transfer_addresses : List TokenTransfer → List String
  transfer_addresses [] = []
  transfer_addresses (tt ∷ tts) =
      normalize_address lib tt.token
      ∷ normalize_address lib tt.from
      ∷ normalize_address lib tt.to
      ∷ transfer_addresses tts

  unfoldable pub tx_addresses : List Transaction → List String
  tx_addresses [] = []
  tx_addresses (tx ∷ txs) =
      normalize_address lib tx.from ∷ normalize_address lib tx.to ∷ tx_addresses txs

  -- The two loops that fill `addresses`.
  unfoldable pub block_addresses : MinedBlock → List String
  block_addresses mb = tx_addresses mb.transactions ++ transfer_addresses mb.token_transfers

  abbrev after_upsert : ℕ → MinedBlock → DbResult → DbResult
  after_upsert now mb (aborted e) = aborted e
  after_upsert now mb (committed db) =
      insert_token_transfers now mb.block.number mb.token_transfers db

  -- The statements of SaveBlock behind its look at the stored hash.
  unfoldable pub write_block : ℕ → MinedBlock → Db → DbResult
  write_block now mb db =
      let seen = record db {
        blocks = upsert_block mb.block db.blocks;
        accounts = upsert_accounts (block_addresses mb) mb.block.mined_at db.accounts;
      } in
      if hash_taken mb.block db.blocks
      then aborted unique_violation
      else if violates_format (block_addresses mb)
      then aborted check_violation
      else after_upsert now mb (upsert_mined_transactions now mb seen)

  abbrev dispatch_block : ℕ → MinedBlock → Option String → Db → DbResult
  dispatch_block now mb none db = write_block now mb db
  dispatch_block now mb (some h) db =
      if str_eq h mb.block.hash
      then committed db
      else write_block now mb (undo_block mb.block.number db)

  -- SaveBlock
  unfoldable pub save_block : ℕ → MinedBlock → Db → DbResult
  save_block now mb db = dispatch_block now mb (stored_hash mb.block.number db.blocks) db
