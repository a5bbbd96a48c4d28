-- ===== src/Store/Postgres/Tests.antt =====
-- store/postgres.go: tests of the stores' statements, and the laws at the test data. First the writes
-- of blocks and transactions; the queue's are in the child.
mod Jobs
use mathlib.Core.List.{Memᴰ}
use forensic_listener.Prelude.{
  eq_iff, str_eq, String, ◌≡◌, ◌⊎◌, refl, Bool, true, false, Option, some, none, List, [], ◌∷◌,
  ◌++◌, ◌≢◌, ap, map, any, All, is_some,
}
use forensic_listener.Models.{TxStatus, pending, mined, replaced, Transaction, MinedBlock}
use forensic_listener.Store.Fixtures.{
  transfer, lib, payment, speed_up, creation, block_1, block_2, empty_db, state_of,
}
use forensic_listener.Store.Address.{normalize_address, trim_space, trim_left, trim_right, is_space}
use forensic_listener.Store.Postgres.{
  TransferRow, receipt_gas, lookup_receipt, upsert_block, Db, committed, aborted, foreign_key,
  cardinality, save_transaction, save_block, mined_row, transfer_row, stored_hash, receipt_price,
  receipt_state, undo_block, pending_row, created_contracts, job_hashes, upsert_mined_transactions,
  insert_token_transfers, transfer_addresses, tx_addresses, block_addresses, write_block, has_block,
  hash_taken, dangling_tx, dangling_transfer,
}
use forensic_listener.Store.Postgres.Accounts.{
  has_account, violates_format, is_account_format, hex_digits, is_hex_digit, upsert_accounts,
  touch_account, distinct_addresses, touch_all, mark_contracts,
}
use forensic_listener.Store.Postgres.Accounts.Seen.{upsert_accounts-seen, seen_by}
use forensic_listener.Store.Postgres.Transactions.{
  TxRow, find_tx, has_tx, scan_transaction, is_superseded, nullable_string, has_duplicates,
  revert_block, remove_transfers, upsert_mined, upsert_mined_all, mark_replaced, has_transfer,
  insert_transfer, insert_transfers,
}
use forensic_listener.Prelude.{if◌then◌else◌}
use forensic_listener.Store.Postgres.Commit.{names_unknown, save_block_result}
use forensic_listener.Store.Postgres.Writes.{written, base, mined_rows}
use forensic_listener.Store.Postgres.Queue.{
  has_job, enqueue, enqueue_all, requeue, requeue_all, Job, new_job,
}
use forensic_listener.Store.Postgres.Blocks.{
  save_block_again, included_mined, reorg_leaves_none, Includes, IsMinedIn,
}
use forensic_listener.Store.Postgres.Lifecycle.{
  SameCore, next_status, includes, is_undone, save_block_row, save_block_rivals, reorg_transfers,
  IsListed,
}
use forensic_listener.Store.Postgres.Pending.{
  save_transaction_again, save_transaction_scan, save_transaction-parties, parties,
}
use forensic_listener.Store.Postgres.Outbox.{
  IsOutbox, save_block-IsOutbox, save_transaction-IsOutbox,
}

-- Two pending transactions of one nonce.
abbrev seen : Db
seen = save_transaction lib 1500 speed_up (save_transaction lib 1400 payment empty_db)

rows_seen : seen.transactions ≡ pending_row lib payment ∷ pending_row lib speed_up ∷ []
unfolding stored_hash upsert_block lookup_receipt receipt_gas receipt_price receipt_state undo_block
    pending_row save_transaction mined_row created_contracts job_hashes upsert_mined_transactions
    transfer_row insert_token_transfers transfer_addresses tx_addresses block_addresses write_block
    save_block has_block hash_taken dangling_tx dangling_transfer violates_format is_account_format
    hex_digits is_hex_digit has_account touch_account distinct_addresses touch_all upsert_accounts
    mark_contracts nullable_string has_tx has_duplicates revert_block remove_transfers upsert_mined
    upsert_mined_all is_superseded mark_replaced has_transfer insert_transfer insert_transfers
    has_job enqueue enqueue_all requeue requeue_all normalize_address trim_space trim_left
    trim_right is_space
rows_seen = refl

-- Then the block that mines the second one.
abbrev after_1 : Db
after_1 = record {
  accounts =
      touch_account 2000 "0xAAAAAAAAAAAAAAAAAAAAAAAAAAAAAAAAAAAAAAAA"
        (touch_account 2000 "0xBBBBBBBBBBBBBBBBBBBBBBBBBBBBBBBBBBBBBBBB" seen.accounts);
  blocks = block_1.block ∷ [];
  transactions =
      record (pending_row lib payment) { status = replaced }
      ∷ record (mined_row lib block_1 speed_up) { timestamp = 1000 }
      ∷ [];
  token_transfers = transfer_row lib 40 transfer ∷ [];
  jobs = new_job 1400 "p" ∷ new_job 1500 "q" ∷ [];
}

done_1 : save_block lib 2100 block_1 seen ≡ committed after_1
unfolding stored_hash upsert_block lookup_receipt receipt_gas receipt_price receipt_state undo_block
    pending_row save_transaction mined_row created_contracts job_hashes upsert_mined_transactions
    transfer_row insert_token_transfers transfer_addresses tx_addresses block_addresses write_block
    save_block has_block hash_taken dangling_tx dangling_transfer violates_format is_account_format
    hex_digits is_hex_digit has_account touch_account distinct_addresses touch_all upsert_accounts
    mark_contracts nullable_string has_tx has_duplicates revert_block remove_transfers upsert_mined
    upsert_mined_all is_superseded mark_replaced has_transfer insert_transfer insert_transfers
    has_job enqueue enqueue_all requeue requeue_all normalize_address trim_space trim_left
    trim_right is_space
done_1 = refl

-- Then the block that displaces it.
abbrev after_2 : Db
after_2 = record after_1 {
  blocks = block_2.block ∷ [];
  transactions =
      record (pending_row lib payment) { status = replaced }
      ∷ pending_row lib speed_up
      ∷ mined_row lib block_2 creation
      ∷ [];
  token_transfers = [];
  accounts = mark_contracts ("0xBBBBBBBBBBBBBBBBBBBBBBBBBBBBBBBBBBBBBBBB" ∷ []) after_1.accounts;
  jobs = after_1.jobs ++ new_job 2200 "c" ∷ [];
}

done_2 : save_block lib 2200 block_2 after_1 ≡ committed after_2
unfolding stored_hash upsert_block lookup_receipt receipt_gas receipt_price receipt_state undo_block
    pending_row save_transaction mined_row created_contracts job_hashes upsert_mined_transactions
    transfer_row insert_token_transfers transfer_addresses tx_addresses block_addresses write_block
    save_block has_block hash_taken dangling_tx dangling_transfer violates_format is_account_format
    hex_digits is_hex_digit has_account touch_account distinct_addresses touch_all upsert_accounts
    mark_contracts nullable_string has_tx has_duplicates revert_block remove_transfers upsert_mined
    upsert_mined_all is_superseded mark_replaced has_transfer insert_transfer insert_transfers
    has_job enqueue enqueue_all requeue requeue_all normalize_address trim_space trim_left
    trim_right is_space
done_2 = refl

none_is_some : (s : String) → none ≢ some s
none_is_some s e = cc

same_text : (s t : String) → str_eq s t ≡ false → s ≢ t
same_text s t d e = let q = (eq_iff s t).1 e in cc

same_hash : (s t : String) → str_eq s t ≡ false → some s ≢ some t
same_hash s t d e = let q : s ≡ t = cc in same_text s t d q

fresh_1 : stored_hash 40 seen.blocks ≢ some "40-1"
unfolding stored_hash save_transaction has_tx pending_row
fresh_1 = none_is_some "40-1"

was_1 : stored_hash 40 after_1.blocks ≡ some "40-1"
unfolding stored_hash
was_1 = refl

differs : block_1.block.hash ≢ block_2.block.hash
differs = same_text "40-1" "40-2" refl

fresh_2 : stored_hash 40 after_1.blocks ≢ some "40-2"
unfolding stored_hash
fresh_2 = same_hash "40-1" "40-2" refl

stored_row : find_tx "c" after_2.transactions ≡ some (mined_row lib block_2 creation)
unfolding find_tx pending_row mined_row
stored_row = refl

replaced_row :
    find_tx "p" after_1.transactions ≡ some (record (pending_row lib payment) { status = replaced })
unfolding find_tx pending_row mined_row
replaced_row = refl

abbrev mined_speed_up : TxRow
mined_speed_up = record (mined_row lib block_1 speed_up) { timestamp = 1000 }

undone_row : find_tx "q" after_1.transactions ≡ some mined_speed_up
unfolding find_tx pending_row mined_row
undone_row = refl

pending_again : find_tx "q" after_2.transactions ≡ some (pending_row lib speed_up)
unfolding find_tx pending_row mined_row
pending_again = refl

save_block_again_example : save_block lib 2500 block_1 after_1 ≡ committed after_1
save_block_again_example = save_block_again lib 2100 block_1 seen done_1 2500

included_mined_applied : (r : TxRow) × (find_tx "q" after_1.transactions ≡ some r) × IsMinedIn 40 r
included_mined_applied = included_mined lib 2100 block_1 seen done_1 fresh_1 "q" refl

reorg_leaves_none_example : Includes block_2 "c"
reorg_leaves_none_example =
    reorg_leaves_none lib 2200 block_2 after_1 done_2 "40-1" was_1 differs "c"
      (mined_row lib block_2 creation) stored_row (unfold mined_row in refl)

save_block_row_example :
    (s : TxRow) × (find_tx "q" after_2.transactions ≡ some s)
    × SameCore mined_speed_up s
    × (s.status
        ≡ next_status
            (includes block_2 "q")
            (is_undone 40 (stored_hash 40 after_1.blocks) mined_speed_up)
            (is_superseded (mined_rows lib block_2) mined_speed_up)
            mined_speed_up.status)
save_block_row_example =
    save_block_row lib 2200 block_2 after_1 done_2 fresh_2 "q" mined_speed_up undone_row

save_block_rivals_applied :
    ((pending_row lib speed_up).from_address ≢ (mined_row lib block_2 creation).from_address)
    ⊎ ((pending_row lib speed_up).nonce ≢ (mined_row lib block_2 creation).nonce)
save_block_rivals_applied =
    save_block_rivals lib 2200 block_2 after_1 done_2 fresh_2 "q" (pending_row lib speed_up)
      (mined_row lib block_2 creation) pending_again (unfold pending_row in refl) (Memᴰ.head refl)

reorg_transfers_example :
    All
      (λ (t : TransferRow). (t.block_number ≢ 40) ⊎ IsListed lib block_2 t)
      after_2.token_transfers
reorg_transfers_example = reorg_transfers lib 2200 block_2 after_1 done_2 "40-1" was_1 differs

save_transaction_again_applied :
    save_transaction lib 1600 payment (save_transaction lib 1400 payment empty_db)
    ≡ save_transaction lib 1400 payment empty_db
save_transaction_again_applied = save_transaction_again lib 1400 payment empty_db 1600

save_transaction_scan_applied :
    (r : TxRow) × (find_tx "p" (save_transaction lib 1400 payment empty_db).transactions ≡ some r)
    × (scan_transaction r ≡ record payment {
      from = normalize_address lib " 0xaaaaaaaaaaaaaaaaaaaaaaaaaaaaaaaaaaaaaaaa";
      to = normalize_address lib "0xBBBBBBBBBBBBBBBBBBBBBBBBBBBBBBBBBBBBBBBB";
      status = pending;
      block_number = none;
      mined_at = none;
      gas_used = none;
      effective_gas_price = none;
      receipt_status = none;
      created_contract = "";
    })
save_transaction_scan_applied =
    save_transaction_scan lib 1400 payment empty_db (unfold has_tx in refl)

save_transaction-parties_applied :
    has_account "0xBBBBBBBBBBBBBBBBBBBBBBBBBBBBBBBBBBBBBBBB"
      (save_transaction lib 1400 payment empty_db).accounts
    ≡ true
save_transaction-parties_applied =
    save_transaction-parties lib 1400 payment empty_db "0xBBBBBBBBBBBBBBBBBBBBBBBBBBBBBBBBBBBBBBBB"
      refl (unfold normalize_address trim_space trim_left trim_right is_space in refl)

seen-IsOutbox : IsOutbox seen
seen-IsOutbox =
    save_transaction-IsOutbox lib 1500 speed_up _
      (save_transaction-IsOutbox lib 1400 payment empty_db tt)

save_block-IsOutbox_example : IsOutbox after_1
save_block-IsOutbox_example = save_block-IsOutbox lib 2100 block_1 seen seen-IsOutbox done_1

save_transaction-IsOutbox_applied : IsOutbox (save_transaction lib 1400 payment empty_db)
save_transaction-IsOutbox_applied = save_transaction-IsOutbox lib 1400 payment empty_db tt

upsert_accounts-seen_applied :
    seen_by 900 "0xBBBBBBBBBBBBBBBBBBBBBBBBBBBBBBBBBBBBBBBB" (
      upsert_accounts
        ("0xAAAAAAAAAAAAAAAAAAAAAAAAAAAAAAAAAAAAAAAA" ∷ ""
          ∷ "0xBBBBBBBBBBBBBBBBBBBBBBBBBBBBBBBBBBBBBBBB" ∷ [])
        900
        [])
    ≡ true
upsert_accounts-seen_applied =
    upsert_accounts-seen
      ("0xAAAAAAAAAAAAAAAAAAAAAAAAAAAAAAAAAAAAAAAA" ∷ ""
        ∷ "0xBBBBBBBBBBBBBBBBBBBBBBBBBBBBBBBBBBBBBBBB" ∷ [])
      900 [] "0xBBBBBBBBBBBBBBBBBBBBBBBBBBBBBBBBBBBBBBBB" refl refl

save_block_result_example : save_block lib 2100 block_1 seen ≡ (
    if names_unknown block_1 seen
    then aborted foreign_key
    else committed (written lib 2100 block_1 (base lib block_1 (stored_hash 40 seen.blocks) seen)))
unfolding hash_taken violates_format is_account_format hex_digits is_hex_digit normalize_address
    trim_space trim_left trim_right is_space block_addresses tx_addresses transfer_addresses
    created_contracts save_transaction has_tx pending_row
save_block_result_example =
    save_block_result lib block_1 2100 seen fresh_1 refl (refl, refl) (refl, tt)
      ((refl, refl, refl), tt) (unfold has_duplicates in refl)
