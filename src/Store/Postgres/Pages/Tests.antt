-- ===== src/Store/Postgres/Pages/Tests.antt =====
-- store/postgres.go: pages of three transactions.
use forensic_listener.Prelude.{◌≤◌, ℕ, ◌≡◌, refl, ◌++◌, some, List, [], ◌∷◌, min, length, All}
use mathlib.Core.List.{Perm}
use forensic_listener.Store.Fixtures.{lib, payment, speed_up, creation, header}
use forensic_listener.Store.Address.{normalize_address, trim_space, is_space}
use forensic_listener.Store.Postgres.{pending_row}
use forensic_listener.Store.Postgres.Transactions.{TxRow, TransferRow, nullable_string}
use forensic_listener.Store.Postgres.Entities.{find_entity}
use forensic_listener.Store.Postgres.Pages.{
  page, newest, insert_newest, latest_transaction_hash_for, token_transfers_for_transaction,
  join_transfers, block_time, sort_by_log, insert_by_log,
}
use forensic_listener.Store.Postgres.Pages.Newest.{IsNewestFirst, page_lem}
use forensic_listener.Store.Postgres.Pages.Anchor.{
  IsLatestHash, involves, latest_transaction_hash_for-IsLatest,
}

abbrev early : TxRow
early = pending_row lib payment

abbrev late : TxRow
late = pending_row lib (record speed_up { timestamp = 3000 })

abbrev middle : TxRow
middle = record (pending_row lib (record creation { timestamp = 2000 })) {
  created_contract = some "0xBBBBBBBBBBBBBBBBBBBBBBBBBBBBBBBBBBBBBBBB";
}

abbrev table : List TxRow
table = early ∷ late ∷ middle ∷ []

abbrev time : TxRow → ℕ
time r = r.timestamp

page_lem_applied :
    (rest : List TxRow) × Perm (page time 2 table ++ rest) table
    × IsNewestFirst time (page time 2 table)
    × All (λ x. All (λ y. time y ≤ time x) rest) (page time 2 table)
    × (length (page time 2 table) ≡ min 2 (length table))
page_lem_applied = page_lem time 2 table

two_newest : page time 2 table ≡ late ∷ middle ∷ []
unfolding page newest insert_newest pending_row
two_newest = refl

latest_transaction_hash_for-IsLatest_example :
    IsLatestHash
      (involves (normalize_address lib " 0xBBBBBBBBBBBBBBBBBBBBBBBBBBBBBBBBBBBBBBBB"))
      table
      (latest_transaction_hash_for lib " 0xBBBBBBBBBBBBBBBBBBBBBBBBBBBBBBBBBBBBBBBB" table)
latest_transaction_hash_for-IsLatest_example =
    latest_transaction_hash_for-IsLatest lib " 0xBBBBBBBBBBBBBBBBBBBBBBBBBBBBBBBBBBBBBBBB" table

anchor : latest_transaction_hash_for lib " 0xBBBBBBBBBBBBBBBBBBBBBBBBBBBBBBBBBBBBBBBB" table ≡ "q"
unfolding latest_transaction_hash_for page newest insert_newest pending_row nullable_string
    normalize_address trim_space is_space
anchor = refl

abbrev transfer_row : TransferRow
transfer_row = record {
  tx_hash = "q";
  log_index = 1;
  block_number = 40;
  token_address = "0xBBBBBBBBBBBBBBBBBBBBBBBBBBBBBBBBBBBBBBBB";
  from_address = "0xAAAAAAAAAAAAAAAAAAAAAAAAAAAAAAAAAAAAAAAA";
  to_address = "0xBBBBBBBBBBBBBBBBBBBBBBBBBBBBBBBBBBBBBBBB";
  amount = 3;
}

-- The transfer of a block that is not stored is not listed.
one_listed :
    token_transfers_for_transaction "q"
      (header "40-1" ∷ [])
      []
      (transfer_row ∷ record transfer_row { log_index = 0; block_number = 41 } ∷ [])
    ≡ record { row = transfer_row; token_name = ""; mined_at = 2000 } ∷ []
unfolding token_transfers_for_transaction sort_by_log insert_by_log join_transfers block_time
    find_entity
one_listed = refl
