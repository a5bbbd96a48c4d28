-- ===== src/Store/Postgres/Transactions.antt =====
-- store/postgres.go: the transactions, blocks and token_transfers tables.
pub mod Rows
use forensic_listener.Prelude.{
  ◌||◌, ℕ, ◌+◌, String, Bool, true, false, ◌&&◌, not, Option, none, some, List, [], ◌∷◌, ◌++◌, map,
  str_eq, ltb, ◌==◌, if◌then◌else◌, any, keep, length,
}
use forensic_listener.Models.{TxStatus, pending, mined, replaced, dropped, Transaction}

-- A row of transactions. `none` is NULL.
pub record TxRow : Type 0 where
  pub hash : String
  pub from_address : String
  pub to_address : Option String
  pub value : ℕ
  pub gas : ℕ
  pub gas_price : ℕ
  pub max_priority_fee : Option ℕ
  pub tx_type : ℕ
  pub nonce : ℕ
  pub calldata : List ℕ
  pub timestamp : ℕ
  pub status : TxStatus
  pub block_number : Option ℕ
  pub mined_at : Option ℕ
  pub gas_used : Option ℕ
  pub effective_gas_price : Option ℕ
  pub receipt_status : Option ℕ
  pub created_contract : Option String

-- A row of token_transfers.
pub record TransferRow : Type 0 where
  pub tx_hash : String
  pub log_index : ℕ
  pub block_number : ℕ
  pub token_address : String
  pub from_address : String
  pub to_address : String
  pub amount : ℕ

-- nullableString, and NULLIF(x, '')
unfoldable pub nullable_string : String → Option String
nullable_string s = if str_eq s "" then none else some s

-- COALESCE(x, '')
abbrev pub or_empty : Option String → String
or_empty none = ""
or_empty (some s) = s

-- NULLIF(x, 0)
abbrev pub null_if_zero : ℕ → Option ℕ
null_if_zero n = if n == 0 then none else some n

abbrev pub is_pending : TxStatus → Bool
is_pending pending = true
is_pending _ = false

-- block_number = n, which is not true of NULL
abbrev pub in_block : ℕ → Option ℕ → Bool
in_block n none = false
in_block n (some m) = m == n

unfoldable pub has_tx : String → List TxRow → Bool
has_tx h = any (λ r. str_eq r.hash h)

unfoldable pub find_tx : String → List TxRow → Option TxRow
find_tx h [] = none
find_tx h (r ∷ rs) = if str_eq r.hash h then some r else find_tx h rs

-- Whether a list names some hash twice.
unfoldable pub has_duplicates : List String → Bool
has_duplicates [] = false
has_duplicates (h ∷ hs) = any (λ k. str_eq k h) hs || has_duplicates hs

-- UPDATE transactions SET status = 'pending', block_number = NULL, ... WHERE block_number = n
abbrev pub unmine : TxRow → TxRow
unmine r = record r {
  status = pending;
  block_number = none;
  mined_at = none;
  gas_used = none;
  effective_gas_price = none;
  receipt_status = none;
}

unfoldable pub revert_block : ℕ → List TxRow → List TxRow
revert_block n = map (λ r. if in_block n r.block_number then unmine r else r)

-- DELETE FROM token_transfers WHERE block_number = n
unfoldable pub remove_transfers : ℕ → List TransferRow → List TransferRow
remove_transfers n = keep (λ r. not (r.block_number == n))

-- DO UPDATE SET of the mined columns: `m` is EXCLUDED.
abbrev pub promote : TxRow → TxRow → TxRow
promote m r = record r {
  status = mined;
  block_number = m.block_number;
  mined_at = m.mined_at;
  gas_used = m.gas_used;
  effective_gas_price = m.effective_gas_price;
  receipt_status = m.receipt_status;
  created_contract = m.created_contract;
}

-- One row of INSERT ... ON CONFLICT (hash) DO UPDATE
unfoldable pub upsert_mined : TxRow → List TxRow → List TxRow
upsert_mined m [] = m ∷ []
upsert_mined m (r ∷ rs) = if str_eq r.hash m.hash then promote m r ∷ rs else r ∷ upsert_mined m rs

unfoldable pub upsert_mined_all : List TxRow → List TxRow → List TxRow
upsert_mined_all [] rows = rows
upsert_mined_all (m ∷ ms) rows = upsert_mined_all ms (upsert_mined m rows)

-- Whether some mined transaction has the sender and nonce of `r` and another hash.
unfoldable pub is_superseded : List TxRow → TxRow → Bool
is_superseded ms r =
    any
      (λ m.
        str_eq r.from_address m.from_address && r.nonce == m.nonce && not (str_eq r.hash m.hash))
      ms

-- UPDATE transactions SET status = 'replaced' WHERE status = 'pending' AND ...
unfoldable pub mark_replaced : List TxRow → List TxRow → List TxRow
mark_replaced ms =
    map
      (λ r. if is_pending r.status && is_superseded ms r then record r { status = replaced } else r)

-- The statement of MarkDroppedTransactions: the rows, and how many it changed.
abbrev pub is_expired : ℕ → ℕ → TxRow → Bool
is_expired now older_than r = is_pending r.status && ltb (r.timestamp + older_than) now

unfoldable pub mark_dropped : ℕ → ℕ → List TxRow → List TxRow × ℕ
mark_dropped now older_than rows = (
  map (λ r. if is_expired now older_than r then record r { status = dropped } else r) rows,
  length (keep (is_expired now older_than) rows),
)

unfoldable pub has_transfer : String → ℕ → List TransferRow → Bool
has_transfer h i = any (λ r. str_eq r.tx_hash h && r.log_index == i)

-- One row of INSERT ... ON CONFLICT (tx_hash, log_index) DO NOTHING
unfoldable pub insert_transfer : TransferRow → List TransferRow → List TransferRow
insert_transfer t rows = if has_transfer t.tx_hash t.log_index rows then rows else rows ++ t ∷ []

unfoldable pub insert_transfers : List TransferRow → List TransferRow → List TransferRow
insert_transfers [] rows = rows
insert_transfers (t ∷ ts) rows = insert_transfers ts (insert_transfer t rows)

-- scanTransaction over txColumns and t.data
unfoldable pub scan_transaction : TxRow → Transaction
scan_transaction r = record {
  hash = r.hash;
  from = r.from_address;
  to = or_empty r.to_address;
  value = r.value;
  gas = r.gas;
  gas_price = r.gas_price;
  max_priority_fee = r.max_priority_fee;
  tx_type = r.tx_type;
  nonce = r.nonce;
  calldata = r.calldata;
  timestamp = r.timestamp;
  status = r.status;
  block_number = r.block_number;
  mined_at = r.mined_at;
  gas_used = r.gas_used;
  effective_gas_price = r.effective_gas_price;
  receipt_status = r.receipt_status;
  created_contract = or_empty r.created_contract;
}
