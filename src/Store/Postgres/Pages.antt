-- ===== src/Store/Postgres/Pages.antt =====
-- store/postgres.go: the pages that list transactions, token transfers and flags, the newest first.
-- Of rows with one time SQL leaves the order open, and the model takes one of the orders.
pub mod Newest
pub mod Anchor
mod Tests
use forensic_listener.Prelude.{
  ℕ, zero, suc, ◌+◌, ◌*◌, String, Bool, true, false, ◌&&◌, ◌||◌, not, Option, none, some, List, [],
  ◌∷◌, ◌++◌, map, str_eq, ltb, leb, ◌==◌, if◌then◌else◌, any, keep, take,
}
use forensic_listener.Models.{Transaction, Block, ForensicFlag, Severity}
use forensic_listener.Store.Address.{AddressLib, normalize_address}
use forensic_listener.Store.Postgres.Transactions.{TxRow, TransferRow, find_tx, scan_transaction}
use forensic_listener.Store.Postgres.Entities.{EntityRow, find_entity}

module _ {A : Type 0} where
  unfoldable pub insert_newest : (A → ℕ) → A → List A → List A
  insert_newest key x [] = x ∷ []
  insert_newest key x (y ∷ ys) =
      if leb (key y) (key x) then x ∷ y ∷ ys else y ∷ insert_newest key x ys

  -- ORDER BY key DESC
  unfoldable pub newest : (A → ℕ) → List A → List A
  newest key [] = []
  newest key (x ∷ xs) = insert_newest key x (newest key xs)

  -- ORDER BY key DESC LIMIT n
  unfoldable pub page : (A → ℕ) → ℕ → List A → List A
  page key n xs = take n (newest key xs)

-- x = a, which is not true of NULL
abbrev pub equals : String → Option String → Bool
equals a none = false
equals a (some b) = str_eq b a

-- scanTransaction without the calldata
unfoldable pub scan_listed : TxRow → Transaction
scan_listed r = record (scan_transaction r) { calldata = [] }

-- RecentTransactions
unfoldable pub recent_transactions : ℕ → List TxRow → List Transaction
recent_transactions limit rows = map scan_listed (page (λ (r : TxRow). r.timestamp) limit rows)

-- TransactionByHash; none is the NotFoundError.
unfoldable pub transaction_by_hash : String → List TxRow → Option Transaction
transaction_by_hash hash rows = elim (find_tx hash rows) [
  | none ↦ none
  | some r ↦ some (scan_transaction r)
]

-- if limit <= 0 { limit = 8 }
abbrev pub limit_or : ℕ → ℕ → ℕ
limit_or fallback limit = if limit == 0 then fallback else limit

abbrev pub touches : String → TxRow → Bool
touches a r = str_eq r.from_address a || equals a r.to_address

-- A row of a page of transfers, with the block's time and the token's name.
pub record ListedTransfer : Type 0 where
  pub row : TransferRow
  pub token_name : String
  pub mined_at : ℕ

unfoldable pub block_time : ℕ → List Block → Option ℕ
block_time n [] = none
block_time n (b ∷ bs) = if b.number == n then some b.mined_at else block_time n bs

abbrev pub name_of : Option EntityRow → String
name_of none = ""
name_of (some e) = e.name

abbrev pub joined_row : TransferRow → String → Option ℕ → List ListedTransfer → List ListedTransfer
joined_row r name none rest = rest
joined_row r name (some t) rest = record { row = r; token_name = name; mined_at = t } ∷ rest

-- JOIN blocks, LEFT JOIN known_entities: a transfer of a block that is not there is not listed.
unfoldable pub join_transfers : List Block → List EntityRow → List TransferRow → List ListedTransfer
join_transfers blocks entities [] = []
join_transfers blocks entities (r ∷ rs) =
    joined_row r (name_of (find_entity r.token_address entities)) (block_time r.block_number blocks)
      (join_transfers blocks entities rs)

-- ORDER BY log_index
unfoldable pub insert_by_log : ListedTransfer → List ListedTransfer → List ListedTransfer
insert_by_log t [] = t ∷ []
insert_by_log t (u ∷ us) =
    if leb t.row.log_index u.row.log_index then t ∷ u ∷ us else u ∷ insert_by_log t us

unfoldable pub sort_by_log : List ListedTransfer → List ListedTransfer
sort_by_log [] = []
sort_by_log (t ∷ ts) = insert_by_log t (sort_by_log ts)

-- TokenTransfersForTransaction
unfoldable pub token_transfers_for_transaction :
    String → List Block → List EntityRow → List TransferRow → List ListedTransfer
token_transfers_for_transaction hash blocks entities rows =
    sort_by_log
      (join_transfers blocks entities (keep (λ (r : TransferRow). str_eq r.tx_hash hash) rows))

-- ORDER BY block_number DESC, log_index DESC: later in the block first, and then stably by the block.
unfoldable pub latest_transfers : List ListedTransfer → List ListedTransfer
latest_transfers ts =
    newest (λ (t : ListedTransfer). t.row.block_number)
      (newest (λ (t : ListedTransfer). t.row.log_index) ts)

-- models.CircularEvidence, as it is decoded from the JSON of a flag.
pub record LoopEvidence : Type 0 where
  pub path : List String
  pub transaction_hashes : List String
  pub kinds : List String
  pub hops : ℕ

-- A row of forensic_flags, with its serial id and its evidence, which is none where the JSON cannot be
-- decoded as that of a loop.
pub record FlagRow : Type 0 where
  pub id : ℕ
  pub flag : ForensicFlag
  pub evidence : Option LoopEvidence

abbrev pub detected : FlagRow → ℕ
detected f = f.flag.detected_at

-- RecentFlags
unfoldable pub recent_flags : ℕ → List FlagRow → List FlagRow
recent_flags limit rows = page detected limit rows

-- FlagsForTransaction: ORDER BY detected_at DESC, id DESC
unfoldable pub flags_for_transaction : String → List FlagRow → List FlagRow
flags_for_transaction hash rows =
    newest detected
      (newest (λ (f : FlagRow). f.id) (keep (λ (f : FlagRow). str_eq f.flag.tx_hash hash) rows))

-- models.CircularFlow of a flag.
pub record ListedFlow : Type 0 where
  pub flag_id : ℕ
  pub tx_hash : String
  pub address : String
  pub severity : Severity
  pub detected_at : ℕ
  pub evidence : LoopEvidence

-- The fields stay empty where the evidence cannot be decoded.
abbrev pub evidence_of : Option LoopEvidence → LoopEvidence
evidence_of none = record { path = []; transaction_hashes = []; kinds = []; hops = 0 }
evidence_of (some e) = e

unfoldable pub flow_row : FlagRow → ListedFlow
flow_row f = record {
  flag_id = f.id;
  tx_hash = f.flag.tx_hash;
  address = f.flag.address;
  severity = f.flag.severity;
  detected_at = f.flag.detected_at;
  evidence = evidence_of f.evidence;
}

-- RecentCircularFlows
unfoldable pub recent_circular_flows : ℕ → List FlagRow → List ListedFlow
recent_circular_flows limit rows =
    map flow_row
      (page detected limit (keep (λ (f : FlagRow). str_eq f.flag.flag_type "circular_flow") rows))

abbrev pub first_hash : List TxRow → String
first_hash [] = ""
first_hash (r ∷ rs) = r.hash

module _ (lib : AddressLib) where
  -- RecentTransactionsForAddress
  unfoldable pub recent_transactions_for_address : String → ℕ → List TxRow → List Transaction
  recent_transactions_for_address address limit rows = map scan_listed (
      page (λ (r : TxRow). r.timestamp) (limit_or 8 limit)
        (keep (touches (normalize_address lib address)) rows))

  -- RecentTokenTransfersForAddress
  unfoldable pub recent_token_transfers_for_address :
      String → ℕ → List Block → List EntityRow → List TransferRow → List ListedTransfer
  recent_token_transfers_for_address address limit blocks entities rows =
      let a = normalize_address lib address in
      take limit (
        latest_transfers (
          join_transfers blocks entities
            (keep (λ (r : TransferRow). str_eq r.from_address a || str_eq r.to_address a) rows)))

  -- FlagsForAddress
  unfoldable pub flags_for_address : String → ℕ → List FlagRow → List FlagRow
  flags_for_address address limit rows =
      page detected limit
        (keep (λ (f : FlagRow). str_eq f.flag.address (normalize_address lib address)) rows)

  -- LatestTransactionHashFor: the latest call, and the latest creation, and the later of the two.
  unfoldable pub latest_transaction_hash_for : String → List TxRow → String
  latest_transaction_hash_for address rows =
      let a = normalize_address lib address in
      first_hash (
        page (λ (r : TxRow). r.timestamp) 1
          (page (λ (r : TxRow). r.timestamp) 1 (keep (λ (r : TxRow). equals a r.to_address) rows)
            ++ page (λ (r : TxRow). r.timestamp) 1
                (keep (λ (r : TxRow). equals a r.created_contract) rows)))
