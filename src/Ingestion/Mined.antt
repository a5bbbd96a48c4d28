-- ===== src/Ingestion/Mined.antt =====
-- ingestion/engine.go and ingestion/blocks.go: what go-ethereum delivers, as the records that the
-- stores take: toModel, senderAddress, decodeTransfer and ingestBlock.
pub mod Decode
pub mod Addresses
pub mod Commit
mod Tests
use forensic_listener.Prelude.{
  ℕ, zero, suc, ◌+◌, ◌*◌, ◌%◌, ◌^◌, String, Bool, true, false, ◌&&◌, ◌||◌, not, Option, none, some,
  List, [], ◌∷◌, ◌++◌, map, str_eq, ltb, leb, ◌==◌, if◌then◌else◌, length, any, ◌>>=◌,
}
use forensic_listener.Models.{
  Transaction, Block, Receipt, TokenTransfer, MinedBlock, pending, mined,
}
use forensic_listener.Store.Address.{AddressLib}
use forensic_listener.Store.Postgres.{Db, DbResult, save_block}

-- types.Transaction, as far as the code reads it: an address is its 160-bit number, and `tip_cap` and
-- `chain_id` are nil as `none`.
pub record RawTx : Type 0 where
  pub hash : String
  pub to : Option ℕ
  pub value : Option ℕ
  pub gas : ℕ
  pub gas_price : Option ℕ
  pub tip_cap : Option ℕ
  pub tx_type : ℕ
  pub nonce : ℕ
  pub calldata : List ℕ
  pub is_protected : Bool
  pub chain_id : Option ℕ

-- types.Log: topics are 256-bit numbers and the data is its bytes.
pub record RawLog : Type 0 where
  pub tx_hash : String
  pub log_index : ℕ
  pub address : ℕ
  pub topics : List ℕ
  pub data_bytes : List ℕ

pub record RawReceipt : Type 0 where
  pub tx_hash : String
  pub gas_used : ℕ
  pub status : ℕ
  pub effective_gas_price : Option ℕ
  pub contract_address : ℕ
  pub logs : List RawLog

pub record RawBlock : Type 0 where
  pub header : Block
  pub transactions : List RawTx

pub data Signer : Type 0 where
  homestead : Signer
  latest_for : ℕ → Signer

-- What the code takes from go-ethereum: the hex text of an address, the sender that a signer
-- recovers, and the hash of the Transfer event.
pub record EthLib : Type 0 where
  pub hex : ℕ → String
  pub recover : Signer → RawTx → Option String
  pub transfer_topic : ℕ

-- The switch of senderAddress; types.LegacyTxType is 0.
unfoldable pub choose_signer : RawTx → Option Signer
choose_signer raw =
    if raw.tx_type == 0 && not raw.is_protected then some homestead else latest_signer raw.chain_id
  where
    latest_signer : Option ℕ → Option Signer
    latest_signer none = none
    latest_signer (some id) = if ltb 0 id then some (latest_for id) else none

-- common.BytesToAddress keeps the last 20 bytes.
unfoldable pub bytes_to_address : ℕ → ℕ
bytes_to_address topic = topic % 2 ^ 160

-- big.Int.SetBytes, big-endian
unfoldable pub set_bytes : ℕ → List ℕ → ℕ
set_bytes acc [] = acc
set_bytes acc (b ∷ bytes) = set_bytes (acc * 256 + b) bytes

abbrev pub or_zero : Option ℕ → ℕ
or_zero none = 0
or_zero (some v) = v

-- receipts[hash] = r: the latest entry comes first.
abbrev pub receipt_entry : RawReceipt → String × Receipt
receipt_entry raw = (
  raw.tx_hash,
  record {
    gas_used = raw.gas_used;
    effective_gas_price = raw.effective_gas_price;
    status = raw.status;
  },
)

-- `byHash[hash]` points to the last transaction of that hash.
unfoldable pub set_created : String → String → List Transaction → List Transaction
set_created h created [] = []
set_created h created (tx ∷ txs) =
    let rest = set_created h created txs in
    if not (str_eq tx.hash h) || any (λ (t : Transaction). str_eq t.hash h) txs
    then tx ∷ rest
    else if str_eq tx.to ""
    then record tx { created_contract = created } ∷ txs
    else tx ∷ txs

-- The receipts that the node returned, none if the call failed.
abbrev pub received : Option (List RawReceipt) → List RawReceipt
received none = []
received (some receipts) = receipts

module _ (eth : EthLib) where
  open eth use {hex, recover, transfer_topic}

  abbrev pub hex_or_empty : Option ℕ → String
  hex_or_empty none = ""
  hex_or_empty (some a) = hex a

  unfoldable pub sender_address : RawTx → Option String
  sender_address raw = do signer ← choose_signer raw; recover signer raw

  -- toModel: types.DynamicFeeTxType is 2.
  unfoldable pub to_model : RawTx → ℕ → Option Transaction
  to_model raw observed_at = do
    sender ← sender_address raw
    some (record {
      hash = raw.hash;
      from = sender;
      to = hex_or_empty raw.to;
      value = or_zero raw.value;
      gas = raw.gas;
      gas_price = or_zero raw.gas_price;
      max_priority_fee = if leb 2 raw.tx_type then raw.tip_cap else none;
      tx_type = raw.tx_type;
      nonce = raw.nonce;
      calldata = raw.calldata;
      timestamp = observed_at;
      status = pending;
      block_number = none;
      mined_at = none;
      gas_used = none;
      effective_gas_price = none;
      receipt_status = none;
      created_contract = "";
    })

  -- decodeTransfer
  unfoldable pub decode_transfer : RawLog → Block → Option TokenTransfer
  decode_transfer lg block = decode lg.topics
    where
      decode : List ℕ → Option TokenTransfer
      decode (event ∷ from ∷ to ∷ []) =
          if event == transfer_topic && length lg.data_bytes == 32
          then some (record {
            tx_hash = lg.tx_hash;
            log_index = lg.log_index;
            block_number = block.number;
            token = hex lg.address;
            from = hex (bytes_to_address from);
            to = hex (bytes_to_address to);
            amount = set_bytes 0 lg.data_bytes;
            mined_at = block.mined_at;
          })
          else none
      decode _ = none

  abbrev pub keep_transfer : Option TokenTransfer → List TokenTransfer → List TokenTransfer
  keep_transfer none transfers = transfers
  keep_transfer (some t) transfers = t ∷ transfers

  unfoldable pub decode_logs : Block → List RawLog → List TokenTransfer
  decode_logs block [] = []
  decode_logs block (lg ∷ logs) = keep_transfer (decode_transfer lg block) (decode_logs block logs)

  abbrev pub keep_mined : Option Transaction → List Transaction → List Transaction
  keep_mined none txs = txs
  keep_mined (some tx) txs = record tx { status = mined } ∷ txs

  -- The loop over block.Transactions(): those without a sender are skipped.
  unfoldable pub mined_transactions : ℕ → List RawTx → List Transaction
  mined_transactions at [] = []
  mined_transactions at (raw ∷ raws) = keep_mined (to_model raw at) (mined_transactions at raws)

  -- One round of the loop over the receipts; types.ReceiptStatusSuccessful is 1.
  unfoldable pub absorb_receipt : RawReceipt → MinedBlock → MinedBlock
  absorb_receipt raw mb = record mb {
    transactions =
        if raw.contract_address == 0
        then mb.transactions
        else set_created raw.tx_hash (hex raw.contract_address) mb.transactions;
    receipts = receipt_entry raw ∷ mb.receipts;
    token_transfers =
        if raw.status == 1
        then mb.token_transfers ++ decode_logs mb.block raw.logs
        else mb.token_transfers;
  }

  unfoldable pub absorb_receipts : List RawReceipt → MinedBlock → MinedBlock
  absorb_receipts [] mb = mb
  absorb_receipts (r ∷ receipts) mb = absorb_receipts receipts (absorb_receipt r mb)

  unfoldable pub mined_block : RawBlock → Option (List RawReceipt) → MinedBlock
  mined_block raw receipts = absorb_receipts (received receipts) (record {
    block = raw.header;
    transactions = mined_transactions raw.header.mined_at raw.transactions;
    receipts = [];
    token_transfers = [];
  })

  -- ingestBlock
  unfoldable pub ingest_block : AddressLib → ℕ → RawBlock → Option (List RawReceipt) → Db → DbResult
  ingest_block lib now raw receipts db = save_block lib now (mined_block raw receipts) db
