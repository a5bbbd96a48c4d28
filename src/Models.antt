-- ===== src/Models.antt =====
-- models/transaction.go: the records that ingestion, the stores and the API share.
-- Decimal texts (wei, gas prices, token amounts) are the numbers that they denote, and instants are
-- microseconds. 64-bit fields are kept as their bit patterns, below 2 ^ 64, on which the conversions
-- between uint64 and PostgreSQL's bigint are the identity.
use forensic_listener.Prelude.{ℕ, String, Option, List, Bool}

-- The lifecycle states in transactions.status.
pub data TxStatus : Type 0 where
  pending mined replaced dropped : TxStatus

pub record Transaction : Type 0 where
  pub hash : String
  pub from : String
  pub to : String
  pub value : ℕ
  pub gas : ℕ
  pub gas_price : ℕ
  pub max_priority_fee : Option ℕ
  pub tx_type : ℕ
  pub nonce : ℕ
  pub calldata : List ℕ
  pub timestamp : ℕ
  pub status : TxStatus
  pub block_number : Option ℕ
  pub mined_at : Option ℕ
  pub gas_used : Option ℕ
  pub effective_gas_price : Option ℕ
  pub receipt_status : Option ℕ
  pub created_contract : String

pub record Account : Type 0 where
  pub address : String
  pub is_contract : Bool
  pub first_seen : ℕ
  pub last_seen : ℕ

pub record Block : Type 0 where
  pub number : ℕ
  pub hash : String
  pub parent_hash : String
  pub mined_at : ℕ
  pub tx_count : ℕ
  pub gas_used : ℕ
  pub base_fee : Option ℕ

-- `none` is the empty text of a price that the node left out.
pub record Receipt : Type 0 where
  pub gas_used : ℕ
  pub effective_gas_price : Option ℕ
  pub status : ℕ

pub record TokenTransfer : Type 0 where
  pub tx_hash : String
  pub log_index : ℕ
  pub block_number : ℕ
  pub token : String
  pub from : String
  pub to : String
  pub amount : ℕ
  pub mined_at : ℕ

-- `receipts` is the map from transaction hashes.
pub record MinedBlock : Type 0 where
  pub block : Block
  pub transactions : List Transaction
  pub receipts : List (String × Receipt)
  pub token_transfers : List TokenTransfer

pub data Severity : Type 0 where
  low medium high : Severity

pub record ForensicFlag : Type 0 where
  pub tx_hash : String
  pub address : String
  pub flag_type : String
  pub severity : Severity
  pub detected_at : ℕ
