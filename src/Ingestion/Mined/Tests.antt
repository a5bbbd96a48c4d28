-- ===== src/Ingestion/Mined/Tests.antt =====
-- ingestion/engine.go and ingestion/blocks.go: tests of the conversions, and the laws at one block.
use forensic_listener.Prelude.{
  Bool-cases, inl, inr, str_eq, ◌≡◌, ◌≢◌, refl, String, Option, some, none, [], ◌∷◌, arith, ltb,
  false, true, if◌then◌else◌,
}
use forensic_listener.Models.{TokenTransfer}
use forensic_listener.Store.Fixtures.{lib, is_hex, empty_db, header}
use forensic_listener.Store.Postgres.{Db, committed, aborted, foreign_key, stored_hash, hash_taken}
use forensic_listener.Store.Postgres.Transactions.{has_tx, has_duplicates}
use forensic_listener.Ingestion.Mined.{
  EthLib, Signer, homestead, latest_for, RawTx, RawLog, RawReceipt, RawBlock, choose_signer,
  sender_address, decode_transfer, ingest_block,
}
use forensic_listener.Ingestion.Mined.Decode.{transfer_log, decode-transfer_log}
use forensic_listener.Store.Postgres.Accounts.{is_account_format, hex_digits, is_hex_digit}
use forensic_listener.Ingestion.Mined.Addresses.{SpellsHex, GivesHex}
use forensic_listener.Ingestion.Mined.Commit.{ingest_block_commits, skipped_sender_aborts}

abbrev recovered : Signer → RawTx → Option String
recovered homestead raw = some "0xAAAAAAAAAAAAAAAAAAAAAAAAAAAAAAAAAAAAAAAA"
recovered (latest_for id) raw =
    if ltb id 2 then some "0xBBBBBBBBBBBBBBBBBBBBBBBBBBBBBBBBBBBBBBBB" else none

abbrev eth : EthLib
eth = record {
  hex = λ a.
      if ltb a 10
      then "0xAAAAAAAAAAAAAAAAAAAAAAAAAAAAAAAAAAAAAAAA"
      else "0xBBBBBBBBBBBBBBBBBBBBBBBBBBBBBBBBBBBBBBBB";
  recover = recovered;
  transfer_topic = 99;
}

abbrev call : RawTx
call = record {
  hash = "t";
  to = some 7;
  value = none;
  gas = 21000;
  gas_price = some 5;
  tip_cap = some 2;
  tx_type = 0;
  nonce = 3;
  calldata = [];
  is_protected = true;
  chain_id = some 1;
}

-- A chain whose signer fails.
abbrev unsigned : RawTx
unsigned = record call { chain_id = some 5 }

abbrev event : RawLog
event = transfer_log eth "t" 0 12 7 13 1000

abbrev receipt : RawReceipt
receipt = record {
  tx_hash = "t";
  gas_used = 21000;
  status = 1;
  effective_gas_price = some 5;
  contract_address = 0;
  logs = event ∷ [];
}

abbrev raw : RawTx → RawBlock
raw tx = record { header = header "40-1"; transactions = tx ∷ [] }

abbrev event_read : TokenTransfer
event_read = record {
  tx_hash = "t";
  log_index = 0;
  block_number = 40;
  token = "0xBBBBBBBBBBBBBBBBBBBBBBBBBBBBBBBBBBBBBBBB";
  from = "0xAAAAAAAAAAAAAAAAAAAAAAAAAAAAAAAAAAAAAAAA";
  to = "0xBBBBBBBBBBBBBBBBBBBBBBBBBBBBBBBBBBBBBBBB";
  amount = 1000;
  mined_at = 2000;
}

signer_of_old :
    choose_signer (record call { is_protected = false; chain_id = none }) ≡ some homestead
unfolding choose_signer
signer_of_old = refl

no_signer : choose_signer (record call { chain_id = some 0 }) ≡ none
unfolding choose_signer
no_signer = refl

fresh : stored_hash 40 [] ≢ some "40-1"
unfolding stored_hash
fresh e = cc

decode-transfer_log_example : decode_transfer eth event (header "40-1") ≡ some event_read
decode-transfer_log_example =
    decode-transfer_log eth (header "40-1") "t" 0 12 7 13 1000 (omega arith) (omega arith)
      (omega arith)

spells : SpellsHex lib
unfolding is_account_format hex_digits is_hex_digit
spells s h = elim (Bool-cases (str_eq s "0xBBBBBBBBBBBBBBBBBBBBBBBBBBBBBBBBBBBBBBBB")) [
  | inl e ↦ rw e refl
  | inr e ↦ rw e refl
]

gives : GivesHex eth lib
gives = (λ a. elim (Bool-cases (ltb a 10)) [ inl e ↦ rw e refl | inr e ↦ rw e refl ], sender_of)
  where
    sender_of :
        (signer : Signer) (raw : RawTx) (a : String)
        → recovered signer raw ≡ some a
        → is_hex a ≡ true
    sender_of homestead raw a e =
        let q : "0xAAAAAAAAAAAAAAAAAAAAAAAAAAAAAAAAAAAAAAAA" ≡ a = cc in rw (← q) refl
    sender_of (latest_for id) raw a e = elim (Bool-cases (ltb id 2)) [
      | inl low ↦
          let k : some "0xBBBBBBBBBBBBBBBBBBBBBBBBBBBBBBBBBBBBBBBB" ≡ some a = rw low at e in
          let q : "0xBBBBBBBBBBBBBBBBBBBBBBBBBBBBBBBBBBBBBBBB" ≡ a = cc in rw (← q) refl
      | inr high ↦ absurd (let k : none ≡ some a = rw high at e in cc)
    ]

ingest_block_commits_example :
    (db : Db) × (ingest_block eth lib 2100 (raw call) (some (receipt ∷ [])) empty_db ≡ committed db)
ingest_block_commits_example =
    ingest_block_commits eth lib 2100 (raw call) (some (receipt ∷ [])) empty_db spells gives fresh
      (unfold hash_taken in refl) (unfold sender_address choose_signer in refl, tt)
      (unfold has_duplicates in refl) ((refl, tt), tt)

skipped_sender_aborts_example :
    ingest_block eth lib 2100 (raw unsigned) (some (receipt ∷ [])) empty_db ≡ aborted foreign_key
skipped_sender_aborts_example =
    skipped_sender_aborts eth lib 2100 (raw unsigned) (some (receipt ∷ [])) empty_db unsigned
      receipt event event_read spells gives fresh (unfold hash_taken in refl) refl refl
      (unfold sender_address choose_signer in refl) refl refl decode-transfer_log_example
      (unfold has_tx in refl)
