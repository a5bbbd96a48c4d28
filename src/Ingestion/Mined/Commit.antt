-- ===== src/Ingestion/Mined/Commit.antt =====
-- ingestion/blocks.go: what ingestBlock hands to SaveBlock, and when the write commits.
use forensic_listener.Prelude.{
  ℕ, String, ◌≡◌, ◌≢◌, refl, sym, ap, ◌∙◌, true, false, not, Option, none, some, List, [], ◌∷◌, map,
  arith, str_eq, any, All, All-append, Bool-cases, Option-cases, inl, inr, is_some, ◌==◌,
}
use mathlib.Core.Path.{subst}
use forensic_listener.Models.{Block, Transaction, TokenTransfer, MinedBlock}
use forensic_listener.Store.Address.{AddressLib}
use forensic_listener.Store.Postgres.Transactions.{has_duplicates, has_tx}
use forensic_listener.Store.Postgres.{
  Db, committed, aborted, foreign_key, stored_hash, hash_taken, block_addresses,
}
use forensic_listener.Store.Postgres.Writes.{tx_hashes, written, base}
use forensic_listener.Store.Postgres.Commit.{
  is_known, names_unknown, save_block_result, orphan_aborts, IsWellFormed,
}
use forensic_listener.Ingestion.Mined.Addresses.{
  SpellsHex, GivesHex, absorb-IsHex, mined_transactions-IsHexTx, hex-block_addresses,
  hex-created_contracts, hex-HasSenders, hex-HasParties, decode-IsHexTransfer, IsHexTransfer,
}
use forensic_listener.Ingestion.Mined.{
  EthLib, RawTx, RawLog, RawReceipt, RawBlock, sender_address, to_model, decode_transfer,
  decode_logs, mined_transactions, set_created, absorb_receipt, absorb_receipts, received,
  mined_block, ingest_block, receipt_entry,
}
use forensic_listener.Ingestion.Mined.Decode.{decode_only}

abbrev pub raw_hashes : List RawTx → List String
raw_hashes = map (λ (r : RawTx). r.hash)

-- The log is of one of these transactions.
abbrev pub IsLogOf : List String → RawLog → Type 0
IsLogOf hs lg = any (λ k. str_eq k lg.tx_hash) hs ≡ true

abbrev pub IsReceiptOf : List String → RawReceipt → Type 0
IsReceiptOf hs r = All (IsLogOf hs) r.logs

abbrev IsTransferOf : List String → TokenTransfer → Type 0
IsTransferOf hs t = any (λ k. str_eq k t.tx_hash) hs ≡ true

hashes-set_created :
    (h created : String) (txs : List Transaction)
    → tx_hashes (set_created h created txs) ≡ tx_hashes txs
unfolding set_created
hashes-set_created h created [] = refl
hashes-set_created h created (tx ∷ txs) = ground (arith, hashes-set_created h created txs)

module _ (eth : EthLib) where
  abbrev pub HasSender : RawTx → Type 0
  HasSender raw = is_some (sender_address eth raw) ≡ true

  hashes-mined_transactions :
      (at : ℕ) (raws : List RawTx)
      → All HasSender raws
      → tx_hashes (mined_transactions eth at raws) ≡ raw_hashes raws
  unfolding mined_transactions to_model
  hashes-mined_transactions at [] h = refl
  hashes-mined_transactions at (raw ∷ raws) h = elim (Option-cases (sender_address eth raw)) [
    | inl missing ↦ cc (rw missing at h.0)
    | inr (s, e) ↦ rw e (ap (λ t. raw.hash ∷ t) (hashes-mined_transactions at raws h.1))
  ]

  hashes-absorb_receipts :
      (rs : List RawReceipt) (mb : MinedBlock)
      → tx_hashes (absorb_receipts eth rs mb).transactions ≡ tx_hashes mb.transactions
  unfolding absorb_receipts absorb_receipt
  hashes-absorb_receipts [] mb = refl
  hashes-absorb_receipts (r ∷ rs) mb =
      hashes-absorb_receipts rs (absorb_receipt eth r mb)
      ∙ elim (Bool-cases (r.contract_address == 0)) [
        | inl e ↦ rw e
        | inr e ↦ rw e (hashes-set_created r.tx_hash (eth.hex r.contract_address) mb.transactions)
      ]

  block-absorb_receipts :
      (rs : List RawReceipt) (mb : MinedBlock) → (absorb_receipts eth rs mb).block ≡ mb.block
  unfolding absorb_receipts absorb_receipt
  block-absorb_receipts [] mb = refl
  block-absorb_receipts (r ∷ rs) mb = block-absorb_receipts rs (absorb_receipt eth r mb)

  decoded_of :
      (hs : List String) (mb : MinedBlock) (logs : List RawLog)
      → All (IsLogOf hs) logs
      → All (IsTransferOf hs) (decode_logs eth mb.block logs)
  unfolding decode_logs
  decoded_of hs mb [] h = tt
  decoded_of hs mb (lg ∷ logs) h = elim (Option-cases (decode_transfer eth lg mb.block)) [
    | inl e ↦ rw e (decoded_of hs mb logs h.1)
    | inr (t, e) ↦
        let (_, _, same, _, _, _) = decode_only eth mb.block lg t e in
        rw e (rw same h.0, decoded_of hs mb logs h.1)
  ]

  absorbed_of :
      (hs : List String) (rs : List RawReceipt) (mb : MinedBlock)
      → All (IsReceiptOf hs) rs
      → All (IsTransferOf hs) mb.token_transfers
      → All (IsTransferOf hs) (absorb_receipts eth rs mb).token_transfers
  unfolding absorb_receipts absorb_receipt
  absorbed_of hs [] mb h k = k
  absorbed_of hs (r ∷ rs) mb h k =
      absorbed_of hs rs (absorb_receipt eth r mb) h.1 (elim (Bool-cases (r.status == 1)) [
        | inl e ↦
            rw e (All-append (IsTransferOf hs) mb.token_transfers _ k (decoded_of hs mb r.logs h.0))
        | inr e ↦ rw e k
      ])

  known :
      (mb : MinedBlock) (db : Db) (ts : List TokenTransfer)
      → All (IsTransferOf (tx_hashes mb.transactions)) ts
      → any (λ (t : TokenTransfer). not (is_known mb db t.tx_hash)) ts ≡ false
  known mb db [] h = refl
  known mb db (t ∷ ts) h = rw (h.0, known mb db ts h.1) refl

  bare_block :
      (header : Block) (tx : RawTx) (r : RawReceipt) (lg : RawLog) (t : TokenTransfer)
      → sender_address eth tx ≡ none
      → r.status ≡ 1
      → r.logs ≡ lg ∷ []
      → decode_transfer eth lg header ≡ some t
      → absorb_receipts eth (r ∷ []) (record {
        block = header;
        transactions = mined_transactions eth header.mined_at (tx ∷ []);
        receipts = [];
        token_transfers = [];
      })
        ≡ record {
          block = header;
          transactions = [];
          receipts = receipt_entry r ∷ [];
          token_transfers = t ∷ [];
        }
  unfolding absorb_receipts absorb_receipt mined_transactions to_model decode_logs set_created
  bare_block header tx r lg t no_sender ok logs decoded =
      elim (Bool-cases (r.contract_address == 0)) [
        | inl e ↦ rw (e, no_sender, ok, logs, decoded) refl
        | inr e ↦ rw (e, no_sender, ok, logs, decoded) refl
      ]

  module _ (lib : AddressLib) (now : ℕ) (raw : RawBlock) (receipts : Option (List RawReceipt))
      (db : Db) where
    -- With go-ethereum's hex addresses (0x and 40 hex digits in their EIP-55 spelling), a new block is
    -- ingested, that is SaveBlock commits, if no block of another height has its hash, the senders of
    -- its transactions can all be recovered, no transaction is in it twice, and its receipts log for its
    -- own transactions. The ranges of the number columns are not part of the model.
    pub ingest_block_commits :
        SpellsHex lib
        → GivesHex eth lib
        → stored_hash raw.header.number db.blocks ≢ some raw.header.hash
        → hash_taken raw.header db.blocks ≡ false
        → All HasSender raw.transactions
        → has_duplicates (raw_hashes raw.transactions) ≡ false
        → All (IsReceiptOf (raw_hashes raw.transactions)) (received receipts)
        → (db' : Db) × (ingest_block eth lib now raw receipts db ≡ committed db')
    unfolding ingest_block mined_block block_addresses
    ingest_block_commits spells gives fresh free senders unique own =
        let start : MinedBlock = record {
          block = raw.header;
          transactions = mined_transactions eth raw.header.mined_at raw.transactions;
          receipts = [];
          token_transfers = [];
        } in
        let rs = received receipts in
        let mb = absorb_receipts eth rs start in
        let hs : tx_hashes mb.transactions ≡ raw_hashes raw.transactions =
          hashes-absorb_receipts rs start
          ∙ hashes-mined_transactions raw.header.mined_at raw.transactions senders in
        let same : mb.block ≡ raw.header = block-absorb_receipts rs start in
        let all_known : names_unknown mb db ≡ false = known mb db mb.token_transfers (
          subst (λ t. All (IsTransferOf t) mb.token_transfers) (sym hs)
            (absorbed_of (raw_hashes raw.transactions) rs start own tt)) in
        let (txs, transfers) =
          absorb-IsHex eth lib spells gives rs start
            (mined_transactions-IsHexTx eth lib spells gives raw.header.mined_at raw.transactions)
            tt in
        (
          written lib now mb (base lib mb (stored_hash mb.block.number db.blocks) db),
          save_block_result lib mb now db (rw same fresh) (rw same free)
                (
                  hex-block_addresses eth lib spells gives mb.transactions mb.token_transfers txs
                      transfers,
                  hex-created_contracts eth lib spells gives mb.transactions txs,
                )
                (hex-HasSenders eth lib spells gives mb.transactions txs)
                (hex-HasParties eth lib spells gives mb.token_transfers transfers) (rw hs unique)
              ∙ rw all_known refl,
        )

    -- Where the only transaction of a new block has no sender that can be recovered, and logged a
    -- transfer, the transaction is skipped but the transfer is not, so the write violates the foreign
    -- key and nothing of the block is stored. No block of another height has the hash of this one, and
    -- the addresses are go-ethereum's hex addresses (0x and 40 hex digits in their EIP-55 spelling).
    pub skipped_sender_aborts :
        (tx : RawTx) (r : RawReceipt) (lg : RawLog) (t : TokenTransfer)
        → SpellsHex lib
        → GivesHex eth lib
        → stored_hash raw.header.number db.blocks ≢ some raw.header.hash
        → hash_taken raw.header db.blocks ≡ false
        → raw.transactions ≡ tx ∷ []
        → receipts ≡ some (r ∷ [])
        → sender_address eth tx ≡ none
        → r.status ≡ 1
        → r.logs ≡ lg ∷ []
        → decode_transfer eth lg raw.header ≡ some t
        → has_tx t.tx_hash db.transactions ≡ false
        → ingest_block eth lib now raw receipts db ≡ aborted foreign_key
    unfolding ingest_block mined_block block_addresses
    skipped_sender_aborts tx r lg t spells gives fresh free one receipt no_sender ok logs decoded
          unknown =
        let mb : MinedBlock = record {
          block = raw.header;
          transactions = [];
          receipts = receipt_entry r ∷ [];
          token_transfers = t ∷ [];
        } in
        let transfer : All (IsHexTransfer eth lib spells gives) (t ∷ []) =
          (decode-IsHexTransfer eth lib spells gives raw.header lg t decoded, tt) in
        let formed : IsWellFormed lib mb = (
          hex-block_addresses eth lib spells gives [] (t ∷ []) tt transfer,
          hex-created_contracts eth lib spells gives [] tt,
        ) in
        rw (one, receipt, bare_block raw.header tx r lg t no_sender ok logs decoded)
          (orphan_aborts lib mb now db fresh free formed (unfold has_duplicates in refl)
            (rw unknown refl))
