-- ===== src/Ingestion/Mined/Addresses.antt =====
-- ingestion/blocks.go: the addresses that ingestBlock hands to SaveBlock are hex addresses.
use forensic_listener.Prelude.{
  ℕ, String, ◌≡◌, refl, sym, ap, ◌∙◌, true, false, ◌||◌, ◌&&◌, not, Option, none, some, List, [],
  ◌∷◌, ◌++◌, arith, str_eq, eq_iff, any, All, All-append, Bool-cases, Option-cases, inl, inr, ◌==◌,
  length,
}
use forensic_listener.Models.{Transaction, TokenTransfer, MinedBlock, Block}
use forensic_listener.Store.Address.{
  AddressLib, normalize_address, trim_space, trim_left, trim_right,
}
use forensic_listener.Store.Address.Canonical.{trim_space-NoSpace}
use forensic_listener.Store.Postgres.Accounts.Seen.{format-text}
use forensic_listener.Store.Postgres.Accounts.{is_account_format, violates_format}
use forensic_listener.Store.Postgres.{tx_addresses, transfer_addresses, created_contracts}
use forensic_listener.Store.Postgres.References.{HasSenders, HasParties}
use forensic_listener.Ingestion.Mined.{
  EthLib, Signer, RawTx, RawLog, RawReceipt, sender_address, choose_signer, to_model,
  decode_transfer, decode_logs, mined_transactions, set_created, absorb_receipt, absorb_receipts,
  hex_or_empty, bytes_to_address,
}

-- Documented of go-ethereum: the EIP-55 spelling of a hex address is 0x and 40 hex digits.
abbrev pub SpellsHex : AddressLib → Type 0
SpellsHex lib =
    (s : String) → lib.is_hex_address s ≡ true → is_account_format (lib.checksum s) ≡ true

-- Documented of go-ethereum: the text of an address and a recovered sender are hex addresses.
abbrev pub GivesHex : EthLib → AddressLib → Type 0
GivesHex eth lib =
    ((a : ℕ) → lib.is_hex_address (eth.hex a) ≡ true)
    × ((signer : Signer) (raw : RawTx) (a : String)
        → eth.recover signer raw ≡ some a
        → lib.is_hex_address a ≡ true)

module _ (eth : EthLib) (lib : AddressLib) (spells : SpellsHex lib) (gives : GivesHex eth lib) where
  hex-format :
      (s : String)
      → lib.is_hex_address s ≡ true
      → is_account_format (normalize_address lib s) ≡ true
  unfolding normalize_address
  hex-format s h = elim (Bool-cases (str_eq s "")) [
    | inl blank ↦
        let q : lib.is_hex_address "" ≡ true =
          ap lib.is_hex_address (sym ((eq_iff s "").0 blank)) ∙ h in
        absurd (let r = lib.empty_not_hex in cc)
    | inr text ↦ rw (trim_space-NoSpace s (lib.hex-NoSpace s h), text, h) (spells s h)
  ]

  -- Blank, or a hex address.
  abbrev pub IsText : String → Type 0
  IsText s = (str_eq s "" || lib.is_hex_address s) ≡ true

  blank_normalized : normalize_address lib "" ≡ ""
  unfolding normalize_address trim_space trim_left trim_right
  blank_normalized = refl

  text-format :
      (s : String)
      → IsText s
      → (not (str_eq (normalize_address lib s) "")
          && not (is_account_format (normalize_address lib s)))
        ≡ false
  text-format s h = elim (Bool-cases (str_eq s "")) [
    | inl blank ↦
        let q : normalize_address lib s ≡ "" =
          ap (normalize_address lib) ((eq_iff s "").0 blank) ∙ blank_normalized in
        rw q refl
    | inr text ↦ let k = hex-format s (rw text at h) in rw k (ground arith)
  ]

  abbrev pub IsHexTx : Transaction → Type 0
  IsHexTx tx = (lib.is_hex_address tx.from ≡ true) × IsText tx.to × IsText tx.created_contract

  abbrev pub IsHexTransfer : TokenTransfer → Type 0
  IsHexTransfer t =
      (lib.is_hex_address t.token ≡ true)
      × (lib.is_hex_address t.from ≡ true)
      × (lib.is_hex_address t.to ≡ true)

  hex_or_empty-IsText : (o : Option ℕ) → IsText (hex_or_empty eth o)
  hex_or_empty-IsText none = refl
  hex_or_empty-IsText (some a) = rw (gives.0 a) (ground arith)

  sender-hex :
      (raw : RawTx) (a : String) → sender_address eth raw ≡ some a → lib.is_hex_address a ≡ true
  unfolding sender_address
  sender-hex raw a e = elim (Option-cases (choose_signer raw)) [
    | inl f ↦ cc (rw f at e)
    | inr (signer, f) ↦ gives.1 signer raw a (rw f at e)
  ]

  pub mined_transactions-IsHexTx :
      (at : ℕ) (raws : List RawTx) → All IsHexTx (mined_transactions eth at raws)
  unfolding mined_transactions to_model
  mined_transactions-IsHexTx at [] = tt
  mined_transactions-IsHexTx at (raw ∷ raws) = elim (Option-cases (sender_address eth raw)) [
    | inl e ↦ rw e (mined_transactions-IsHexTx at raws)
    | inr (a, e) ↦
        rw e (
          (sender-hex raw a e, hex_or_empty-IsText raw.to, refl),
          mined_transactions-IsHexTx at raws,
        )
  ]

  set_created-IsHexTx :
      (h created : String) (txs : List Transaction)
      → lib.is_hex_address created ≡ true
      → All IsHexTx txs
      → All IsHexTx (set_created h created txs)
  unfolding set_created
  set_created-IsHexTx h created [] c k = tt
  set_created-IsHexTx h created (tx ∷ txs) c k =
      elim (Bool-cases (not (str_eq tx.hash h) || any (λ (t : Transaction). str_eq t.hash h) txs)) [
        | inl e ↦ rw e (k.0, set_created-IsHexTx h created txs c k.1)
        | inr e ↦ elim (Bool-cases (str_eq tx.to "")) [
          | inl f ↦ rw (e, f) ((k.0.0, k.0.1, rw c (ground arith)), k.1)
          | inr f ↦ rw (e, f) k
        ]
      ]

  pub decode-IsHexTransfer :
      (block : Block) (lg : RawLog) (t : TokenTransfer)
      → decode_transfer eth lg block ≡ some t
      → IsHexTransfer t
  unfolding decode_transfer
  decode-IsHexTransfer block lg t e = of_topics lg.topics refl e
    where
      of_topics :
          (topics : List ℕ)
          → lg.topics ≡ topics
          → decode_transfer eth lg block ≡ some t
          → IsHexTransfer t
      of_topics [] q d = cc (rw q at d)
      of_topics (a ∷ []) q d = cc (rw q at d)
      of_topics (a ∷ b ∷ []) q d = cc (rw q at d)
      of_topics (event ∷ from ∷ to ∷ []) q d =
          elim (Bool-cases (event == eth.transfer_topic && length lg.data_bytes == 32)) [
            | inl pass ↦
                let h = rw (q, pass) at d in
                let a : t.token ≡ eth.hex lg.address = cc in
                let b : t.from ≡ eth.hex (bytes_to_address from) = cc in
                let c : t.to ≡ eth.hex (bytes_to_address to) = cc in
                (rw a (gives.0 _), rw b (gives.0 _), rw c (gives.0 _))
            | inr out ↦ cc (rw (q, out) at d)
          ]
      of_topics (a ∷ b ∷ c ∷ d' ∷ more) q d = cc (rw q at d)

  decoded-IsHexTransfer :
      (block : Block) (logs : List RawLog) → All IsHexTransfer (decode_logs eth block logs)
  unfolding decode_logs
  decoded-IsHexTransfer block [] = tt
  decoded-IsHexTransfer block (lg ∷ logs) = elim (Option-cases (decode_transfer eth lg block)) [
    | inl e ↦ rw e (decoded-IsHexTransfer block logs)
    | inr (t, e) ↦ rw e (decode-IsHexTransfer block lg t e, decoded-IsHexTransfer block logs)
  ]

  pub absorb-IsHex :
      (rs : List RawReceipt) (mb : MinedBlock)
      → All IsHexTx mb.transactions
      → All IsHexTransfer mb.token_transfers
      → let after = absorb_receipts eth rs mb in
        All IsHexTx after.transactions × All IsHexTransfer after.token_transfers
  unfolding absorb_receipts absorb_receipt
  absorb-IsHex [] mb k l = (k, l)
  absorb-IsHex (r ∷ rs) mb k l =
      absorb-IsHex rs (absorb_receipt eth r mb)
        (elim (Bool-cases (r.contract_address == 0)) [
          | inl e ↦ rw e k
          | inr e ↦ rw e (
              set_created-IsHexTx r.tx_hash (eth.hex r.contract_address) mb.transactions
                (gives.0 r.contract_address) k)
        ])
        (elim (Bool-cases (r.status == 1)) [
          | inl e ↦ rw e (
              All-append IsHexTransfer mb.token_transfers _ l
                (decoded-IsHexTransfer mb.block r.logs))
          | inr e ↦ rw e l
        ])

  pub hex-HasSenders : (txs : List Transaction) → All IsHexTx txs → HasSenders lib txs
  hex-HasSenders [] h = tt
  hex-HasSenders (tx ∷ txs) h = (format-text _ (hex-format tx.from h.0.0), hex-HasSenders txs h.1)

  pub hex-HasParties : (ts : List TokenTransfer) → All IsHexTransfer ts → HasParties lib ts
  hex-HasParties [] h = tt
  hex-HasParties (t ∷ ts) ((a, b, c), h) = (
    (
      format-text _ (hex-format t.token a),
      format-text _ (hex-format t.from b),
      format-text _ (hex-format t.to c),
    ),
    hex-HasParties ts h,
  )

  hex-transfers :
      (ts : List TokenTransfer)
      → All IsHexTransfer ts
      → violates_format (transfer_addresses lib ts) ≡ false
  unfolding violates_format transfer_addresses
  hex-transfers [] h = refl
  hex-transfers (t ∷ ts) ((a, b, c), h) =
      rw (hex-format t.token a, hex-format t.from b, hex-format t.to c)
        (ground (arith, hex-transfers ts h))

  pub hex-block_addresses :
      (txs : List Transaction) (ts : List TokenTransfer)
      → All IsHexTx txs
      → All IsHexTransfer ts
      → violates_format (tx_addresses lib txs ++ transfer_addresses lib ts) ≡ false
  unfolding violates_format tx_addresses
  hex-block_addresses [] ts h k = unfold violates_format in hex-transfers ts k
  hex-block_addresses (tx ∷ txs) ts h k =
      ground
        (arith, hex-format tx.from h.0.0, text-format tx.to h.0.1, hex-block_addresses txs ts h.1 k)

  pub hex-created_contracts :
      (txs : List Transaction)
      → All IsHexTx txs
      → violates_format (created_contracts lib txs) ≡ false
  unfolding violates_format created_contracts
  hex-created_contracts [] h = refl
  hex-created_contracts (tx ∷ txs) h =
      ground (arith, text-format tx.created_contract h.0.2, hex-created_contracts txs h.1)
