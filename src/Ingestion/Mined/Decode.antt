-- ===== src/Ingestion/Mined/Decode.antt =====
-- ingestion/blocks.go: decodeTransfer reads back what an ERC-20 contract logs, and nothing else.
use forensic_listener.Prelude.{
  ℕ, zero, suc, ◌+◌, ◌*◌, ◌/◌, ◌%◌, ◌^◌, ◌<◌, ◌≡◌, refl, ◌∙◌, String, true, ◌&&◌, some, List, [],
  ◌∷◌, ◌++◌, arith, ◌==◌, ==_iff, length, length-append, inl, inr, Bool-cases,
}
use native.Mathlib.Nat.{pow-suc}
use forensic_listener.Models.{Block, TokenTransfer}
use forensic_listener.Ingestion.Mined.{EthLib, RawLog, bytes_to_address, set_bytes, decode_transfer}

-- The last n bytes of a number, big-endian.
unfoldable pub be_bytes : ℕ → ℕ → List ℕ
be_bytes zero v = []
be_bytes (suc n) v = be_bytes n (v / 256) ++ v % 256 ∷ []

-- The log of `emit Transfer(from, to, amount)`: the two indexed addresses are padded to a topic.
abbrev pub transfer_log : EthLib → String → ℕ → ℕ → ℕ → ℕ → ℕ → RawLog
transfer_log eth h i token from to amount = record {
  tx_hash = h;
  log_index = i;
  address = token;
  topics = eth.transfer_topic ∷ from ∷ to ∷ [];
  data_bytes = be_bytes 32 amount;
}

length-be_bytes : (n v : ℕ) → length (be_bytes n v) ≡ n
unfolding be_bytes
length-be_bytes zero v = refl
length-be_bytes (suc n) v =
    omega (arith, length-append (be_bytes n (v / 256)) (v % 256 ∷ []), length-be_bytes n (v / 256))

set_bytes-append :
    (acc b : ℕ) (xs : List ℕ) → set_bytes acc (xs ++ b ∷ []) ≡ set_bytes acc xs * 256 + b
unfolding set_bytes
set_bytes-append acc b [] = refl
set_bytes-append acc b (x ∷ xs) = set_bytes-append (acc * 256 + x) b xs

set_bytes-be : (n v : ℕ) → v < 256 ^ n → set_bytes 0 (be_bytes n v) ≡ v
unfolding be_bytes set_bytes
set_bytes-be zero v h = omega arith
set_bytes-be (suc n) v h =
    set_bytes-append 0 (v % 256) (be_bytes n (v / 256))
    ∙ omega (arith, set_bytes-be n (v / 256) (omega (arith, pow-suc 256 n)))

module _ (eth : EthLib) (block : Block) where
  decode-fields :
      (lg : RawLog) (from to amount : ℕ)
      → lg.topics ≡ eth.transfer_topic ∷ from ∷ to ∷ []
      → length lg.data_bytes ≡ 32
      → set_bytes 0 lg.data_bytes ≡ amount
      → from < 2 ^ 160
      → to < 2 ^ 160
      → decode_transfer eth lg block
        ≡ some (record {
          tx_hash = lg.tx_hash;
          log_index = lg.log_index;
          block_number = block.number;
          token = eth.hex lg.address;
          from = eth.hex from;
          to = eth.hex to;
          amount = amount;
          mined_at = block.mined_at;
        })
  unfolding decode_transfer bytes_to_address
  decode-fields lg from to amount topics size value f t =
      let same : (eth.transfer_topic == eth.transfer_topic) ≡ true = (==_iff _ _).1 refl in
      let a : from % 2 ^ 160 ≡ from = omega arith in
      let b : to % 2 ^ 160 ≡ to = omega arith in rw topics (rw (same, size, value, a, b) refl)

  -- What an ERC-20 contract logs of a transfer is decoded to that transfer, in full.
  pub decode-transfer_log :
      (h : String) (i token from to amount : ℕ)
      → from < 2 ^ 160
      → to < 2 ^ 160
      → amount < 2 ^ 256
      → decode_transfer eth (transfer_log eth h i token from to amount) block
        ≡ some (record {
          tx_hash = h;
          log_index = i;
          block_number = block.number;
          token = eth.hex token;
          from = eth.hex from;
          to = eth.hex to;
          amount = amount;
          mined_at = block.mined_at;
        })
  decode-transfer_log h i token from to amount f t a =
      decode-fields (transfer_log eth h i token from to amount) from to amount refl
        (length-be_bytes 32 amount) (set_bytes-be 32 amount a) f t

  abbrev pub IsOf : RawLog → TokenTransfer → Type 0
  IsOf lg t =
      (length lg.topics ≡ 3)
      × (length lg.data_bytes ≡ 32)
      × (t.tx_hash ≡ lg.tx_hash)
      × (t.log_index ≡ lg.log_index)
      × (t.block_number ≡ block.number)
      × (t.mined_at ≡ block.mined_at)

  -- A log is decoded only if it has three topics, the first of them the event's, and 32 bytes of
  -- data, and then the transfer is of the log's transaction and of the block.
  pub decode_only :
      (lg : RawLog) (t : TokenTransfer) → decode_transfer eth lg block ≡ some t → IsOf lg t
  unfolding decode_transfer
  decode_only lg t e = of_topics lg.topics refl e
    where
      of_topics :
          (topics : List ℕ) → lg.topics ≡ topics → decode_transfer eth lg block ≡ some t → IsOf lg t
      of_topics [] q d = cc (rw q at d)
      of_topics (a ∷ []) q d = cc (rw q at d)
      of_topics (a ∷ b ∷ []) q d = cc (rw q at d)
      of_topics (event ∷ from ∷ to ∷ []) q d =
          elim (Bool-cases (event == eth.transfer_topic && length lg.data_bytes == 32)) [
            | inl pass ↦
                let h = rw (q, pass) at d in (rw q refl, ground (arith, pass), cc, cc, cc, cc)
            | inr out ↦ cc (rw (q, out) at d)
          ]
      of_topics (a ∷ b ∷ c ∷ d' ∷ more) q d = cc (rw q at d)
