-- ===== src/Api/Handlers.antt =====
-- api/server.go: what the handlers let through to the stores, and how they answer.
pub mod Guards
mod Tests
use Prim.Native.Char.{Char, code}
use forensic_listener.Prelude.{
  ℕ, zero, suc, ◌+◌, String, Bool, true, false, ◌&&◌, ◌||◌, not, Option, none, some, List, [], ◌∷◌,
  str_eq, ltb, leb, ◌==◌, if◌then◌else◌, any,
}
use forensic_listener.Store.Address.{AddressLib, normalize_address, trim_space}
use forensic_listener.Api.Params.{parse_int_param, parse_limit}

pub data StoreError : Type 0 where
  not_found failure timeout : StoreError

-- What a call of a store returns.
pub data Loaded {ℓ} (A : Type ℓ) : Type ℓ where
  loaded : A → Loaded A
  error : StoreError → Loaded A

-- The answer: a value with status 200, or a message with its status.
pub data Answer {ℓ} (A : Type ℓ) : Type ℓ where
  json : A → Answer A
  message : ℕ → Answer A

module _ {ℓ} {A : Type ℓ} where
  -- writeStoreError
  unfoldable pub store_answer : Loaded A → Answer A
  store_answer (loaded a) = json a
  store_answer (error not_found) = message 404
  store_answer (error _) = message 500

  -- writeError
  unfoldable pub plain_answer : Loaded A → Answer A
  plain_answer (loaded a) = json a
  plain_answer (error _) = message 500

  -- writeGraphError
  unfoldable pub graph_answer : StoreError → Answer A
  graph_answer timeout = message 504
  graph_answer _ = message 500

unfoldable pub is_hex_digit : Char → Bool
is_hex_digit ch =
    let c = code ch in (leb 48 c && leb c 57) || (leb 65 c && leb c 70) || (leb 97 c && leb c 102)

-- Exactly n hex digits.
unfoldable pub hex_digits : ℕ → String → Bool
hex_digits zero String.[] = true
hex_digits zero (String.◌∷◌ ch s) = false
hex_digits (suc n) String.[] = false
hex_digits (suc n) (String.◌∷◌ ch s) = is_hex_digit ch && hex_digits n s

-- txHashPattern, ^0x[0-9a-fA-F]{64}$
unfoldable pub is_tx_hash : String → Bool
is_tx_hash String.[] = false
is_tx_hash (String.◌∷◌ a s) = code a == 48 && after_zero s
  where
    after_zero : String → Bool
    after_zero String.[] = false
    after_zero (String.◌∷◌ b t) = code b == 120 && hex_digits 64 t

-- requireHash
unfoldable pub require_hash : String → Option String
require_hash raw = if is_tx_hash raw then some raw else none

-- allowedEntityTypes and allowedRiskLevels
abbrev pub allowed_entity_types : List String
allowed_entity_types =
    "wallet" ∷ "exchange" ∷ "mixer" ∷ "bridge" ∷ "dex" ∷ "token" ∷ "stablecoin" ∷ "contract"
    ∷ "scam" ∷ "sanctioned" ∷ "other" ∷ []

abbrev pub allowed_risk_levels : List String
allowed_risk_levels = "none" ∷ "low" ∷ "medium" ∷ "high" ∷ []

-- len of a text: its bytes in UTF-8.
unfoldable pub byte_length : String → ℕ
byte_length String.[] = 0
byte_length (String.◌∷◌ ch s) =
    let c = code ch in
    (if ltb c 0x80 then 1 else if ltb c 0x800 then 2 else if ltb c 0x10000 then 3 else 4)
    + byte_length s

pub record Label : Type 0 where
  pub name : String
  pub entity_type : String
  pub risk_level : String
  pub is_hub : Bool

pub record KnownEntity : Type 0 where
  pub address : String
  pub label : Label

-- The switch of handleLabelEntity, of a body whose name is trimmed.
unfoldable pub is_valid_label : Label → Bool
is_valid_label b =
    not (str_eq b.name "" || ltb 80 (byte_length b.name))
    && any (str_eq b.entity_type) allowed_entity_types
    && any (str_eq b.risk_level) allowed_risk_levels

abbrev pub for_hash : {A : Type 0} → Option String → (String → Answer A) → Answer A
for_hash none f = message 400
for_hash (some h) f = f h

module _ (lib : AddressLib) where
  -- requireAddress
  unfoldable pub require_address : String → Option String
  require_address value =
      if lib.is_hex_address (trim_space value) then some (normalize_address lib value) else none

  module _ {A : Type 0} where
    -- handleAccount, handleAccountBehavior and handleContractDetail
    unfoldable pub handle_address : String → (String → Loaded A) → Answer A
    handle_address value load = for_hash (require_address value) (λ a. store_answer (load a))

    -- handleTransactionByHash
    unfoldable pub handle_transaction : String → (String → Loaded A) → Answer A
    handle_transaction raw load = for_hash (require_hash raw) (λ h. store_answer (load h))

    -- handleSimilarAccounts
    unfoldable pub handle_similar_accounts : String → String → (String → ℕ → Loaded A) → Answer A
    handle_similar_accounts value limit load =
        for_hash (require_address value) (λ a. store_answer (load a (parse_limit limit 8 25)))

    -- handleSimilarContracts
    unfoldable pub handle_similar_contracts : String → String → (String → ℕ → Loaded A) → Answer A
    handle_similar_contracts value limit load =
        for_hash (require_address value) (λ a. plain_answer (load a (parse_limit limit 8 25)))

    -- handleAddressVelocity
    unfoldable pub handle_velocity : String → String → (String → ℕ → Loaded A) → Answer A
    handle_velocity value hours load =
        for_hash (require_address value)
          (λ a. store_answer (load a (parse_int_param hours 72 1 168)))

    -- handleRecentTransactions and handleRecentFlags
    unfoldable pub handle_recent : String → (ℕ → Loaded A) → Answer A
    handle_recent limit load = plain_answer (load (parse_limit limit 50 200))

    abbrev trace_answer : Loaded (Option A) → Answer A
    trace_answer (error e) = graph_answer e
    trace_answer (loaded none) = message 404
    trace_answer (loaded (some t)) = json t

    -- handleAddressTrace; `connected` is requireGraph.
    unfoldable pub handle_trace :
        Bool → String → String → String → (String → String → ℕ → Loaded (Option A)) → Answer A
    handle_trace connected value to_value depth load = for_hash (require_address value) λ from.
        if not connected
        then message 503
        else for_hash (require_address to_value) λ to.
          if str_eq from to
          then message 400
          else trace_answer (load from to (parse_int_param depth 4 1 6))

  abbrev written_answer : KnownEntity → Bool → Option KnownEntity × ℕ
  written_answer entity true = (some entity, 200)
  written_answer entity false = (some entity, 500)

  abbrev label_answer : String → Option Label → Bool → Option KnownEntity × ℕ
  label_answer a none writes = (none, 400)
  label_answer a (some body) writes =
      let trimmed = record body { name = trim_space body.name } in
      if is_valid_label trimmed
      then written_answer (record { address = a; label = trimmed }) writes
      else (none, 400)

  abbrev for_label : Option String → Option Label → Bool → Option KnownEntity × ℕ
  for_label none body writes = (none, 400)
  for_label (some a) body writes = label_answer a body writes

  -- handleLabelEntity: what UpsertKnownEntity is given, and the status. The body is none if it is not
  -- JSON of that shape, and `writes` says whether the write succeeds.
  unfoldable pub handle_label : String → Option Label → Bool → Option KnownEntity × ℕ
  handle_label value body writes = for_label (require_address value) body writes
