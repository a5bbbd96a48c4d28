-- ===== src/Store/Postgres/Dossier.antt =====
-- store/postgres.go: the dossier of an account, its counterparties, and the most active addresses.
-- Rows that ORDER BY leaves in any order keep that of the table.
pub mod Groups
pub mod Balance
mod Tests
use forensic_listener.Prelude.{
  ℕ, zero, suc, ◌+◌, String, Bool, true, false, ◌&&◌, ◌||◌, Option, none, some, List, [], ◌∷◌, ◌++◌,
  map, str_eq, leb, ◌==◌, if◌then◌else◌, any, keep, length, take,
}
use forensic_listener.Models.{Transaction, Account, Block, ForensicFlag}
use forensic_listener.Store.Address.{AddressLib, normalize_address}
use forensic_listener.Store.Postgres.Accounts.{find_account}
use forensic_listener.Store.Postgres.Transactions.{TxRow, TransferRow}
use forensic_listener.Store.Postgres.Entities.{
  EntityRow, find_entity, flag_rank, label_rank, risk_rank, level_name, address_risk_level,
  default_entity_type,
}
use forensic_listener.Store.Postgres.Pages.{
  ListedTransfer, FlagRow, newest, limit_or, name_of, recent_transactions_for_address,
  recent_token_transfers_for_address, flags_for_address,
}
use forensic_listener.Store.Postgres.Counts.{count, is_high}
use forensic_listener.Store.Postgres.Network.{sent_by, received_by, count_distinct}

-- The tables that a dossier reads.
pub record Tables : Type 0 where
  pub accounts : List Account
  pub transactions : List TxRow
  pub token_transfers : List TransferRow
  pub blocks : List Block
  pub flags : List FlagRow
  pub known_entities : List EntityRow

unfoldable pub sum_all {ℓ} : {A : Type ℓ} → (A → ℕ) → List A → ℕ
sum_all f [] = 0
sum_all f (x ∷ xs) = f x + sum_all f xs

-- A row of `related`.
pub record Activity : Type 0 where
  pub counterparty : String
  pub sent : ℕ
  pub received : ℕ
  pub value : ℕ
  pub timestamp : ℕ

abbrev pub sent_activity : TxRow → Option String → List Activity → List Activity
sent_activity r none rest = rest
sent_activity r (some to) rest =
    record { counterparty = to; sent = 1; received = 0; value = r.value; timestamp = r.timestamp }
    ∷ rest

-- SELECT to_address, 1, 0, ... WHERE from_address = $1 AND to_address IS NOT NULL
unfoldable pub sent_activities : String → List TxRow → List Activity
sent_activities a [] = []
sent_activities a (r ∷ rs) =
    let rest = sent_activities a rs in
    if sent_by a r then sent_activity r r.to_address rest else rest

-- SELECT from_address, 0, 1, ... WHERE to_address = $1
unfoldable pub received_activities : String → List TxRow → List Activity
received_activities a [] = []
received_activities a (r ∷ rs) =
    let rest = received_activities a rs in
    if received_by a r
    then record {
      counterparty = r.from_address;
      sent = 0;
      received = 1;
      value = r.value;
      timestamp = r.timestamp;
    }
      ∷ rest
    else rest

-- UNION ALL: a transaction from the address to itself is in both.
abbrev pub related : String → List TxRow → List Activity
related a rows = sent_activities a rows ++ received_activities a rows

abbrev pub partner : Activity → String
partner x = x.counterparty

unfoldable pub distinct_names : List String → List String
distinct_names [] = []
distinct_names (a ∷ more) =
    let rest = distinct_names more in if any (str_eq a) more then rest else a ∷ rest

unfoldable pub latest_of : List Activity → ℕ
latest_of [] = 0
latest_of (x ∷ xs) = let rest = latest_of xs in if leb rest x.timestamp then x.timestamp else rest

-- models.CounterpartyActivity
pub record CounterpartyActivity : Type 0 where
  pub address : String
  pub entity_name : String
  pub entity_type : String
  pub risk_level : String
  pub is_contract : Bool
  pub sent_count : ℕ
  pub received_count : ℕ
  pub total_count : ℕ
  pub total_value : ℕ
  pub last_seen : ℕ

-- COALESCE(a.is_contract, FALSE)
abbrev pub contract_of : Option Account → Bool
contract_of none = false
contract_of (some a) = a.is_contract

abbrev pub type_of : Option EntityRow → String
type_of none = ""
type_of (some e) = e.entity_type

abbrev pub source_of : Option EntityRow → String
source_of none = ""
source_of (some e) = e.source

abbrev pub hub_of : Option EntityRow → Bool
hub_of none = false
hub_of (some e) = e.is_hub

-- if EntityType == "" { EntityType = defaultEntityType(IsContract) }
abbrev pub type_or_default : Bool → String → String
type_or_default is_contract type = if str_eq type "" then default_entity_type is_contract else type

abbrev pub with_partner : String → List Activity → List Activity
with_partner c xs = keep (λ (x : Activity). str_eq x.counterparty c) xs

abbrev pub raw_flags : List FlagRow → List ForensicFlag
raw_flags = map (λ (f : FlagRow). f.flag)

-- The group of one counterparty, with its labels.
unfoldable pub counterparty_row : Tables → List Activity → String → CounterpartyActivity
counterparty_row db xs c =
    let mine = with_partner c xs in
    let entity = find_entity c db.known_entities in
    let is_contract = contract_of (find_account c db.accounts) in
    record {
      address = c;
      entity_name = name_of entity;
      entity_type = type_or_default is_contract (type_of entity);
      risk_level = address_risk_level c db.accounts (raw_flags db.flags) db.known_entities;
      is_contract = is_contract;
      sent_count = sum_all (λ (x : Activity). x.sent) mine;
      received_count = sum_all (λ (x : Activity). x.received) mine;
      total_count = length mine;
      total_value = sum_all (λ (x : Activity). x.value) mine;
      last_seen = latest_of mine;
    }

-- ORDER BY total_count DESC, last_seen DESC
unfoldable pub most_frequent : List CounterpartyActivity → List CounterpartyActivity
most_frequent cs =
    newest (λ (c : CounterpartyActivity). c.total_count)
      (newest (λ (c : CounterpartyActivity). c.last_seen) cs)

-- models.AccountProfile, less the balance that the node adds.
pub record AccountProfile : Type 0 where
  pub address : String
  pub is_contract : Bool
  pub first_seen : ℕ
  pub last_seen : ℕ
  pub sent_count : ℕ
  pub received_count : ℕ
  pub total_count : ℕ
  pub total_sent : ℕ
  pub total_received : ℕ
  pub counterparty_count : ℕ
  pub token_transfer_count : ℕ
  pub flag_count : ℕ
  pub high_severity_flag_count : ℕ
  pub risk_level : String
  pub flag_risk : String
  pub label_risk : String
  pub entity_name : String
  pub entity_type : String
  pub label_source : String
  pub is_hub : Bool
  pub counterparties : List CounterpartyActivity
  pub recent_transactions : List Transaction
  pub recent_token_transfers : List ListedTransfer
  pub flags : List FlagRow

module _ (lib : AddressLib) (db : Tables) where
  -- AccountCounterparties
  unfoldable pub account_counterparties : String → ℕ → List CounterpartyActivity
  account_counterparties address limit =
      let xs = related (normalize_address lib address) db.transactions in
      take (limit_or 8 limit)
        (most_frequent (map (counterparty_row db xs) (distinct_names (map partner xs))))

  abbrev flags_of : String → List FlagRow
  flags_of a = keep (λ (f : FlagRow). str_eq f.flag.address a) db.flags

  unfoldable pub profile_of : String → Account → AccountProfile
  profile_of a account =
      let sent = keep (sent_by a) db.transactions in
      let received = keep (received_by a) db.transactions in
      let entity = find_entity a db.known_entities in
      record {
        address = account.address;
        is_contract = account.is_contract;
        first_seen = account.first_seen;
        last_seen = account.last_seen;
        sent_count = length sent;
        received_count = length received;
        total_count = length sent + length received;
        total_sent = sum_all (λ (r : TxRow). r.value) sent;
        total_received = sum_all (λ (r : TxRow). r.value) received;
        counterparty_count = count_distinct (map partner (related a db.transactions));
        token_transfer_count =
            count (λ (r : TransferRow). str_eq r.from_address a || str_eq r.to_address a)
              db.token_transfers;
        flag_count = length (flags_of a);
        high_severity_flag_count = count (λ (f : FlagRow). is_high f.flag.severity) (flags_of a);
        risk_level = level_name (risk_rank a (raw_flags db.flags) db.known_entities);
        flag_risk = level_name (flag_rank a (raw_flags db.flags));
        label_risk = level_name (label_rank a db.known_entities);
        entity_name = name_of entity;
        entity_type = type_or_default account.is_contract (type_of entity);
        label_source = source_of entity;
        is_hub = hub_of entity;
        counterparties = account_counterparties a 8;
        recent_transactions = recent_transactions_for_address lib a 8 db.transactions;
        recent_token_transfers =
            recent_token_transfers_for_address lib a 8 db.blocks db.known_entities
              db.token_transfers;
        flags = flags_for_address lib a 10 db.flags;
      }

  -- GetAccountProfile; none is the NotFoundError.
  unfoldable pub get_account_profile : String → Option AccountProfile
  get_account_profile address =
      let a = normalize_address lib address in
      elim (find_account a db.accounts) [ none ↦ none | some account ↦ some (profile_of a account) ]
