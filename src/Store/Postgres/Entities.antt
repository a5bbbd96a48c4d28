-- ===== src/Store/Postgres/Entities.antt =====
-- store/postgres.go: the known_entities table, its seeding, its lookups, and the risk of an address.
pub mod Builtin
pub mod Seeding
pub mod Lookup
pub mod Risk
mod Tests
use forensic_listener.Prelude.{
  ℕ, zero, suc, ◌+◌, max, String, Bool, true, false, ◌&&◌, ◌||◌, not, Option, none, some, List, [],
  ◌∷◌, str_eq, if◌then◌else◌, any, keep, map,
}
use forensic_listener.Models.{Account, ForensicFlag, Severity, low, medium, high}
use forensic_listener.Store.Address.{AddressLib, normalize_address}
use forensic_listener.Store.Postgres.Accounts.{has_account, violates_format, upsert_accounts}

-- models.KnownEntity, which is a row of known_entities.
pub record EntityRow : Type 0 where
  pub address : String
  pub name : String
  pub entity_type : String
  pub risk_level : String
  pub is_hub : Bool
  pub source : String
  pub updated_at : ℕ

pub record KnownEntitySeed : Type 0 where
  pub address : String
  pub name : String
  pub entity_type : String
  pub risk_level : String
  pub is_hub : Bool
  pub is_contract : Bool

-- The tables that labels are written to.
pub record LabelDb : Type 0 where
  pub accounts : List Account
  pub known_entities : List EntityRow

unfoldable pub find_entity : String → List EntityRow → Option EntityRow
find_entity a [] = none
find_entity a (r ∷ rs) = if str_eq r.address a then some r else find_entity a rs

-- INSERT INTO known_entities ... ON CONFLICT (address) DO UPDATE of every column
unfoldable pub put_entity : EntityRow → List EntityRow → List EntityRow
put_entity e [] = e ∷ []
put_entity e (r ∷ rs) = if str_eq r.address e.address then e ∷ rs else r ∷ put_entity e rs

-- (name, entity_type, risk_level, is_hub) IS NOT DISTINCT FROM EXCLUDED
abbrev pub bool_eq : Bool → Bool → Bool
bool_eq true b = b
bool_eq false b = not b

unfoldable pub same_label : EntityRow → EntityRow → Bool
same_label r e =
    str_eq r.name e.name
    && str_eq r.entity_type e.entity_type
    && str_eq r.risk_level e.risk_level
    && bool_eq r.is_hub e.is_hub

-- The WHERE of the seed's DO UPDATE: an unedited row whose label is another.
unfoldable pub is_stale : EntityRow → EntityRow → Bool
is_stale r e = str_eq r.source "seed" && not (same_label r e)

-- The seed's INSERT ... ON CONFLICT DO UPDATE ... WHERE, and RowsAffected.
unfoldable pub seed_entity : EntityRow → List EntityRow → List EntityRow × ℕ
seed_entity e [] = (e ∷ [], 1)
seed_entity e (r ∷ rs) =
    let rest = seed_entity e rs in
    if str_eq r.address e.address
    then if is_stale r e then (e ∷ rs, 1) else (r ∷ rs, 0)
    else (r ∷ rest.0, rest.1)

-- INSERT INTO accounts ... DO UPDATE SET is_contract = accounts.is_contract OR EXCLUDED.is_contract
unfoldable pub seed_account : ℕ → String → Bool → List Account → List Account
seed_account now a contract [] =
    record { address = a; is_contract = contract; first_seen = now; last_seen = now } ∷ []
seed_account now a contract (r ∷ rs) =
    if str_eq r.address a
    then record r { is_contract = r.is_contract || contract } ∷ rs
    else r ∷ seed_account now a contract rs

-- What the database does with the two statements of one seed.
pub data SeedOutcome : Type 0 where
  both account_fails entity_fails : SeedOutcome

pub data SeedResult : Type 0 where
  seeded : ℕ → LabelDb → SeedResult
  stopped : ℕ → LabelDb → SeedResult

abbrev pub db_after : SeedResult → LabelDb
db_after (seeded n db) = db
db_after (stopped n db) = db

-- The CHECK of risk_level.
abbrev pub is_risk_level : String → Bool
is_risk_level l = str_eq l "none" || str_eq l "low" || str_eq l "medium" || str_eq l "high"

-- The two statements of UpsertKnownEntity violate no constraint: accounts_address_format and the CHECK
-- and the foreign key of known_entities.
unfoldable pub accepts : EntityRow → List Account → Bool
accepts row accounts =
    has_account row.address accounts
    && not (violates_format (row.address ∷ []))
    && is_risk_level row.risk_level

module _ (lib : AddressLib) where
  -- What UpsertKnownEntity writes.
  unfoldable pub manual_row : ℕ → EntityRow → EntityRow
  manual_row now e = record e {
    address = normalize_address lib e.address;
    source = "manual";
    updated_at = now;
  }

  -- UpsertKnownEntity: the row that it returns, or the error of a constraint: the foreign key, which a
  -- blank address violates, or a CHECK. `seen` is time.Now(), `now` is NOW().
  unfoldable pub upsert_known_entity : ℕ → ℕ → EntityRow → LabelDb → Option (EntityRow × LabelDb)
  upsert_known_entity seen now e db =
      let row = manual_row now e in
      let accounts = upsert_accounts (row.address ∷ []) seen db.accounts in
      if accepts row accounts
      then some
          (row, record { accounts = accounts; known_entities = put_entity row db.known_entities })
      else none

  unfoldable pub seed_row : ℕ → KnownEntitySeed → EntityRow
  seed_row now s = record {
    address = normalize_address lib s.address;
    name = s.name;
    entity_type = s.entity_type;
    risk_level = s.risk_level;
    is_hub = s.is_hub;
    source = "seed";
    updated_at = now;
  }

  abbrev pub account_seeded : ℕ → KnownEntitySeed → LabelDb → LabelDb
  account_seeded now s db = record db {
    accounts = seed_account now (normalize_address lib s.address) s.is_contract db.accounts;
  }

  -- One seed whose statements both succeed.
  unfoldable pub entity_seeded : ℕ → KnownEntitySeed → LabelDb → LabelDb
  entity_seeded now s db = record (account_seeded now s db) {
    known_entities = (seed_entity (seed_row now s) db.known_entities).0;
  }

  -- The count after a seed whose statements both succeed.
  abbrev pub count_seeded : ℕ → ℕ → KnownEntitySeed → LabelDb → ℕ
  count_seeded now n s db = n + (seed_entity (seed_row now s) db.known_entities).1

  -- SeedKnownEntities over the seeds that are left, with the count so far. Each statement commits by
  -- itself, so an error keeps what was done before it.
  unfoldable pub seed_known_entities :
      ℕ → (String → SeedOutcome) → ℕ → List KnownEntitySeed → LabelDb → SeedResult
  seed_known_entities now outcome n [] db = seeded n db
  seed_known_entities now outcome n (s ∷ ss) db =
      let skip = seed_known_entities now outcome n ss db in
      let next =
        seed_known_entities now outcome (count_seeded now n s db) ss (entity_seeded now s db) in
      if str_eq (normalize_address lib s.address) "" then skip else elim (outcome s.address) [
        | both ↦ next
        | account_fails ↦ stopped n db
        | entity_fails ↦ stopped n (account_seeded now s db)
      ]

  -- The loop of normalizeAddressList; `seen` are the addresses that are there already.
  unfoldable pub normalize_from : List String → List String → List String
  normalize_from seen [] = []
  normalize_from seen (a ∷ more) =
      let address = normalize_address lib a in
      let skip = normalize_from seen more in
      let next = normalize_from (address ∷ seen) more in
      if str_eq address "" || any (str_eq address) seen then skip else address ∷ next

  -- normalizeAddressList
  unfoldable pub normalize_address_list : List String → List String
  normalize_address_list addresses = normalize_from [] addresses

  -- KnownEntitiesByAddresses: the rows of the map.
  unfoldable pub known_entities_by_addresses : List String → List EntityRow → List EntityRow
  known_entities_by_addresses addresses rows =
      let normalized = normalize_address_list addresses in
      keep (λ (r : EntityRow). any (str_eq r.address) normalized) rows

-- The ranks of the view address_risk, 0 to 3.
abbrev pub severity_rank : Severity → ℕ
severity_rank low = 1
severity_rank medium = 2
severity_rank high = 3

unfoldable pub level_rank : String → ℕ
level_rank l =
    if str_eq l "high" then 3 else if str_eq l "medium" then 2 else if str_eq l "low" then 1 else 0

abbrev pub level_name : ℕ → String
level_name zero = "none"
level_name (suc zero) = "low"
level_name (suc (suc zero)) = "medium"
level_name (suc (suc (suc n))) = "high"

-- COALESCE(MAX(CASE f.severity ...), 0) over the flags of the address
unfoldable pub flag_rank : String → List ForensicFlag → ℕ
flag_rank a [] = 0
flag_rank a (f ∷ fs) =
    max (if str_eq f.address a then severity_rank f.severity else 0) (flag_rank a fs)

-- CASE MAX(ke.risk_level) WHEN ... ELSE 0 END, of the row joined or of none
abbrev pub rank_of : Option EntityRow → ℕ
rank_of none = 0
rank_of (some r) = level_rank r.risk_level

unfoldable pub label_rank : String → List EntityRow → ℕ
label_rank a rows = rank_of (find_entity a rows)

-- GREATEST(flag_rank, label_rank)
unfoldable pub risk_rank : String → List ForensicFlag → List EntityRow → ℕ
risk_rank a flags rows = max (flag_rank a flags) (label_rank a rows)

unfoldable pub find_level : String → List (String × String) → Option String
find_level a [] = none
find_level a ((b, level) ∷ more) = if str_eq b a then some level else find_level a more

-- address_risk_level(addr) of an address that may have no account.
unfoldable pub address_risk_level :
    String → List Account → List ForensicFlag → List EntityRow → String
address_risk_level a accounts flags rows =
    if has_account a accounts then level_name (risk_rank a flags rows) else "none"

-- AddressRiskByAddresses: address_risk has a row for each account.
unfoldable pub address_risk_by_addresses :
    AddressLib
    → List String
    → List Account
    → List ForensicFlag
    → List EntityRow
    → List (String × String)
address_risk_by_addresses lib addresses accounts flags rows =
    let normalized = normalize_address_list lib addresses in
    map (λ (r : Account). (r.address, level_name (risk_rank r.address flags rows)))
      (keep (λ (r : Account). any (str_eq r.address) normalized) accounts)

-- defaultEntityType
unfoldable pub default_entity_type : Bool → String
default_entity_type is_contract = if is_contract then "contract" else "wallet"
