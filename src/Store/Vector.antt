-- ===== src/Store/Vector.antt =====
-- store/vector.go: the table contract_vectors, its re-embedding, and the pages of contracts in
-- store/postgres.go. Of an embedding the model keeps whether it is there; Keccak is an argument.
pub mod Reembed
mod Tests
use forensic_listener.Prelude.{
  ℕ, zero, suc, ◌+◌, String, Bool, true, false, ◌&&◌, ◌||◌, not, Option, none, some, List, [], ◌∷◌,
  map, str_eq, ltb, ◌==◌, if◌then◌else◌, any, keep, length, take,
}
use forensic_listener.Models.{Account, ForensicFlag}
use forensic_listener.Store.Address.{AddressLib, normalize_address}
use forensic_listener.Store.Embedding.{opcode_skeleton}
use forensic_listener.Store.Postgres.Accounts.{find_account}
use forensic_listener.Store.Postgres.Transactions.{TxRow, or_empty}
use forensic_listener.Store.Postgres.Entities.{EntityRow, find_entity, address_risk_level}
use forensic_listener.Store.Postgres.Pages.{page, equals, name_of}
use forensic_listener.Store.Postgres.Counts.{count}

-- A row of contract_vectors.
pub record ContractRow : Type 0 where
  pub address : String
  pub bytecode : Option (List ℕ)
  pub is_embedded : Bool
  pub skeleton_hash : Option String
  pub flagged : Bool
  pub embedded_at : Option ℕ

-- COALESCE(bytecode, '\\x')
abbrev pub code_of : Option (List ℕ) → List ℕ
code_of none = []
code_of (some code) = code

abbrev pub is_nonempty : List ℕ → Bool
is_nonempty [] = false
is_nonempty (b ∷ bytes) = true

-- WHERE embedding IS NULL AND bytecode IS NOT NULL AND OCTET_LENGTH(bytecode) > 0
abbrev pub is_missing : ContractRow → Bool
is_missing r = not r.is_embedded && is_nonempty (code_of r.bytecode)

-- SkeletonHash
unfoldable pub skeleton_hash_of : (List ℕ → String) → List ℕ → String
skeleton_hash_of keccak [] = ""
skeleton_hash_of keccak (b ∷ bytes) = keccak (opcode_skeleton (b ∷ bytes))

-- DO UPDATE SET bytecode, embedding, skeleton_hash, embedded_at
abbrev pub with_code : (List ℕ → String) → ℕ → List ℕ → ContractRow → ContractRow
with_code keccak now code r = record r {
  bytecode = some code;
  is_embedded = true;
  skeleton_hash = some (skeleton_hash_of keccak code);
  embedded_at = some now;
}

-- INSERT INTO contract_vectors ... ON CONFLICT (address) DO UPDATE
unfoldable pub put_code :
    (List ℕ → String) → ℕ → String → List ℕ → List ContractRow → List ContractRow
put_code keccak now a code [] =
    with_code keccak now code (record {
      address = a;
      bytecode = none;
      is_embedded = false;
      skeleton_hash = none;
      flagged = false;
      embedded_at = none;
    })
    ∷ []
put_code keccak now a code (r ∷ rs) =
    if str_eq r.address a
    then with_code keccak now code r ∷ rs
    else r ∷ put_code keccak now a code rs

-- (SELECT COUNT(*) FROM contract_vectors c2 WHERE c2.skeleton_hash = cv.skeleton_hash), or 0
abbrev pub family_size : Option String → List ContractRow → ℕ
family_size none rows = 0
family_size (some h) rows = count (λ (r : ContractRow). equals h r.skeleton_hash) rows

unfoldable pub find_contract : String → List ContractRow → Option ContractRow
find_contract a [] = none
find_contract a (r ∷ rs) = if str_eq r.address a then some r else find_contract a rs

-- The columns that the pages of contracts share, of a row that is joined or missing.
pub record VectorColumns : Type 0 where
  pub flagged : Bool
  pub bytecode : List ℕ
  pub bytecode_size : ℕ
  pub skeleton_hash : String
  pub clone_family_size : ℕ
  pub embedded_at : Option ℕ

abbrev pub vector_columns : Option ContractRow → List ContractRow → VectorColumns
vector_columns none rows = record {
  flagged = false;
  bytecode = [];
  bytecode_size = 0;
  skeleton_hash = "";
  clone_family_size = 0;
  embedded_at = none;
}
vector_columns (some r) rows = record {
  flagged = r.flagged;
  bytecode = code_of r.bytecode;
  bytecode_size = length (code_of r.bytecode);
  skeleton_hash = or_empty r.skeleton_hash;
  clone_family_size = family_size r.skeleton_hash rows;
  embedded_at = r.embedded_at;
}

pub record ContractTables : Type 0 where
  pub accounts : List Account
  pub transactions : List TxRow
  pub flags : List ForensicFlag
  pub known_entities : List EntityRow
  pub contract_vectors : List ContractRow

-- models.ContractDetail and models.ContractSummary
pub record ContractDetail : Type 0 where
  pub address : String
  pub entity_name : String
  pub entity_type : String
  pub risk_level : String
  pub columns : VectorColumns
  pub transaction_count : ℕ
  pub first_seen : ℕ
  pub last_seen : ℕ

pub record ContractSummary : Type 0 where
  pub address : String
  pub entity_name : String
  pub risk_level : String
  pub columns : VectorColumns
  pub first_seen : ℕ
  pub last_seen : ℕ

abbrev pub contract_type : Option EntityRow → String
contract_type none = "contract"
contract_type (some e) = if str_eq e.entity_type "" then "contract" else e.entity_type

abbrev pub detail_of : ContractTables → Account → ContractDetail
detail_of db a =
    let entity = find_entity a.address db.known_entities in
    record {
      address = a.address;
      entity_name = name_of entity;
      entity_type = contract_type entity;
      risk_level = address_risk_level a.address db.accounts db.flags db.known_entities;
      columns = vector_columns (find_contract a.address db.contract_vectors) db.contract_vectors;
      transaction_count = count (λ (r : TxRow). equals a.address r.to_address) db.transactions;
      first_seen = a.first_seen;
      last_seen = a.last_seen;
    }

abbrev pub detail_if_contract : ContractTables → Option Account → Option ContractDetail
detail_if_contract db none = none
detail_if_contract db (some a) = if a.is_contract then some (detail_of db a) else none

abbrev pub summary_of : ContractTables → Account → ContractSummary
summary_of db a = record {
  address = a.address;
  entity_name = name_of (find_entity a.address db.known_entities);
  risk_level = address_risk_level a.address db.accounts db.flags db.known_entities;
  columns = vector_columns (find_contract a.address db.contract_vectors) db.contract_vectors;
  first_seen = a.first_seen;
  last_seen = a.last_seen;
}

-- RecentContracts
unfoldable pub recent_contracts : ℕ → ContractTables → List ContractSummary
recent_contracts limit db =
    map (summary_of db) (
      page (λ (a : Account). a.last_seen) limit (keep (λ (a : Account). a.is_contract) db.accounts))

module _ (lib : AddressLib) where
  -- HasEmbedding
  unfoldable pub has_embedding : String → List ContractRow → Bool
  has_embedding address rows =
      any (λ (r : ContractRow). str_eq r.address (normalize_address lib address) && r.is_embedded)
        rows

  -- ContractDetail; none is the NotFoundError.
  unfoldable pub contract_detail : String → ContractTables → Option ContractDetail
  contract_detail address db =
      detail_if_contract db (find_account (normalize_address lib address) db.accounts)

-- What ReembedMissing, or the loop over it, leaves; the Boolean says whether it returned without an
-- error.
pub record Reembedded : Type 0 where
  pub rows : List ContractRow
  pub number : ℕ
  pub ok : Bool

abbrev pub reembed_batch : ℕ
reembed_batch = 500

module _ (lib : AddressLib) (keccak : List ℕ → String) (now : ℕ) where
  -- UpsertContract, where the statement succeeds.
  unfoldable pub upsert_contract : String → List ℕ → List ContractRow → List ContractRow
  upsert_contract address code rows =
      let a = normalize_address lib address in
      if str_eq a "" || not (is_nonempty code) then rows else put_code keccak now a code rows

  -- The loop of ReembedMissing over the contracts that are left; `fails` says for which the upsert
  -- fails.
  unfoldable pub reembed_each :
      (String → Bool) → ℕ → List ContractRow → List ContractRow → Reembedded
  reembed_each fails n [] rows = record { rows = rows; number = n; ok = true }
  reembed_each fails n (p ∷ more) rows =
      let next = reembed_each fails n more (upsert_contract p.address (code_of p.bytecode) rows) in
      if fails p.address then record { rows = rows; number = 0; ok = false } else next

  -- ReembedMissing, where its query succeeds
  unfoldable pub reembed_missing : (String → Bool) → ℕ → List ContractRow → Reembedded
  reembed_missing fails batch rows =
      let todo = take batch (keep is_missing rows) in reembed_each fails (length todo) todo rows

  -- The loop of runMaintenance over the batches that are left.
  unfoldable pub reembed_batches : ℕ → (String → Bool) → ℕ → List ContractRow → List ContractRow
  reembed_batches zero fails batch rows = rows
  reembed_batches (suc left) fails batch rows =
      let r = reembed_missing fails batch rows in
      let next = reembed_batches left fails batch r.rows in
      if not r.ok || ltb r.number batch then r.rows else next
