-- ===== src/Ingestion/Analysis.antt =====
-- ingestion/enrichment.go, analyseContract: the bytecode of a contract, the first time it is seen.
pub mod Retry
mod Tests
use forensic_listener.Prelude.{
  ℕ, String, Bool, true, false, ◌&&◌, not, Option, none, some, List, [], ◌∷◌, map, str_eq,
  if◌then◌else◌, is_some,
}
use forensic_listener.Models.{Account, ForensicFlag}
use forensic_listener.Store.Address.{AddressLib, normalize_address}
use forensic_listener.Store.Postgres.Accounts.{upsert_one}
use forensic_listener.Store.Neo4j.{Graph, graph_contract}
use forensic_listener.Store.Vector.{ContractRow, upsert_contract, has_embedding}
use forensic_listener.Forensics.Anomaly.{
  ContractSimilarity, VectorRow, Findings, WriteFaults, evaluate_contract,
}

-- What the step reads and writes; without Neo4j there is no graph.
pub record Stores : Type 0 where
  pub accounts : List Account
  pub graph : Option Graph
  pub contract_vectors : List ContractRow
  pub flags : List ForensicFlag

-- What the calls return. `code` is CodeAt and `matches` is FindSimilarBytecode, none for an error.
pub record Calls : Type 0 where
  pub lookup_fails : Bool
  pub code : Option (List ℕ)
  pub account_fails : Bool
  pub graph_fails : Bool
  pub store_fails : Bool
  pub matches : Option (List ContractSimilarity)
  pub faults : WriteFaults

-- The columns of contract_vectors that the detector writes, and a table with them.
unfoldable pub columns : List ContractRow → List VectorRow
columns [] = []
columns (r ∷ rs) = record { address = r.address; flagged = r.flagged } ∷ columns rs

unfoldable pub put_columns : List VectorRow → List ContractRow → List ContractRow
put_columns [] rs = rs
put_columns (v ∷ vs) [] = []
put_columns (v ∷ vs) (r ∷ rs) = record r { flagged = v.flagged } ∷ put_columns vs rs

module _ (lib : AddressLib) (keccak : List ℕ → String) (now : ℕ) where
  -- UpsertAccount, of a contract
  unfoldable pub contract_account : String → List Account → List Account
  contract_account address rows =
      let a = normalize_address lib address in
      if str_eq a "" then rows else upsert_one now a true rows

  abbrev pub mark_graph : String → Option Graph → Option Graph
  mark_graph address none = none
  mark_graph address (some g) = some (graph_contract lib address g)

  -- EvaluateContract, on the tables.
  unfoldable pub detect_similar : Calls → String → String → Stores → Stores × Bool
  detect_similar calls tx_hash address s =
      let r =
        evaluate_contract lib now calls.faults tx_hash address calls.matches
          (record { vectors = columns s.contract_vectors; flags = s.flags }) in
      (
        record s {
          contract_vectors = put_columns r.0.vectors s.contract_vectors;
          flags = r.0.flags;
        },
        r.1,
      )

  -- The writes for the code, in their order; each may end the step.
  unfoldable pub store_code : Bool → Calls → String → String → List ℕ → Stores → Stores × Bool
  store_code detects calls tx_hash address code s =
      let with_account = record s { accounts = contract_account address s.accounts } in
      let with_node = record with_account { graph = mark_graph address s.graph } in
      let with_code = record with_node {
        contract_vectors = upsert_contract lib keccak now address code s.contract_vectors;
      } in
      if calls.account_fails
      then (s, false)
      else if is_some s.graph && calls.graph_fails
      then (with_account, false)
      else if calls.store_fails
      then (with_node, false)
      else if detects
      then detect_similar calls tx_hash address with_code
      else (with_code, true)

  abbrev pub on_code : Bool → Calls → String → String → Option (List ℕ) → Stores → Stores × Bool
  on_code detects calls tx_hash address none s = (s, false)
  on_code detects calls tx_hash address (some []) s = (s, true)
  on_code detects calls tx_hash address (some (b ∷ bytes)) s =
      store_code detects calls tx_hash address (b ∷ bytes) s

  -- analyseContract: the stores after it, and whether it returned without an error. The Booleans say
  -- whether there is a vector store, and a detector.
  unfoldable pub analyse_contract : Bool → Bool → Calls → String → String → Stores → Stores × Bool
  analyse_contract has_vector detects calls tx_hash address s =
      if not has_vector
      then (s, true)
      else if calls.lookup_fails
      then (s, false)
      else if has_embedding lib address s.contract_vectors
      then (s, true)
      else on_code detects calls tx_hash address calls.code s
