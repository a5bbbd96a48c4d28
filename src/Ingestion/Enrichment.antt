-- ===== src/Ingestion/Enrichment.antt =====
-- ingestion/enrichment.go: the worker that projects one committed transaction and runs the detectors.
pub mod Projection
mod Tests
use forensic_listener.Prelude.{
  ℕ, String, Bool, true, false, ◌&&◌, ◌||◌, not, Option, none, some, List, [], ◌∷◌, ◌++◌, map,
  str_eq, ◌==◌, if◌then◌else◌, is_some,
}
use forensic_listener.Models.{Transaction, TokenTransfer}
use forensic_listener.Store.Address.{AddressLib}
use forensic_listener.Store.Neo4j.{Graph, Kind, eth, token, graph_transaction, graph_transfers}
use forensic_listener.Store.Postgres.Queue.{Job, mark_done, mark_failed}

abbrev pub max_attempts : ℕ
max_attempts = 6

-- Which of the calls fail. `transfers` is what PostgreSQL returns, none for an error.
pub record Outcomes : Type 0 where
  pub sent_fails : Bool
  pub transfers : Option (List TokenTransfer)
  pub tokens_fail : Bool
  pub analysis_fails : Bool

pub data Failure : Type 0 where
  graph_failure query_failure token_failure analysis_failure : Failure

-- One call of detectLoop.
pub record Check : Type 0 where
  pub tx_hash : String
  pub from : String
  pub to : String
  pub at : ℕ
  pub kind : Kind

pub record Progress : Type 0 where
  pub graph : Option Graph
  pub graph_ready : Bool
  pub errors : List Failure

pub record Enriched : Type 0 where
  pub graph : Option Graph
  pub errors : List Failure
  pub analysed : String
  pub checks : List Check

-- contractTarget
unfoldable pub contract_target : Transaction → String
contract_target tx =
    if not (str_eq tx.created_contract "")
    then tx.created_contract
    else if not (str_eq tx.to "") && has_data tx.calldata
    then tx.to
    else ""
  where
    has_data : List ℕ → Bool
    has_data [] = false
    has_data (b ∷ bytes) = true

abbrev pub found_transfers : Option (List TokenTransfer) → List TokenTransfer
found_transfers none = []
found_transfers (some ts) = ts

abbrev pub is_empty : {A : Type 0} → List A → Bool
is_empty [] = true
is_empty (x ∷ xs) = false

abbrev pub query_error : Option (List TokenTransfer) → List Failure
query_error none = query_failure ∷ []
query_error (some _) = []

unfoldable pub transfer_checks : List TokenTransfer → List Check
transfer_checks [] = []
transfer_checks (t ∷ ts) =
    record { tx_hash = t.tx_hash; from = t.from; to = t.to; at = t.mined_at; kind = token }
    ∷ transfer_checks ts

-- The detectors run on a plain transfer of value, and on every token transfer.
unfoldable pub all_checks : Transaction → List TokenTransfer → List Check
all_checks tx ts =
    (if not (str_eq tx.to "") && is_empty tx.calldata && not (tx.value == 0)
      then record { tx_hash = tx.hash; from = tx.from; to = tx.to; at = tx.timestamp; kind = eth }
        ∷ []
      else [])
    ++ transfer_checks ts

module _ (lib : AddressLib) where
  -- The transaction's own edge.
  unfoldable pub project_sent : Transaction → Bool → Option Graph → Progress
  project_sent tx fails none = record { graph = none; graph_ready = true; errors = [] }
  project_sent tx fails (some g) =
      if str_eq tx.to ""
      then record { graph = some g; graph_ready = false; errors = [] }
      else if fails
      then record { graph = some g; graph_ready = false; errors = graph_failure ∷ [] }
      else record { graph = some (graph_transaction lib tx g); graph_ready = true; errors = [] }

  -- The edges of its token transfers.
  unfoldable pub project_tokens : Transaction → Bool → List TokenTransfer → Progress → Progress
  project_tokens tx fails ts p = step p.graph (is_empty ts)
    where
      step : Option Graph → Bool → Progress
      step none nothing = p
      step (some g) true = p
      step (some g) false =
          if fails
          then record p { graph_ready = false; errors = p.errors ++ token_failure ∷ [] }
          else record p {
            graph = some (graph_transfers lib ts g);
            graph_ready = if str_eq tx.to "" then true else p.graph_ready;
          }

  unfoldable pub after_transfers : Transaction → Outcomes → Option Graph → Progress
  after_transfers tx o g =
      let sent = project_sent tx o.sent_fails g in
      project_tokens tx o.tokens_fail (found_transfers o.transfers)
        (record sent { errors = sent.errors ++ query_error o.transfers })

  -- enrich; `detects` says whether there is a circular detector.
  unfoldable pub enrich : Bool → Transaction → Outcomes → Option Graph → Enriched
  enrich detects tx o g =
      let p = after_transfers tx o g in
      let target = contract_target tx in
      record {
        graph = p.graph;
        errors =
            p.errors
            ++ (if not (str_eq target "") && o.analysis_fails then analysis_failure ∷ [] else []);
        analysed = target;
        checks =
            if detects && p.graph_ready then all_checks tx (found_transfers o.transfers) else [];
      }

-- The report of enrichmentWorker on a job that it enriched: nothing is written once the context has
-- ended.
unfoldable pub report : ℕ → Bool → String → String → List Failure → List Job → List Job
report now alive h message [] jobs = if alive then mark_done now h jobs else jobs
report now alive h message (e ∷ errors) jobs =
    if alive then mark_failed now h message max_attempts jobs else jobs
