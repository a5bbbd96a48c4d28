-- ===== src/Ingestion/Enrichment/Tests.antt =====
-- ingestion/enrichment.go: tests of the worker, and its laws at one transaction.
use forensic_listener.Prelude.{
  ◌≡◌, refl, true, false, List, some, [], ◌∷◌, length, All, ◌&&◌, str_eq,
}
use forensic_listener.Store.Fixtures.{lib, payment, transfer}
use forensic_listener.Store.Neo4j.{Graph}
use forensic_listener.Store.Postgres.Queue.{Job, new_job, lease, is_processing}
use forensic_listener.Ingestion.Enrichment.{
  List, Outcomes, graph_failure, contract_target, project_sent, project_tokens, after_transfers,
  all_checks, transfer_checks, enrich, report,
}
use forensic_listener.Ingestion.Enrichment.Projection.{report_settles}

abbrev graph : Graph
graph = record { nodes = []; edges = [] }

abbrev all_well : Outcomes
all_well = record {
  sent_fails = false;
  transfers = some (transfer ∷ []);
  tokens_fail = false;
  analysis_fails = false;
}

abbrev no_graph_write : Outcomes
no_graph_write = record all_well { sent_fails = true }

call_target :
    contract_target (record payment { calldata = 1 ∷ [] })
    ≡ "0xBBBBBBBBBBBBBBBBBBBBBBBBBBBBBBBBBBBBBBBB"
unfolding contract_target
call_target = refl

two_checks : length (enrich lib true payment all_well (some graph)).checks ≡ 2
unfolding enrich after_transfers project_sent project_tokens all_checks transfer_checks
two_checks = refl

no_checks : (enrich lib true payment no_graph_write (some graph)).checks ≡ []
unfolding enrich after_transfers project_sent project_tokens all_checks transfer_checks
no_checks = refl

report_settles_applied :
    All
      (λ (j : Job). (str_eq j.tx_hash "p" && is_processing j.status) ≡ false)
      (report 90 true "p" "timeout" (graph_failure ∷ []) (lease 80 (new_job 70 "p") ∷ []))
report_settles_applied =
    report_settles 90 "p" "timeout" (graph_failure ∷ []) (lease 80 (new_job 70 "p") ∷ [])
