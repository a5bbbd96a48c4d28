-- ===== src/Ingestion/Enrichment/Projection.antt =====
-- ingestion/enrichment.go: the detectors run only on what the graph has, and every job is reported.
use forensic_listener.Prelude.{ℕ, String, ◌≡◌, true, false, ◌&&◌, List, [], ◌∷◌, arith, str_eq, All}
use forensic_listener.Store.Postgres.Queue.{Job, update_job, is_processing, mark_done, mark_failed}
use forensic_listener.Ingestion.Enrichment.{Failure, report}

-- A worker's report leaves no row of its job in processing: with errors the job waits again or is
-- parked, without it is done.
pub report_settles :
    (now : ℕ) (h message : String) (errors : List Failure) (jobs : List Job)
    → All
        (λ (j : Job). (str_eq j.tx_hash h && is_processing j.status) ≡ false)
        (report now true h message errors jobs)
unfolding report mark_done mark_failed update_job
report_settles now h message [] [] = tt
report_settles now h message (e ∷ es) [] = tt
report_settles now h message [] (j ∷ jobs) =
    (ground arith, unfold mark_done update_job in report_settles now h message [] jobs)
report_settles now h message (e ∷ es) (j ∷ jobs) =
    (ground arith, unfold mark_failed update_job in report_settles now h message (e ∷ es) jobs)
