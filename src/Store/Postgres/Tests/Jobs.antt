-- ===== src/Store/Postgres/Tests/Jobs.antt =====
-- store/postgres.go: tests of the queue, and its laws at two jobs.
use forensic_listener.Store.Postgres.Transactions.{has_duplicates}
use forensic_listener.Prelude.{
  str_eq, String, ◌*◌, ◌≤◌, ◌≡◌, ◌≢◌, refl, Bool, true, false, some, none, List, [], ◌∷◌, arith,
  All,
}
use forensic_listener.Store.Postgres.Queue.{
  has_job, enqueue, Job, done, failed, new_job, is_claimable, lease, reopen, update_job, claim,
  candidate, earlier, is_open, is_before, mark_done, mark_failed, requeue, backoff, one_second,
}
use forensic_listener.Store.Postgres.Queue.Lease.{claim_first, claim-none, IsChosen}
use forensic_listener.Store.Postgres.Queue.Exclusive.{
  QueueCall, enqueues, requeues, fails, run_calls, run_call, claim_exclusive,
}
use forensic_listener.Store.Postgres.Queue.Retry.{
  can_claim, HasStatus, backoff_bounds, retry, retry_parks, requeue_guards, stale_report_completes,
}

abbrev none_locked : String → Bool
none_locked h = false

-- The second job has waited longer.
abbrev jobs : List Job
jobs = new_job 20 "p" ∷ new_job 10 "q" ∷ []

abbrev claimed : List Job
claimed = new_job 20 "p" ∷ lease 30 (new_job 10 "q") ∷ []

abbrev claimed_both : List Job
claimed_both = lease 40 (new_job 20 "p") ∷ lease 30 (new_job 10 "q") ∷ []

first_claim : claim 30 600 none_locked jobs ≡ (claimed, some (lease 30 (new_job 10 "q")))
unfolding claim candidate earlier is_open is_before update_job
first_claim = refl

second_claim : claim 40 600 none_locked claimed ≡ (claimed_both, some (lease 40 (new_job 20 "p")))
unfolding claim candidate earlier is_open is_before update_job
second_claim = refl

third_claim : claim 50 600 none_locked claimed_both ≡ (claimed_both, none)
unfolding claim candidate earlier is_open is_before update_job
third_claim = refl

expired_claim :
    claim 700 600 none_locked (lease 30 (new_job 10 "q") ∷ [])
    ≡ (lease 700 (lease 30 (new_job 10 "q")) ∷ [], some (lease 700 (lease 30 (new_job 10 "q"))))
unfolding claim candidate earlier is_open is_before update_job
expired_claim = refl

claim_first_example :
    (i : Job) × (lease 30 (new_job 10 "q") ≡ lease 30 i)
    × IsChosen (is_claimable 30 600 none_locked) jobs i
    × (claimed ≡ update_job i.tx_hash (λ _. true) (lease 30) jobs)
claim_first_example =
    claim_first 30 600 none_locked jobs claimed (lease 30 (new_job 10 "q")) first_claim

claim-none_applied :
    (claimed_both ≡ claimed_both)
    × All (λ (k : Job). is_claimable 50 600 none_locked k ≡ false) claimed_both
claim-none_applied = claim-none 50 600 none_locked claimed_both claimed_both third_claim

-- Between the two claims a block is delivered again and another job is reported.
abbrev between : List QueueCall
between = enqueues 32 "q" ∷ fails 35 "p" "timeout" 6 ∷ requeues 36 "p" ∷ []

claim_after :
    claim 40 600 none_locked (run_calls 600 between claimed)
    ≡ (claimed_both, some (lease 40 (new_job 20 "p")))
unfolding claim candidate earlier is_open is_before update_job run_calls run_call enqueue has_job
    mark_failed requeue
claim_after = refl

claim_exclusive_example : (lease 40 (new_job 20 "p")).tx_hash ≢ (lease 30 (new_job 10 "q")).tx_hash
claim_exclusive_example =
    claim_exclusive 30 40 600 none_locked none_locked jobs claimed claimed_both
      (lease 30 (new_job 10 "q")) (lease 40 (new_job 20 "p")) between first_claim
      (tt, (refl, (refl, tt))) (omega arith) claim_after

backoff_bounds_applied : (10 * one_second ≤ backoff 3) × (backoff 3 ≤ 300 * one_second)
backoff_bounds_applied = backoff_bounds 3 (omega arith)

retry_parks_applied :
    let k = retry 2 ((30, 35, "timeout") ∷ (90, 95, "timeout") ∷ []) (new_job 10 "q") in
    (k.attempts ≡ 2) × (k.status ≡ failed) × (k.locked_at ≡ none)
retry_parks_applied = retry_parks 2 (30, 35, "timeout") ((90, 95, "timeout") ∷ []) (new_job 10 "q")

requeue_guards_example :
    (mark_done 60 "q" (requeue 50 "q" claimed) ≡ requeue 50 "q" claimed)
    × (mark_failed 60 "q" "timeout" 6 (requeue 50 "q" claimed) ≡ requeue 50 "q" claimed)
requeue_guards_example =
    requeue_guards 50 60 "q" "timeout" 6 claimed (unfold has_duplicates in refl)

abbrev leased_again : Job
leased_again = lease 60 (reopen 50 (lease 30 (new_job 10 "q")))

abbrev claimed_again : List Job
claimed_again = new_job 20 "p" ∷ leased_again ∷ []

abbrev p_locked : String → Bool
p_locked h = str_eq h "p"

claims_again : claim 60 600 p_locked (requeue 50 "q" claimed) ≡ (claimed_again, some leased_again)
unfolding claim candidate earlier is_open is_before update_job requeue
claims_again = refl

stale_report_completes_example :
    let reported_done = mark_done 65 "q" claimed_again in
    (can_claim "q" 60 600 p_locked (requeue 50 "q" claimed) ≡ true)
    × HasStatus "q" done reported_done
    × (mark_failed 70 "q" "timeout" 6 reported_done ≡ reported_done)
stale_report_completes_example =
    stale_report_completes 30 50 60 65 70 600 none_locked p_locked "timeout" 6 jobs claimed
      claimed_again (lease 30 (new_job 10 "q")) leased_again first_claim (omega arith) refl
      claims_again refl
