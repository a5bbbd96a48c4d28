-- ===== src/Store/Postgres/Queue/Retry.antt =====
-- store/postgres.go: backoff, parking after the last attempt, and the guard on a finished job.
use forensic_listener.Prelude.{
  some, Bool, ℕ, zero, suc, ◌+◌, ◌*◌, ◌≤◌, String, ◌≡◌, refl, ap, true, false, ◌&&◌, none, List, [],
  ◌∷◌, map, arith, leb, length, str_eq, eq_iff, eq_refl, if◌then◌else◌, any, All, Bool-cases, inl,
  inr,
}
use mathlib.Core.Path.{ap₂}
use native.Mathlib.Nat.{pow-suc, one-le-pow}
use mathlib.Core.Path.{subst}
use forensic_listener.Prelude.{sym, ◌∙◌}
use forensic_listener.Store.Postgres.Queue.Lease.{claim_first}
use forensic_listener.Store.Postgres.Transactions.{has_duplicates}
use forensic_listener.Store.Postgres.Queue.{
  claim, is_claimable, JobStatus, is_open, pending, processing, done, failed, Job, one_second,
  is_processing, reopen, requeue, lease, update_job, mark_done, mark_failed, fail, backoff,
}

-- After an attempt the wait is at least 10 seconds and at most 300.
pub backoff_bounds :
    (attempts : ℕ)
    → 1 ≤ attempts
    → (10 * one_second ≤ backoff attempts) × (backoff attempts ≤ 300 * one_second)
unfolding backoff
backoff_bounds zero h = absurd (omega arith)
backoff_bounds (suc a) h = omega (arith, pow-suc 2 a, one-le-pow a 2)

-- The claims, failures and errors of successive attempts at one job.
abbrev pub retry : ℕ → List (ℕ × ℕ × String) → Job → Job
retry max_attempts [] j = j
retry max_attempts ((claimed, failed_at, error) ∷ more) j =
    retry max_attempts more (fail failed_at max_attempts error (lease claimed j))

-- A job that fails again and again counts its attempts, and is parked as failed from the attempt on
-- that reaches the limit, and pending before it.
pub retry_parks :
    (max_attempts : ℕ) (first : ℕ × ℕ × String) (more : List (ℕ × ℕ × String)) (j : Job)
    → let k = retry max_attempts (first ∷ more) j in
      (k.attempts ≡ j.attempts + 1 + length more)
      × (k.status ≡ (if leb max_attempts (j.attempts + 1 + length more) then failed else pending))
      × (k.locked_at ≡ none)
retry_parks max_attempts (c, f, e) [] j = ground arith
retry_parks max_attempts (c, f, e) (next ∷ more) j =
    let sum : j.attempts + 1 + suc (length more) ≡ j.attempts + 1 + 1 + length more = omega arith in
    rw sum (retry_parks max_attempts next more (fail f max_attempts e (lease c j)))

module _ (h : String) (f : Job → Job) where
  absent_kept :
      (jobs : List Job)
      → any (λ k. str_eq k h) (map (λ (k : Job). k.tx_hash) jobs) ≡ false
      → update_job h (λ k. is_processing k.status) f jobs ≡ jobs
  unfolding update_job
  absent_kept [] e = refl
  absent_kept (j ∷ jobs) e = elim (Bool-cases (str_eq j.tx_hash h)) [
    | inl same ↦ cc (rw same at e)
    | inr other ↦ rw other (ap (λ t. j ∷ t) (absent_kept jobs (rw other at e)))
  ]

  reopened_kept :
      (now : ℕ) (j : Job)
      → (if str_eq (reopen now j).tx_hash h && is_processing (reopen now j).status
          then f (reopen now j)
          else reopen now j)
        ≡ reopen now j
  reopened_kept now j = ground arith

  requeued_kept :
      (now : ℕ) (jobs : List Job)
      → has_duplicates (map (λ (k : Job). k.tx_hash) jobs) ≡ false
      → update_job h (λ k. is_processing k.status) f (requeue now h jobs) ≡ requeue now h jobs
  unfolding update_job requeue has_duplicates
  requeued_kept now [] e = rw (eq_refl h) refl
  requeued_kept now (j ∷ jobs) e = elim (Bool-cases (str_eq j.tx_hash h)) [
    | inl same ↦
        let q : j.tx_hash ≡ h = (eq_iff j.tx_hash h).0 same in
        rw same (
          ap₂ (λ (a : Job) (t : List Job). a ∷ t) (reopened_kept now j)
            (absent_kept jobs (ground (arith, q))))
    | inr other ↦ rw other (rw other (ap (λ t. j ∷ t) (requeued_kept now jobs (ground arith))))
  ]

-- In a table with one row for each transaction, a job that is queued again while it is processed stays
-- queued: the first worker's report of success or of failure changes nothing, since it finds the job
-- pending.
pub requeue_guards :
    (now later : ℕ) (h error : String) (max_attempts : ℕ) (jobs : List Job)
    → has_duplicates (map (λ (k : Job). k.tx_hash) jobs) ≡ false
    → (mark_done later h (requeue now h jobs) ≡ requeue now h jobs)
      × (mark_failed later h error max_attempts (requeue now h jobs) ≡ requeue now h jobs)
unfolding mark_done mark_failed
requeue_guards now later h error max_attempts jobs unique =
    (requeued_kept h _ now jobs unique, requeued_kept h _ now jobs unique)

module _ (h : String) where
  -- Every row of the job has this status.
  abbrev pub HasStatus : JobStatus → List Job → Type 0
  HasStatus status = All (λ (r : Job). str_eq r.tx_hash h ≡ true → r.status ≡ status)

  lease-HasStatus :
      (now : ℕ) (jobs : List Job) → HasStatus processing (update_job h (λ _. true) (lease now) jobs)
  unfolding update_job
  lease-HasStatus now [] = tt
  lease-HasStatus now (j ∷ jobs) = ((λ e. ground arith), lease-HasStatus now jobs)

  mark_done-HasStatus :
      (now : ℕ) (jobs : List Job)
      → HasStatus processing jobs
      → HasStatus done (mark_done now h jobs)
  unfolding mark_done update_job
  mark_done-HasStatus now [] p = tt
  mark_done-HasStatus now (j ∷ jobs) p =
      (row, unfold mark_done update_job in mark_done-HasStatus now jobs p.1)
    where
      row :
          let k =
            if str_eq j.tx_hash h && is_processing j.status
            then record j { status = done; locked_at = none; last_error = none; updated_at = now }
            else j in
          str_eq k.tx_hash h ≡ true → k.status ≡ done
      row = elim (Bool-cases (str_eq j.tx_hash h)) [
        | inl same ↦ λ e. rw (same, p.0 same) refl
        | inr other ↦ λ e. absurd (let q : str_eq j.tx_hash h ≡ true = rw other at e in cc)
      ]

  mark_failed_done :
      (now : ℕ) (error : String) (max_attempts : ℕ) (jobs : List Job)
      → HasStatus done jobs
      → mark_failed now h error max_attempts jobs ≡ jobs
  unfolding mark_failed update_job
  mark_failed_done now error max_attempts [] d = refl
  mark_failed_done now error max_attempts (j ∷ jobs) d = elim (Bool-cases (str_eq j.tx_hash h)) [
    | inl same ↦
        let idle : is_processing j.status ≡ false = ap is_processing (d.0 same) in
        rw (same, idle)
          (ap (λ t. j ∷ t)
            (unfold mark_failed update_job in mark_failed_done now error max_attempts jobs d.1))
    | inr other ↦ rw other (
        ap (λ t. j ∷ t)
          (unfold mark_failed update_job in mark_failed_done now error max_attempts jobs d.1))
  ]

  -- Some row of the job can be claimed.
  abbrev pub can_claim : ℕ → ℕ → (String → Bool) → List Job → Bool
  can_claim now stale_after locked =
      any (λ (r : Job). str_eq r.tx_hash h && is_claimable now stale_after locked r)

  requeue-can_claim :
      (at now stale_after : ℕ) (locked : String → Bool) (jobs : List Job)
      → HasStatus processing jobs
      → at ≤ now
      → locked h ≡ false
      → can_claim now stale_after locked (requeue at h jobs) ≡ true
  unfolding requeue is_open
  requeue-can_claim at now stale_after locked [] p le free =
      rw (eq_refl h, free) (ground (arith, le))
  requeue-can_claim at now stale_after locked (j ∷ jobs) p le free =
      elim (Bool-cases (str_eq j.tx_hash h)) [
        | inl same ↦
            let unlocked : locked j.tx_hash ≡ false =
              ap locked ((eq_iff j.tx_hash h).0 same) ∙ free in
            rw (same, p.0 same) (rw (same, unlocked) (ground (arith, le)))
        | inr other ↦
            rw other (rw other (requeue-can_claim at now stale_after locked jobs p.1 le free))
      ]

-- The guard does not tell one lease from the next. Say that a worker claims a job, the job is then
-- queued again, and another worker's claim, at no earlier time and with the row not locked, returns the
-- job. That claim need not wait for the first lease to expire: some row of the job can be claimed at its
-- time. And a report of success by the first worker then makes every row of the job done, and a later
-- report of the second attempt's failure changes nothing.
pub stale_report_completes :
    (first again second reported failed_at stale_after : ℕ) (locked locked' : String → Bool)
    (error : String) (max_attempts : ℕ) (jobs jobs' jobs'' : List Job) (j k : Job)
    → claim first stale_after locked jobs ≡ (jobs', some j)
    → again ≤ second
    → locked' j.tx_hash ≡ false
    → claim second stale_after locked' (requeue again j.tx_hash jobs') ≡ (jobs'', some k)
    → k.tx_hash ≡ j.tx_hash
    → let reported_done = mark_done reported j.tx_hash jobs'' in
      (can_claim j.tx_hash second stale_after locked' (requeue again j.tx_hash jobs') ≡ true)
      × HasStatus j.tx_hash done reported_done
      × (mark_failed failed_at j.tx_hash error max_attempts reported_done ≡ reported_done)
stale_report_completes first again second reported failed_at stale_after locked locked' error
      max_attempts jobs jobs' jobs'' j k claimed le free claimed_again same =
    let leased = claim-HasStatus first stale_after locked jobs jobs' j claimed in
    let leased_again =
      subst (λ h. HasStatus h processing jobs'') same
        (claim-HasStatus second stale_after locked' _ jobs'' k claimed_again) in
    let finished = mark_done-HasStatus j.tx_hash reported jobs'' leased_again in
    (
      requeue-can_claim j.tx_hash again second stale_after locked' jobs' leased le free,
      finished,
      mark_failed_done j.tx_hash failed_at error max_attempts _ finished,
    )
  where
    claim-HasStatus :
        (now stale_after : ℕ) (locked : String → Bool) (jobs jobs' : List Job) (j : Job)
        → claim now stale_after locked jobs ≡ (jobs', some j)
        → HasStatus j.tx_hash processing jobs'
    claim-HasStatus now stale_after locked jobs jobs' j e =
        let (i, q, _, after) = claim_first now stale_after locked jobs jobs' j e in
        subst (λ h. HasStatus h processing jobs') (sym (ap (λ (x : Job). x.tx_hash) q))
          (subst (HasStatus i.tx_hash processing) (sym after) (lease-HasStatus i.tx_hash now jobs))
