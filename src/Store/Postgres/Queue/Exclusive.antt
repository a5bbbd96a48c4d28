-- ===== src/Store/Postgres/Queue/Exclusive.antt =====
-- store/postgres.go: a lease excludes other claims, whatever else happens to the table of jobs.
use forensic_listener.Prelude.{
  ℕ, ◌+◌, ◌<◌, String, ◌≡◌, ◌≢◌, refl, sym, ap, ◌∙◌, eq_refl, Bool, true, false, ◌&&◌, not, some,
  List, [], ◌∷◌, ◌++◌, arith, str_eq, eq_iff, All, Bool-cases, inl, inr,
}
use mathlib.Core.List.{Memᴰ}
use mathlib.Core.Path.{subst}
use forensic_listener.Store.Postgres.Queue.{
  Job, lease, update_job, claim, enqueue, requeue, mark_done, mark_failed, prune, has_job, new_job,
}
use forensic_listener.Store.Postgres.Queue.Lease.{
  claim_first, IsLeasedAt, leased_rows, leased_not_open, All-Memᴰ,
}
use forensic_listener.Store.Postgres.Queue.Held.{
  IsHeld, updates-IsHeld, prune_has, requeue-IsHeld, claim-IsHeld, has-update,
}

-- The statements on the table: of ClaimEnrichmentJob, SaveBlock, insertTokenTransfers,
-- MarkEnrichmentDone, MarkEnrichmentFailed and PruneEnrichmentJobs.
pub data QueueCall : Type 0 where
  claims : ℕ → (String → Bool) → QueueCall
  enqueues requeues completes : ℕ → String → QueueCall
  fails : ℕ → String → String → ℕ → QueueCall
  prunes : ℕ → ℕ → QueueCall

unfoldable pub run_call : ℕ → QueueCall → List Job → List Job
run_call stale_after (claims now locked) jobs = (claim now stale_after locked jobs).0
run_call stale_after (enqueues now h) jobs = enqueue now h jobs
run_call stale_after (requeues now h) jobs = requeue now h jobs
run_call stale_after (completes now h) jobs = mark_done now h jobs
run_call stale_after (fails now h error max_attempts) jobs =
    mark_failed now h error max_attempts jobs
run_call stale_after (prunes now older_than) jobs = (prune now older_than jobs).0

unfoldable pub run_calls : ℕ → List QueueCall → List Job → List Job
run_calls stale_after [] jobs = jobs
run_calls stale_after (c ∷ cs) jobs = run_calls stale_after cs (run_call stale_after c jobs)

-- A claim comes before the time `expiry`; a job that is queued again or reported is not that of `h`.
abbrev pub LeavesLease : ℕ → String → QueueCall → Type 0
LeavesLease expiry h (claims now _) = now < expiry
LeavesLease expiry h (enqueues _ _) = Unit
LeavesLease expiry h (requeues _ k) = str_eq k h ≡ false
LeavesLease expiry h (completes _ k) = str_eq k h ≡ false
LeavesLease expiry h (fails _ k _ _) = str_eq k h ≡ false
LeavesLease expiry h (prunes _ _) = Unit

module _ (now : ℕ) (h : String) where
  appended_leased :
      (x : Job) (jobs : List Job)
      → IsLeasedAt now h x
      → All (IsLeasedAt now h) jobs
      → All (IsLeasedAt now h) (jobs ++ x ∷ [])
  appended_leased x [] lx l = (lx, tt)
  appended_leased x (j ∷ jobs) lx l = (l.0, appended_leased x jobs lx l.1)

  appended-IsHeld :
      (x : Job) (jobs : List Job)
      → IsLeasedAt now h x
      → IsHeld now h jobs
      → IsHeld now h (jobs ++ x ∷ [])
  unfolding has_job
  appended-IsHeld x [] lx (there, l) = absurd cc
  appended-IsHeld x (j ∷ jobs) lx (there, l) = elim (Bool-cases (str_eq j.tx_hash h)) [
    | inl here ↦ (rw here refl, (l.0, appended_leased x jobs lx l.1))
    | inr away ↦
        let (there', l') = appended-IsHeld x jobs lx (rw away at there, l.1) in
        (rw away there', (l.0, l'))
  ]

  call-IsHeld :
      (stale_after : ℕ) (c : QueueCall) (jobs : List Job)
      → LeavesLease (now + stale_after) h c
      → IsHeld now h jobs
      → IsHeld now h (run_call stale_after c jobs)
  unfolding run_call enqueue mark_done mark_failed prune
  call-IsHeld stale_after (claims at locked) jobs leaves held =
      claim-IsHeld now h at stale_after locked jobs leaves held
  call-IsHeld stale_after (enqueues at k) jobs leaves held = elim (Bool-cases (has_job k jobs)) [
    | inl old ↦ rw old held
    | inr new ↦ rw new (
        appended-IsHeld (new_job at k) jobs
          (λ same.
            let q : has_job k jobs ≡ true =
              ap (λ t. has_job t jobs) ((eq_iff k h).0 same) ∙ held.0 in
            cc)
          held)
  ]
  call-IsHeld stale_after (requeues at k) jobs leaves held =
      requeue-IsHeld now h at k jobs leaves held
  call-IsHeld stale_after (completes at k) jobs leaves held =
      updates-IsHeld now h k _ _ jobs leaves (λ j. refl) held
  call-IsHeld stale_after (fails at k error max_attempts) jobs leaves held =
      updates-IsHeld now h k _ _ jobs leaves (λ j. refl) held
  call-IsHeld stale_after (prunes at older_than) jobs leaves held =
      prune_has now h 10000 _ jobs (λ j l e. ground (arith, l e)) held

  calls-IsHeld :
      (stale_after : ℕ) (cs : List QueueCall) (jobs : List Job)
      → All (LeavesLease (now + stale_after) h) cs
      → IsHeld now h jobs
      → IsHeld now h (run_calls stale_after cs jobs)
  unfolding run_calls
  calls-IsHeld stale_after [] jobs leaves held = held
  calls-IsHeld stale_after (c ∷ cs) jobs leaves held =
      calls-IsHeld stale_after cs (run_call stale_after c jobs) leaves.1
        (call-IsHeld stale_after c jobs leaves.0 held)

leased_has :
    (now : ℕ) (i : Job) (jobs : List Job)
    → Memᴰ i jobs
    → has_job i.tx_hash (update_job i.tx_hash (λ _. true) (lease now) jobs) ≡ true
unfolding has_job
leased_has now i jobs m = has-update now i.tx_hash _ _ _ jobs (λ j. refl) ∙ member_has jobs m
  where
    member_has : (jobs : List Job) → Memᴰ i jobs → has_job i.tx_hash jobs ≡ true
    member_has [] m = elim m [ ]
    member_has (j ∷ jobs) (Memᴰ.head e) =
        let q : str_eq j.tx_hash i.tx_hash ≡ true =
          ap (λ (t : Job). str_eq t.tx_hash i.tx_hash) (sym e) ∙ eq_refl i.tx_hash in
        rw q refl
    member_has (j ∷ jobs) (Memᴰ.tail m) = ground (arith, member_has jobs m)

-- A lease excludes other claims: after a claim that leases a job, run any statements on the queue of
-- which each claim comes before the lease expires and none queues that job again or reports on it.
-- Then a claim before the lease expires does not return that job. The claims use one stale_after and
-- each has any set of rows locked by other transactions.
pub claim_exclusive :
    (now later stale_after : ℕ) (locked locked' : String → Bool) (jobs jobs' jobs'' : List Job)
    (j k : Job) (cs : List QueueCall)
    → claim now stale_after locked jobs ≡ (jobs', some j)
    → All (LeavesLease (now + stale_after) j.tx_hash) cs
    → later < now + stale_after
    → claim later stale_after locked' (run_calls stale_after cs jobs') ≡ (jobs'', some k)
    → k.tx_hash ≢ j.tx_hash
claim_exclusive now later stale_after locked locked' jobs jobs' jobs'' j k cs first leaves fresh
      second same =
    let (i, is_lease, (_, at_i, _), after) =
      claim_first now stale_after locked jobs jobs' j first in
    let (c, is_lease', (open_, member, _), _) =
      claim_first later stale_after locked' _ jobs'' k second in
    let named : j.tx_hash ≡ i.tx_hash = ap (λ (x : Job). x.tx_hash) is_lease in
    let h : c.tx_hash ≡ j.tx_hash = sym (ap (λ (x : Job). x.tx_hash) is_lease') ∙ same in
    let held : IsHeld now j.tx_hash jobs' =
      subst (λ t. IsHeld now t jobs') (sym named)
        (subst (IsHeld now i.tx_hash) (sym after)
          (leased_has now i jobs at_i, leased_rows now i.tx_hash jobs)) in
    let at =
      All-Memᴰ _ c _ (calls-IsHeld now j.tx_hash stale_after cs jobs' leaves held).1 member in
    let shut =
      leased_not_open now later stale_after j.tx_hash c fresh at
        ((eq_iff c.tx_hash j.tx_hash).1 h) in
    let closed : (false && not (locked' c.tx_hash)) ≡ true = rw shut at open_ in cc
