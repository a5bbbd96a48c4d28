-- ===== src/Store/Postgres/Queue.antt =====
-- store/postgres.go: the enrichment_jobs table, a queue with leases.
pub mod Exclusive
pub mod Held
pub mod Lease
pub mod Retry
use forensic_listener.Prelude.{
  ℕ, zero, suc, ◌+◌, ◌*◌, ◌^◌, min, String, Bool, true, false, ◌||◌, ◌&&◌, not, Option, none, some,
  List, [], ◌∷◌, ◌++◌, map, str_eq, ltb, leb, ◌==◌, if◌then◌else◌, any, keep, length, take,
}

pub data JobStatus : Type 0 where
  pending processing done failed : JobStatus

pub record Job : Type 0 where
  pub tx_hash : String
  pub status : JobStatus
  pub attempts : ℕ
  pub last_error : Option String
  pub available_at : ℕ
  pub locked_at : Option ℕ
  pub updated_at : ℕ

abbrev pub is_pending : JobStatus → Bool
is_pending pending = true
is_pending _ = false

abbrev pub is_processing : JobStatus → Bool
is_processing processing = true
is_processing _ = false

abbrev pub is_done : JobStatus → Bool
is_done done = true
is_done _ = false

abbrev pub one_second : ℕ
one_second = 1000000

-- VALUES (h, 'pending', NOW(), NOW())
abbrev pub new_job : ℕ → String → Job
new_job now h = record {
  tx_hash = h;
  status = pending;
  attempts = 0;
  last_error = none;
  available_at = now;
  locked_at = none;
  updated_at = now;
}

unfoldable pub has_job : String → List Job → Bool
has_job h = any (λ j. str_eq j.tx_hash h)

-- INSERT ... ON CONFLICT (tx_hash) DO NOTHING
unfoldable pub enqueue : ℕ → String → List Job → List Job
enqueue now h jobs = if has_job h jobs then jobs else jobs ++ new_job now h ∷ []

unfoldable pub enqueue_all : ℕ → List String → List Job → List Job
enqueue_all now [] jobs = jobs
enqueue_all now (h ∷ hs) jobs = enqueue_all now hs (enqueue now h jobs)

-- DO UPDATE SET status = 'pending', attempts = 0, ... WHERE status <> 'pending'
abbrev pub reopen : ℕ → Job → Job
reopen now j = if is_pending j.status then j else record j {
  status = pending;
  attempts = 0;
  available_at = now;
  locked_at = none;
  last_error = none;
  updated_at = now;
}

-- INSERT ... ON CONFLICT (tx_hash) DO UPDATE of insertTokenTransfers
unfoldable pub requeue : ℕ → String → List Job → List Job
requeue now h [] = new_job now h ∷ []
requeue now h (j ∷ js) = if str_eq j.tx_hash h then reopen now j ∷ js else j ∷ requeue now h js

unfoldable pub requeue_all : ℕ → List String → List Job → List Job
requeue_all now [] jobs = jobs
requeue_all now (h ∷ hs) jobs = requeue_all now hs (requeue now h jobs)

-- locked_at <= now - stale_after, which is not true of NULL
abbrev pub lease_expired : ℕ → ℕ → Option ℕ → Bool
lease_expired now stale_after none = false
lease_expired now stale_after (some l) = leb (l + stale_after) now

-- The WHERE of the candidate. One clock serves for NOW() and for the client's time.
unfoldable pub is_open : ℕ → ℕ → Job → Bool
is_open now stale_after j =
    leb j.available_at now
    && (is_pending j.status
        || (is_processing j.status && lease_expired now stale_after j.locked_at))

-- ORDER BY available_at ASC, updated_at ASC
unfoldable pub is_before : Job → Job → Bool
is_before a b =
    ltb a.available_at b.available_at
    || (a.available_at == b.available_at && ltb a.updated_at b.updated_at)

-- LIMIT 1: of the rows that pass, the first that none is before.
unfoldable pub earlier : Bool → Job → Option Job → Option Job
earlier false j found = found
earlier true j none = some j
earlier true j (some c) = if is_before c j then some c else some j

unfoldable pub candidate : (Job → Bool) → List Job → Option Job
candidate p [] = none
candidate p (j ∷ js) = earlier (p j) j (candidate p js)

-- UPDATE ... SET status = 'processing', attempts = attempts + 1, ...
abbrev pub lease : ℕ → Job → Job
lease now j = record j {
  status = processing;
  attempts = j.attempts + 1;
  locked_at = some now;
  updated_at = now;
}

-- UPDATE enrichment_jobs SET ... WHERE tx_hash = h AND `p`
unfoldable pub update_job : String → (Job → Bool) → (Job → Job) → List Job → List Job
update_job h p f = map (λ j. if str_eq j.tx_hash h && p j then f j else j)

-- The rows that a claim may take: open, and not locked by another transaction (SKIP LOCKED).
abbrev pub is_claimable : ℕ → ℕ → (String → Bool) → Job → Bool
is_claimable now stale_after locked j = is_open now stale_after j && not (locked j.tx_hash)

abbrev pub lease_row : ℕ → Option Job → List Job → List Job × Option Job
lease_row now none jobs = (jobs, none)
lease_row now (some j) jobs =
    (update_job j.tx_hash (λ _. true) (lease now) jobs, some (lease now j))

-- The statement of ClaimEnrichmentJob up to the join: the queue after it, and the leased row.
unfoldable pub claim : ℕ → ℕ → (String → Bool) → List Job → List Job × Option Job
claim now stale_after locked jobs =
    lease_row now (candidate (is_claimable now stale_after locked) jobs) jobs

-- MarkEnrichmentDone
unfoldable pub mark_done : ℕ → String → List Job → List Job
mark_done now h =
    update_job h (λ j. is_processing j.status)
      λ j. record j { status = done; locked_at = none; last_error = none; updated_at = now }

-- LEAST(power(2, attempts) * 5, 300) seconds
unfoldable pub backoff : ℕ → ℕ
backoff attempts = min (2 ^ attempts * 5) 300 * one_second

abbrev pub fail : ℕ → ℕ → String → Job → Job
fail now max_attempts error j = record j {
  status = if leb max_attempts j.attempts then failed else pending;
  locked_at = none;
  last_error = some error;
  available_at = now + backoff j.attempts;
  updated_at = now;
}

-- MarkEnrichmentFailed
unfoldable pub mark_failed : ℕ → String → String → ℕ → List Job → List Job
mark_failed now h error max_attempts =
    update_job h (λ j. is_processing j.status) (fail now max_attempts error)

-- The rows of the subquery of PruneEnrichmentJobs.
abbrev pub is_finished_before : ℕ → ℕ → Job → Bool
is_finished_before now older_than j = is_done j.status && ltb (j.updated_at + older_than) now

-- DELETE of the first `batch` rows that pass.
unfoldable pub prune_batch : ℕ → (Job → Bool) → List Job → List Job
prune_batch batch p [] = []
prune_batch zero p (j ∷ js) = j ∷ js
prune_batch (suc batch) p (j ∷ js) =
    if p j then prune_batch batch p js else j ∷ prune_batch (suc batch) p js

-- PruneEnrichmentJobs, of at most 10000 rows: the queue, and how many rows went.
unfoldable pub prune : ℕ → ℕ → List Job → List Job × ℕ
prune now older_than jobs = (
  prune_batch 10000 (is_finished_before now older_than) jobs,
  length (take 10000 (keep (is_finished_before now older_than) jobs)),
)
