-- ===== src/Store/Postgres/Counts.antt =====
-- store/postgres.go: the figures of the dashboard, ExactCounts, LiveCounts and EnrichmentStatus.
use forensic_listener.Prelude.{
  ◌⊎◌, ℕ, ◌+◌, ◌*◌, max, min, ◌≡◌, refl, Bool, true, false, ◌&&◌, ◌||◌, Option, none, some, List,
  [], ◌∷◌, map, arith, ltb, leb, if◌then◌else◌, keep, length, inl, inr,
}
use forensic_listener.Models.{
  TxStatus, mined, replaced, dropped, Account, Block, ForensicFlag, Severity, low, medium, high,
}
use forensic_listener.Models
use forensic_listener.Store.Postgres.{Db}
use forensic_listener.Store.Postgres.Transactions.{TxRow}
use forensic_listener.Store.Postgres.Queue.{Job, JobStatus, processing, done, failed}
use forensic_listener.Store.Postgres.Queue

-- COUNT(*) FILTER (WHERE ...)
abbrev pub count {ℓ} : {A : Type ℓ} → (A → Bool) → List A → ℕ
count p xs = length (keep p xs)

abbrev pub has_status : TxStatus → TxStatus → Bool
has_status Models.pending Models.pending = true
has_status mined mined = true
has_status replaced replaced = true
has_status dropped dropped = true
has_status _ _ = false

pub record ChainStatus : Type 0 where
  pub pending : ℕ
  pub mined : ℕ
  pub replaced : ℕ
  pub dropped : ℕ
  pub as_of : ℕ

pub record ExactCounts : Type 0 where
  pub as_of : ℕ
  pub transaction_count : ℕ
  pub account_count : ℕ
  pub contract_count : ℕ
  pub token_transfer_count : ℕ
  pub block_count : ℕ
  pub done_jobs : ℕ
  pub first_transaction_at : Option ℕ
  pub chain : ChainStatus

-- MIN and MAX, which are NULL of no rows
unfoldable pub min_of : List ℕ → Option ℕ
min_of [] = none
min_of (x ∷ xs) = elim (min_of xs) [ none ↦ some x | some m ↦ some (min x m) ]

unfoldable pub max_of : List ℕ → Option ℕ
max_of [] = none
max_of (x ∷ xs) = elim (max_of xs) [ none ↦ some x | some m ↦ some (max x m) ]

abbrev pub time_of : TxRow → ℕ
time_of r = r.timestamp

-- ExactCounts; `now` is clock_timestamp().
unfoldable pub exact_counts : ℕ → Db → ExactCounts
exact_counts now db = record {
  as_of = now;
  transaction_count = length db.transactions;
  account_count = length db.accounts;
  contract_count = count (λ (a : Account). a.is_contract) db.accounts;
  token_transfer_count = length db.token_transfers;
  block_count = length db.blocks;
  done_jobs = count (λ (j : Job). Queue.is_done j.status) db.jobs;
  first_transaction_at = min_of (map time_of db.transactions);
  chain = record {
    pending = count (λ (r : TxRow). has_status Models.pending r.status) db.transactions;
    mined = count (λ (r : TxRow). has_status mined r.status) db.transactions;
    replaced = count (λ (r : TxRow). has_status replaced r.status) db.transactions;
    dropped = count (λ (r : TxRow). has_status dropped r.status) db.transactions;
    as_of = now;
  };
}

pub record LiveCounts : Type 0 where
  pub new_transactions_since : ℕ
  pub pending_count : ℕ
  pub flag_count : ℕ
  pub high_flag_count_24h : ℕ
  pub latest_block : Option ℕ
  pub latest_block_at : Option ℕ
  pub latest_transaction_at : Option ℕ

abbrev pub is_high : Severity → Bool
is_high high = true
is_high _ = false

abbrev pub one_day : ℕ
one_day = 24 * 60 * 60 * 1000000

-- SELECT mined_at FROM blocks ORDER BY number DESC LIMIT 1
unfoldable pub highest_block : List Block → Option Block
highest_block [] = none
highest_block (b ∷ bs) = elim (highest_block bs) [
  | none ↦ some b
  | some c ↦ some (if leb c.number b.number then b else c)
]

abbrev pub block_time_of : Option Block → Option ℕ
block_time_of none = none
block_time_of (some b) = some b.mined_at

-- LiveCounts
unfoldable pub live_counts : ℕ → ℕ → List ForensicFlag → Db → LiveCounts
live_counts since now flags db = record {
  new_transactions_since = count (λ (r : TxRow). ltb since r.timestamp) db.transactions;
  pending_count = count (λ (r : TxRow). has_status Models.pending r.status) db.transactions;
  flag_count = length flags;
  high_flag_count_24h =
      count (λ (f : ForensicFlag). is_high f.severity && leb now (f.detected_at + one_day)) flags;
  latest_block = max_of (map (λ (b : Block). b.number) db.blocks);
  latest_block_at = block_time_of (highest_block db.blocks);
  latest_transaction_at = max_of (map time_of db.transactions);
}

pub record EnrichmentStatus : Type 0 where
  pub pending : ℕ
  pub processing : ℕ
  pub done : ℕ
  pub failed : ℕ
  pub retrying : ℕ
  pub oldest_pending_at : Option ℕ

abbrev pub is_failed : JobStatus → Bool
is_failed failed = true
is_failed _ = false

-- WHERE status IN ('pending', 'processing', 'failed')
abbrev pub is_unfinished : Job → Bool
is_unfinished j = Queue.is_pending j.status || Queue.is_processing j.status || is_failed j.status

-- EnrichmentStatus leaves `done` at 0.
unfoldable pub enrichment_status : List Job → EnrichmentStatus
enrichment_status jobs =
    let open_jobs = keep is_unfinished jobs in
    record {
      pending = count (λ (j : Job). Queue.is_pending j.status) open_jobs;
      processing = count (λ (j : Job). Queue.is_processing j.status) open_jobs;
      done = 0;
      failed = count (λ (j : Job). is_failed j.status) open_jobs;
      retrying = count (λ (j : Job). Queue.is_pending j.status && ltb 0 j.attempts) open_jobs;
      oldest_pending_at = min_of (
          map (λ (j : Job). j.available_at)
            (keep (λ (j : Job). Queue.is_pending j.status) open_jobs));
    }

status_cases :
    (s : TxStatus) → (s ≡ Models.pending) ⊎ ((s ≡ mined) ⊎ ((s ≡ replaced) ⊎ (s ≡ dropped)))
status_cases Models.pending = inl refl
status_cases mined = inr (inl refl)
status_cases replaced = inr (inr (inl refl))
status_cases dropped = inr (inr (inr refl))

chain_sum :
    (rows : List TxRow)
    → count (λ (r : TxRow). has_status Models.pending r.status) rows
        + count (λ (r : TxRow). has_status mined r.status) rows
        + count (λ (r : TxRow). has_status replaced r.status) rows
        + count (λ (r : TxRow). has_status dropped r.status) rows
      ≡ length rows
chain_sum [] = refl
chain_sum (r ∷ rows) = elim (status_cases r.status) [
  | inl e ↦ rw e (omega (arith, chain_sum rows))
  | inr (inl e) ↦ rw e (omega (arith, chain_sum rows))
  | inr (inr (inl e)) ↦ rw e (omega (arith, chain_sum rows))
  | inr (inr (inr e)) ↦ rw e (omega (arith, chain_sum rows))
]

job_cases : (s : JobStatus) → (s ≡ Queue.pending) ⊎ ((s ≡ processing) ⊎ ((s ≡ done) ⊎ (s ≡ failed)))
job_cases Queue.pending = inl refl
job_cases processing = inr (inl refl)
job_cases done = inr (inr (inl refl))
job_cases failed = inr (inr (inr refl))

job_sum :
    (jobs : List Job)
    → (enrichment_status jobs).pending
        + (enrichment_status jobs).processing
        + (enrichment_status jobs).failed
        + count (λ (j : Job). Queue.is_done j.status) jobs
      ≡ length jobs
unfolding enrichment_status
job_sum [] = refl
job_sum (j ∷ jobs) = elim (job_cases j.status) [
  | inl e ↦ rw e (omega (arith, job_sum jobs))
  | inr (inl e) ↦ rw e (omega (arith, job_sum jobs))
  | inr (inr (inl e)) ↦ rw e (omega (arith, job_sum jobs))
  | inr (inr (inr e)) ↦ rw e (omega (arith, job_sum jobs))
]

-- The four states of the chain figures add up to the transactions, and the states of the queue, with
-- the jobs done, to its jobs.
pub figures_add_up :
    (now : ℕ) (db : Db)
    → ((exact_counts now db).chain.pending
          + (exact_counts now db).chain.mined
          + (exact_counts now db).chain.replaced
          + (exact_counts now db).chain.dropped
        ≡ (exact_counts now db).transaction_count)
      × ((enrichment_status db.jobs).pending
            + (enrichment_status db.jobs).processing
            + (enrichment_status db.jobs).failed
            + (exact_counts now db).done_jobs
          ≡ length db.jobs)
unfolding exact_counts
figures_add_up now db = (chain_sum db.transactions, job_sum db.jobs)
