-- ===== src/Store/Postgres/Outbox.antt =====
-- store/postgres.go: the transactional outbox. Nothing that is stored is missed by enrichment.
use forensic_listener.Prelude.{
  ℕ, String, ◌≡◌, refl, Bool, true, ◌||◌, Option, none, some, List, [], ◌∷◌, ◌++◌, map, arith,
  str_eq, eq_iff, eq_refl, any, All, All-append, Bool-cases, inl, inr, is_some,
}
use forensic_listener.Models.{Transaction, MinedBlock}
use forensic_listener.Store.Address.{AddressLib, normalize_address}
use forensic_listener.Store.Postgres.Transactions.{
  TxRow, nullable_string, has_tx, promote, upsert_mined, upsert_mined_all, mark_replaced,
  revert_block,
}
use forensic_listener.Store.Postgres.Queue.{
  Job, has_job, enqueue, enqueue_all, requeue, requeue_all,
}
use forensic_listener.Store.Postgres.{
  Db, committed, stored_hash, mined_row, pending_row, job_hashes, save_transaction, save_block,
  undo_block,
}
use forensic_listener.Store.Postgres.Writes.{
  mined_rows, written, base, save_block-Outcome, transfer_hashes,
}

-- The transaction has a recipient or created a contract.
abbrev pub has_target : TxRow → Bool
has_target r = is_some r.to_address || is_some r.created_contract

abbrev pub IsEnqueued : List Job → TxRow → Type 0
IsEnqueued jobs r = has_target r ≡ true → has_job r.hash jobs ≡ true

-- Every stored transaction with a target has its enrichment job.
abbrev pub IsOutbox : Db → Type 0
IsOutbox db = All (IsEnqueued db.jobs) db.transactions

module _ (h : String) where
  has_job-append :
      (j : Job) (jobs : List Job) → has_job h jobs ≡ true → has_job h (jobs ++ j ∷ []) ≡ true
  unfolding has_job
  has_job-append j [] e = cc
  has_job-append j (k ∷ jobs) e = ground (arith, has_job-append j jobs)

  has_job-append_self :
      (j : Job) (jobs : List Job) → str_eq j.tx_hash h ≡ true → has_job h (jobs ++ j ∷ []) ≡ true
  unfolding has_job
  has_job-append_self j [] e = rw e
  has_job-append_self j (k ∷ jobs) e = ground (arith, has_job-append_self j jobs)

  has_job-enqueue :
      (now : ℕ) (k : String) (jobs : List Job)
      → has_job h jobs ≡ true
      → has_job h (enqueue now k jobs) ≡ true
  unfolding enqueue
  has_job-enqueue now k jobs e = elim (Bool-cases (has_job k jobs)) [
    | inl old ↦ rw old e
    | inr new ↦ rw new (has_job-append _ jobs e)
  ]

  has_job-enqueue_all :
      (now : ℕ) (ks : List String) (jobs : List Job)
      → has_job h jobs ≡ true
      → has_job h (enqueue_all now ks jobs) ≡ true
  unfolding enqueue_all
  has_job-enqueue_all now [] jobs e = e
  has_job-enqueue_all now (k ∷ ks) jobs e =
      has_job-enqueue_all now ks (enqueue now k jobs) (has_job-enqueue now k jobs e)

  has_job-requeue :
      (now : ℕ) (k : String) (jobs : List Job)
      → has_job h jobs ≡ true
      → has_job h (requeue now k jobs) ≡ true
  unfolding requeue has_job
  has_job-requeue now k [] e = cc
  has_job-requeue now k (j ∷ jobs) e = ground (arith, has_job-requeue now k jobs)

  has_job-requeue_all :
      (now : ℕ) (ks : List String) (jobs : List Job)
      → has_job h jobs ≡ true
      → has_job h (requeue_all now ks jobs) ≡ true
  unfolding requeue_all
  has_job-requeue_all now [] jobs e = e
  has_job-requeue_all now (k ∷ ks) jobs e =
      has_job-requeue_all now ks (requeue now k jobs) (has_job-requeue now k jobs e)

  enqueue_self : (now : ℕ) (jobs : List Job) → has_job h (enqueue now h jobs) ≡ true
  unfolding enqueue
  enqueue_self now jobs = elim (Bool-cases (has_job h jobs)) [
    | inl old ↦ rw old old
    | inr new ↦ rw new (has_job-append_self _ jobs (eq_refl h))
  ]

  enqueue_all_listed :
      (now : ℕ) (ks : List String) (jobs : List Job)
      → any (λ k. str_eq k h) ks ≡ true
      → has_job h (enqueue_all now ks jobs) ≡ true
  unfolding enqueue_all
  enqueue_all_listed now [] jobs e = cc
  enqueue_all_listed now (k ∷ ks) jobs e = elim (Bool-cases (str_eq k h)) [
    | inl same ↦
        let q : k ≡ h = (eq_iff k h).0 same in
        has_job-enqueue_all now ks (enqueue now k jobs) (rw q (enqueue_self now jobs))
    | inr other ↦ enqueue_all_listed now ks (enqueue now k jobs) (rw other at e)
  ]

All-mono :
    (P Q : TxRow → Type 0) (rows : List TxRow) → ((r : TxRow) → P r → Q r) → All P rows → All Q rows
All-mono P Q [] f h = tt
All-mono P Q (r ∷ rows) f h = (f r h.0, All-mono P Q rows f h.1)

All-map :
    (P : TxRow → Type 0) (f : TxRow → TxRow) (rows : List TxRow)
    → ((r : TxRow) → P r → P (f r))
    → All P rows
    → All P (map f rows)
All-map P f [] keeps h = tt
All-map P f (r ∷ rows) keeps h = (keeps r h.0, All-map P f rows keeps h.1)

module _ (jobs : List Job) where
  promote-IsEnqueued :
      (m r : TxRow)
      → str_eq r.hash m.hash ≡ true
      → IsEnqueued jobs m
      → IsEnqueued jobs r
      → IsEnqueued jobs (promote m r)
  promote-IsEnqueued m r e hm hr t = ground (arith, eq_iff r.hash m.hash)

  All-upsert_mined :
      (m : TxRow) (rows : List TxRow)
      → IsEnqueued jobs m
      → All (IsEnqueued jobs) rows
      → All (IsEnqueued jobs) (upsert_mined m rows)
  unfolding upsert_mined
  All-upsert_mined m [] hm h = (hm, tt)
  All-upsert_mined m (r ∷ rows) hm h = elim (Bool-cases (str_eq r.hash m.hash)) [
    | inl e ↦ rw e (promote-IsEnqueued m r e hm h.0, h.1)
    | inr e ↦ rw e (h.0, All-upsert_mined m rows hm h.1)
  ]

  All-upsert_mined_all :
      (ms rows : List TxRow)
      → All (IsEnqueued jobs) ms
      → All (IsEnqueued jobs) rows
      → All (IsEnqueued jobs) (upsert_mined_all ms rows)
  unfolding upsert_mined_all
  All-upsert_mined_all [] rows hm h = h
  All-upsert_mined_all (m ∷ ms) rows hm h =
      All-upsert_mined_all ms (upsert_mined m rows) hm.1 (All-upsert_mined m rows hm.0 h)

  All-mark_replaced :
      (ms rows : List TxRow)
      → All (IsEnqueued jobs) rows
      → All (IsEnqueued jobs) (mark_replaced ms rows)
  unfolding mark_replaced
  All-mark_replaced ms rows h = All-map _ _ rows (λ r k t. ground arith) h

  All-revert_block :
      (n : ℕ) (rows : List TxRow)
      → All (IsEnqueued jobs) rows
      → All (IsEnqueued jobs) (revert_block n rows)
  unfolding revert_block
  All-revert_block n rows h = All-map _ _ rows (λ r k t. ground arith) h

module _ (lib : AddressLib) where
  -- The jobs of a block are those of its transactions with a target.
  target_listed :
      (mb : MinedBlock) (tx : Transaction) (txs : List Transaction)
      → has_target (mined_row lib mb tx) ≡ true
      → any (λ k. str_eq k tx.hash) (job_hashes lib (tx ∷ txs)) ≡ true
  unfolding job_hashes mined_row nullable_string
  target_listed mb tx txs t = ground (arith, eq_iff tx.hash tx.hash)

  listed_later :
      (tx : Transaction) (txs : List Transaction) (h : String)
      → any (λ k. str_eq k h) (job_hashes lib txs) ≡ true
      → any (λ k. str_eq k h) (job_hashes lib (tx ∷ txs)) ≡ true
  unfolding job_hashes
  listed_later tx txs h e = ground arith

  mined_rows-IsEnqueued :
      (jobs : List Job) (mb : MinedBlock) (txs : List Transaction)
      → ((h : String) → any (λ k. str_eq k h) (job_hashes lib txs) ≡ true → has_job h jobs ≡ true)
      → All (IsEnqueued jobs) (map (mined_row lib mb) txs)
  mined_rows-IsEnqueued jobs mb [] f = tt
  mined_rows-IsEnqueued jobs mb (tx ∷ txs) f = (
    λ t. unfold mined_row in f tx.hash (target_listed mb tx txs t),
    mined_rows-IsEnqueued jobs mb txs (λ h e. f h (listed_later tx txs h e)),
  )

  base-IsOutbox :
      (mb : MinedBlock) (o : Option String) (db : Db)
      → IsOutbox db
      → All (IsEnqueued db.jobs) (base lib mb o db).transactions
  unfolding undo_block
  base-IsOutbox mb none db h = h
  base-IsOutbox mb (some _) db h = All-revert_block db.jobs mb.block.number db.transactions h

  base-jobs : (mb : MinedBlock) (o : Option String) (db : Db) → (base lib mb o db).jobs ≡ db.jobs
  unfolding undo_block
  base-jobs mb none db = refl
  base-jobs mb (some _) db = refl

  written-IsOutbox :
      (now : ℕ) (mb : MinedBlock) (db : Db)
      → All (IsEnqueued db.jobs) db.transactions
      → IsOutbox (written lib now mb db)
  unfolding written
  written-IsOutbox now mb db h =
      let queued = enqueue_all now (job_hashes lib mb.transactions) db.jobs in
      let jobs = requeue_all now (transfer_hashes mb.token_transfers) queued in
      All-mark_replaced jobs (mined_rows lib mb) _ (
        All-upsert_mined_all jobs (mined_rows lib mb) db.transactions
          (mined_rows-IsEnqueued jobs mb mb.transactions
            (λ k e. has_job-requeue_all k now _ queued (enqueue_all_listed k now _ db.jobs e)))
          (All-mono _ _ db.transactions
            (λ r f t.
              has_job-requeue_all r.hash now _ queued
                (has_job-enqueue_all r.hash now _ db.jobs (f t)))
            h))

  -- A committed SaveBlock, of a new block, of a stored one or in a reorg, keeps the outbox complete.
  pub save_block-IsOutbox :
      (now : ℕ) (mb : MinedBlock) (db : Db) {db' : Db}
      → IsOutbox db
      → save_block lib now mb db ≡ committed db'
      → IsOutbox db'
  save_block-IsOutbox now mb db h done = elim (save_block-Outcome lib now mb db done) [
    | inl same ↦ rw same.1 h
    | inr wrote ↦
        let o = stored_hash mb.block.number db.blocks in
        rw wrote.2 (
          written-IsOutbox now mb (base lib mb o db)
            (rw (base-jobs mb o db) (base-IsOutbox mb o db h)))
  ]

  All-end :
      (P : TxRow → Type 0) (rows : List TxRow) (r : TxRow)
      → All P rows
      → P r
      → All P (rows ++ r ∷ [])
  All-end P rows r h k = All-append P rows (r ∷ []) h (k, tt)

  -- SaveTransaction, of a new transaction or of a stored one, keeps the outbox complete.
  pub save_transaction-IsOutbox :
      (now : ℕ) (tx : Transaction) (db : Db)
      → IsOutbox db
      → IsOutbox (save_transaction lib now tx db)
  unfolding save_transaction pending_row nullable_string
  save_transaction-IsOutbox now tx db h = elim (Bool-cases (has_tx tx.hash db.transactions)) [
    | inl old ↦ rw old h
    | inr new ↦ elim (Bool-cases (str_eq (normalize_address lib tx.to) "")) [
      | inl creation ↦ rw (new, creation) (All-end _ db.transactions _ h (λ t. cc))
      | inr to ↦
          rw (new, to)
            (All-end _ db.transactions _
              (All-mono _ _ db.transactions
                (λ r f t. has_job-enqueue r.hash now tx.hash db.jobs (f t)) h)
              (λ t. enqueue_self tx.hash now db.jobs))
    ]
  ]
