-- ===== src/Ingestion/Pending.antt =====
-- ingestion/engine.go: runPending and ingestWorker, the feed of pending transactions and its workers.
-- The loop and the workers run concurrently, so the feed is a relation of the steps that they may take.
pub mod Flow
mod Tests
use forensic_listener.Prelude.{
  ℕ, ◌+◌, ◌≤◌, ◌<◌, ◌≡◌, Bool, true, false, Option, none, some, List, [], ◌∷◌, ◌++◌, length,
  if◌then◌else◌,
}
use forensic_listener.Models.{Transaction}
use forensic_listener.Store.Address.{AddressLib}
use forensic_listener.Store.Postgres.{Db, save_transaction}
use forensic_listener.Ingestion.Mined.{RawTx, EthLib, to_model}

abbrev pub ingest_workers : ℕ
ingest_workers = 16

abbrev pub ingest_buffer : ℕ
ingest_buffer = 4096

-- The channel, what the workers have taken from it and are at, the counter of skipped transactions,
-- and the database. Three counts that the code does not keep say what has become of the feed.
pub record PendingFeed : Type 0 where
  pub jobs : List RawTx
  pub in_hand : List RawTx
  pub dropped : ℕ
  pub closed : Bool
  pub db : Db
  pub received : ℕ
  pub handled : ℕ
  pub reported : ℕ

abbrev pub start : Db → PendingFeed
start db = record {
  jobs = [];
  in_hand = [];
  dropped = 0;
  closed = false;
  db = db;
  received = 0;
  handled = 0;
  reported = 0;
}

module _ (eth : EthLib) (lib : AddressLib) where
  -- What a worker does with a transaction that it read at `now`; `fails` says whether its write fails.
  abbrev pub saved : ℕ → Bool → Option Transaction → Db → Db
  saved now fails none db = db
  saved now fails (some tx) db = if fails then db else save_transaction lib now tx db

  unfoldable pub ingest_one : ℕ → ℕ → Bool → RawTx → Db → Db
  ingest_one observed_at now fails raw db = saved now fails (to_model eth raw observed_at) db

  -- A step of the loop, or of a worker.
  pub data Step (s : PendingFeed) : PendingFeed → Type 0 where
    -- case jobs <- raw
    sent :
        (raw : RawTx)
        → s.closed ≡ false
        → length s.jobs < ingest_buffer
        → Step s (record s { jobs = s.jobs ++ raw ∷ []; received = s.received + 1 })
    -- default: the buffer is full
    skipped :
        (raw : RawTx)
        → s.closed ≡ false
        → ingest_buffer ≤ length s.jobs
        → Step s (record s { dropped = s.dropped + 1; received = s.received + 1 })
    -- case <-reportTicker.C
    reports :
        s.closed ≡ false → Step s (record s { dropped = 0; reported = s.reported + s.dropped })
    -- break loop, and close(jobs)
    closes : s.closed ≡ false → Step s (record s { closed = true })
    -- A free worker takes the next of the channel, also once that is closed.
    takes :
        (raw : RawTx) (rest : List RawTx)
        → s.jobs ≡ raw ∷ rest
        → length s.in_hand < ingest_workers
        → Step s (record s { jobs = rest; in_hand = s.in_hand ++ raw ∷ [] })
    -- A worker is done with what it had.
    finishes :
        (before after : List RawTx) (raw : RawTx) (observed_at now : ℕ) (fails : Bool)
        → s.in_hand ≡ before ++ raw ∷ after
        → Step s (record s {
          in_hand = before ++ after;
          db = ingest_one observed_at now fails raw s.db;
          handled = s.handled + 1;
        })

  pub data Reach (s : PendingFeed) : PendingFeed → Type 0 where
    here : Reach s s
    next : {t u : PendingFeed} → Reach s t → Step t u → Reach s u
