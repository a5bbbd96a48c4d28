-- ===== src/Ingestion/Pending/Flow.antt =====
-- ingestion/engine.go: whatever the loop and the workers do, every transaction of the feed is accounted
-- for, the buffer stays bounded, and the loop never waits for a worker.
use forensic_listener.Prelude.{
  ℕ, ◌+◌, ◌≤◌, ◌≡◌, refl, ap, Bool, true, false, Option, none, some, List, [], ◌∷◌, ◌++◌, arith,
  length, length-append, leb, Bool-cases, inl, inr,
}
use forensic_listener.Models.{Transaction}
use forensic_listener.Store.Address.{AddressLib}
use forensic_listener.Store.Postgres.{Db}
use forensic_listener.Store.Postgres.Outbox.{IsOutbox, save_transaction-IsOutbox}
use forensic_listener.Ingestion.Mined.{RawTx, EthLib, to_model}
use forensic_listener.Ingestion.Pending.{
  PendingFeed, start, Step, Reach, sent, skipped, reports, closes, takes, finishes, here, next,
  ingest_workers, ingest_buffer, ingest_one, saved,
}

module _ (eth : EthLib) (lib : AddressLib) where
  pub record IsAccounted (s : PendingFeed) : Type 0 where
    pub none_lost :
        s.received ≡ length s.jobs + length s.in_hand + s.handled + s.dropped + s.reported
    pub buffered : length s.jobs ≤ ingest_buffer
    pub working : length s.in_hand ≤ ingest_workers
    pub outbox : IsOutbox s.db

  ingest_one-IsOutbox :
      (observed_at now : ℕ) (fails : Bool) (raw : RawTx) (db : Db)
      → IsOutbox db
      → IsOutbox (ingest_one eth lib observed_at now fails raw db)
  unfolding ingest_one
  ingest_one-IsOutbox observed_at now fails raw db h = go fails (to_model eth raw observed_at)
    where
      go : (fails : Bool) (tx : Option Transaction) → IsOutbox (saved eth lib now fails tx db)
      go fails none = h
      go true (some tx) = h
      go false (some tx) = save_transaction-IsOutbox lib now tx db h

  Step-IsAccounted : {s t : PendingFeed} → Step eth lib s t → IsAccounted s → IsAccounted t
  Step-IsAccounted {s} (sent raw running room) h = record {
    none_lost = let e = h.none_lost in omega (arith, length-append s.jobs (raw ∷ []));
    buffered = omega (arith, length-append s.jobs (raw ∷ []));
    working = h.working;
    outbox = h.outbox;
  }
  Step-IsAccounted {s} (skipped raw running full) h = record {
    none_lost = let e = h.none_lost in omega arith;
    buffered = h.buffered;
    working = h.working;
    outbox = h.outbox;
  }
  Step-IsAccounted {s} (reports running) h = record {
    none_lost = let e = h.none_lost in omega arith;
    buffered = h.buffered;
    working = h.working;
    outbox = h.outbox;
  }
  Step-IsAccounted {s} (closes running) h = record {
    none_lost = h.none_lost;
    buffered = h.buffered;
    working = h.working;
    outbox = h.outbox;
  }
  Step-IsAccounted {s} (takes raw rest jobs free) h =
      let n : length s.jobs ≡ length (raw ∷ rest) = ap (λ (l : List RawTx). length l) jobs in
      let e = h.none_lost in
      let b = h.buffered in
      record {
        none_lost = omega (arith, length-append s.in_hand (raw ∷ []));
        buffered = omega arith;
        working = omega (arith, length-append s.in_hand (raw ∷ []));
        outbox = h.outbox;
      }
  Step-IsAccounted {s} (finishes before after raw observed_at now fails held) h =
      let n : length s.in_hand ≡ length (before ++ raw ∷ after) =
        ap (λ (l : List RawTx). length l) held in
      let e = h.none_lost in
      let w = h.working in
      record {
        none_lost = omega (arith, length-append before (raw ∷ after), length-append before after);
        buffered = h.buffered;
        working = omega (arith, length-append before (raw ∷ after), length-append before after);
        outbox = ingest_one-IsOutbox observed_at now fails raw s.db h.outbox;
      }

  -- From any tables that are a complete outbox, whatever the loop and the workers do in whatever order:
  -- every transaction received is in the buffer, in a worker's hands, handled, or counted as skipped;
  -- the buffer and the workers stay within their limits; and the outbox stays complete.
  pub feed-IsAccounted :
      (db : Db) (s : PendingFeed) → IsOutbox db → Reach eth lib (start db) s → IsAccounted s
  feed-IsAccounted db s h here = record {
    none_lost = refl;
    buffered = omega arith;
    working = omega arith;
    outbox = h;
  }
  feed-IsAccounted db s h (next {t} r st) = Step-IsAccounted st (feed-IsAccounted db t h r)

  -- The loop can receive whatever the workers are at, as long as it runs.
  pub never_blocks :
      (s : PendingFeed) (raw : RawTx)
      → s.closed ≡ false
      → (t : PendingFeed) × Step eth lib s t
        × (t.received ≡ s.received + 1)
        × (t.in_hand ≡ s.in_hand)
  never_blocks s raw running = elim (Bool-cases (leb ingest_buffer (length s.jobs))) [
    | inl full ↦ (_, skipped raw running (ground arith), refl, refl)
    | inr room ↦ (_, sent raw running (ground arith), refl, refl)
  ]
