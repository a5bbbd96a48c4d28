-- ===== src/Ingestion/Feeds.antt =====
-- ingestion/status.go and ingestion/maintenance.go: the health of the feeds, and what maintenance does
-- to the tables of the queue and of the transactions.
pub mod Upkeep
mod Tests
use forensic_listener.Prelude.{
  ℕ, ◌+◌, ◌-◌, ◌*◌, Bool, true, false, ◌&&◌, not, Option, none, some, List, ltb, ◌==◌,
  if◌then◌else◌,
}
use forensic_listener.Store.Postgres.{Db}
use forensic_listener.Store.Postgres.Transactions.{mark_dropped}
use forensic_listener.Store.Postgres.Queue.{prune}

-- Status: 0 in a time stands for never.
pub record Status : Type 0 where
  pub pending_connected : Bool
  pub heads_connected : Bool
  pub last_pending : ℕ
  pub last_head : ℕ
  pub last_block : ℕ

pub record IngestionStatus : Type 0 where
  pub pending_feed_connected : Bool
  pub head_feed_connected : Bool
  pub last_pending_at : Option ℕ
  pub last_head_at : Option ℕ
  pub last_block : Option ℕ

unfoldable pub touch_pending : ℕ → Status → Status
touch_pending now s = record s { last_pending = now }

unfoldable pub touch_head : ℕ → ℕ → Status → Status
touch_head now number s = record s { last_head = now; last_block = number }

-- headsRecently: time.Since(last) < d
unfoldable pub heads_recently : ℕ → ℕ → Status → Bool
heads_recently now d s = not (s.last_head == 0) && ltb (now - s.last_head) d

abbrev pub if_set : ℕ → ℕ → Option ℕ
if_set zero_means_never v = if zero_means_never == 0 then none else some v

-- Snapshot
unfoldable pub snapshot : Status → IngestionStatus
snapshot s = record {
  pending_feed_connected = s.pending_connected;
  head_feed_connected = s.heads_connected;
  last_pending_at = if_set s.last_pending s.last_pending;
  last_head_at = if_set s.last_head s.last_head;
  last_block = if_set s.last_head s.last_block;
}

abbrev pub one_minute : ℕ
one_minute = 60 * 1000000

abbrev pub finished_job_retention : ℕ
finished_job_retention = 24 * 60 * one_minute

abbrev pub dropped_after : ℕ
dropped_after = 3 * 60 * one_minute

-- The part of one round of runMaintenance that writes to these tables. The Booleans say whether the
-- two statements fail.
unfoldable pub maintain : ℕ → Bool → Bool → Status → Db → Db
maintain now prune_fails drop_fails s db =
    let pruned =
      if prune_fails
      then db
      else record db { jobs = (prune now finished_job_retention db.jobs).0 } in
    if heads_recently now (5 * one_minute) s && not drop_fails
    then record pruned { transactions = (mark_dropped now dropped_after pruned.transactions).0 }
    else pruned
