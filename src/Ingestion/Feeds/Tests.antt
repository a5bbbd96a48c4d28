-- ===== src/Ingestion/Feeds/Tests.antt =====
-- ingestion/status.go and ingestion/maintenance.go: tests of the feeds, and the laws at small tables.
use forensic_listener.Prelude.{
  ◌+◌, ◌*◌, ◌≤◌, ◌≡◌, refl, true, false, none, some, List, [], ◌∷◌, length, keep, not, ◌&&◌,
  if◌then◌else◌,
}
use forensic_listener.Store.Fixtures.{lib, payment, empty_db}
use forensic_listener.Store.Postgres.{Db, pending_row}
use forensic_listener.Store.Postgres.Transactions.{find_tx}
use forensic_listener.Store.Postgres.Transactions.Rows.{map_row}
use forensic_listener.Store.Postgres.Queue.{Job, new_job, done, is_done, prune}
use forensic_listener.Ingestion.Feeds.{
  Status, touch_head, heads_recently, snapshot, one_minute, dropped_after, maintain,
}
use forensic_listener.Ingestion.Feeds.Upkeep.{drop_row, maintain_rows, prune_keeps}

abbrev never : Status
never = record {
  pending_connected = false;
  heads_connected = true;
  last_pending = 0;
  last_head = 0;
  last_block = 0;
}

no_head : (snapshot never).last_block ≡ none
unfolding snapshot
no_head = refl

one_head : (snapshot (touch_head 9 40 never)).last_block ≡ some 40
unfolding snapshot touch_head
one_head = refl

abbrev table : Db
table = record empty_db { transactions = pending_row lib payment ∷ [] }

abbrev jobs : List Job
jobs = new_job 10 "p" ∷ record (new_job 10 "q") { status = done } ∷ []

maintain_rows_applied :
    find_tx "p"
      (maintain 20000000000 false false (touch_head 20000000000 40 never) table).transactions
    ≡ map_row
        (λ r.
          if heads_recently 20000000000 (5 * one_minute) (touch_head 20000000000 40 never)
            && not false
          then drop_row 20000000000 dropped_after r
          else r)
        (find_tx "p" table.transactions)
maintain_rows_applied =
    maintain_rows 20000000000 false false (touch_head 20000000000 40 never) table "p"

prune_keeps_applied :
    (length (prune 100 50 jobs).0 + (prune 100 50 jobs).1 ≡ length jobs)
    × ((prune 100 50 jobs).1 ≤ 10000)
    × (keep (λ (j : Job). not (is_done j.status)) (prune 100 50 jobs).0
        ≡ keep (λ (j : Job). not (is_done j.status)) jobs)
prune_keeps_applied = prune_keeps 100 50 jobs
