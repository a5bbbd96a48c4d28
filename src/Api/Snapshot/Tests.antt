-- ===== src/Api/Snapshot/Tests.antt =====
-- api/snapshot.go: snapshots of a store in which a block brings a transaction that it dates itself.
use forensic_listener.Prelude.{
  ℕ, ◌+◌, ◌≡◌, refl, true, none, some, List, [], ◌∷◌, ◌++◌, map, ltb, leb, length, arith, All,
}
use forensic_listener.Store.Fixtures.{lib, payment, speed_up, creation, empty_db}
use forensic_listener.Store.Postgres.{Db, pending_row}
use forensic_listener.Store.Postgres.Counts.{
  count, time_of, exact_counts, live_counts, enrichment_status, figures_add_up,
}
use forensic_listener.Api.Snapshot.{
  StreamSnapshot, SnapshotHub, publish, changed, heartbeat, gone, Wake, event_stream, snapshot,
  keep_alive, build_snapshot, overview_of,
}
use forensic_listener.Api.Snapshot.Accounting.{snapshot_accounting}
use forensic_listener.Api.Snapshot.Streaming.{
  IsIncreasing, IsServed, hubs_read, snapshots_of, streams_once,
}

abbrev counted : Db
counted = record empty_db { transactions = pending_row lib payment ∷ [] }

-- Added since: one that is dated before the count, and one after it.
abbrev grown : Db
grown = record empty_db {
  transactions =
      pending_row lib payment
      ∷ pending_row lib (record speed_up { timestamp = 4000 })
      ∷ pending_row lib (record creation { timestamp = 9000 })
      ∷ [];
}

abbrev built : StreamSnapshot
built = record {
  timestamp = 9500;
  overview = overview_of (exact_counts 5000 counted) (live_counts 5000 9500 [] grown);
  enrichment = record (enrichment_status []) { done = 0 };
  chain = (exact_counts 5000 counted).chain;
  ingestion = none;
  recent_transactions = [];
  recent_flags = [];
}

snapshot_built :
    build_snapshot 9500
      (exact_counts 5000 counted)
      (some (live_counts 5000 9500 [] grown))
      (some (enrichment_status []))
      (some [])
      (some [])
      none
    ≡ some built
unfolding build_snapshot exact_counts
snapshot_built = refl

snapshot_accounting_example :
    built.overview.transaction_count + count (λ t. leb t 5000) (4000 ∷ 9000 ∷ [])
    ≡ length grown.transactions + count (ltb 5000) (map time_of counted.transactions)
snapshot_accounting_example =
    snapshot_accounting 5000 9500 [] counted grown (4000 ∷ 9000 ∷ []) (some (enrichment_status []))
      (some []) (some []) none built dated snapshot_built
  where
    dated : map time_of grown.transactions ≡ map time_of counted.transactions ++ 4000 ∷ 9000 ∷ []
    dated = unfold pending_row in refl

-- Of the three rows the snapshot shows two.
one_missed : built.overview.transaction_count ≡ 2
unfolding overview_of exact_counts live_counts pending_row
one_missed = refl

figures_add_up_applied :
    ((exact_counts 7 grown).chain.pending
        + (exact_counts 7 grown).chain.mined
        + (exact_counts 7 grown).chain.replaced
        + (exact_counts 7 grown).chain.dropped
      ≡ (exact_counts 7 grown).transaction_count)
    × ((enrichment_status grown.jobs).pending
          + (enrichment_status grown.jobs).processing
          + (enrichment_status grown.jobs).failed
          + (exact_counts 7 grown).done_jobs
        ≡ length grown.jobs)
figures_add_up_applied = figures_add_up 7 grown

abbrev hub_1 : SnapshotHub ℕ
hub_1 = publish true 11 (record { latest = none; serial = 0 })

abbrev hub_3 : SnapshotHub ℕ
hub_3 = publish true 13 (publish true 12 hub_1)

abbrev visit : List (Wake × SnapshotHub ℕ)
visit = (heartbeat, hub_1) ∷ (changed, hub_3) ∷ (gone, hub_3) ∷ []

streams_once_example :
    IsIncreasing none (snapshots_of (event_stream none hub_1 visit))
    × All (IsServed none (snapshots_of (event_stream none hub_1 visit))) (hubs_read hub_1 visit)
unfolding publish
streams_once_example = streams_once hub_1 visit (omega arith, (omega arith, (omega arith, tt)))

-- The second of three snapshots is skipped by a client that was not waiting.
frames : event_stream none hub_1 visit ≡ snapshot 1 ∷ keep_alive ∷ snapshot 3 ∷ []
unfolding event_stream publish
frames = refl
