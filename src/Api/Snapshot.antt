-- ===== src/Api/Snapshot.antt =====
-- api/snapshot.go: the live snapshot that all clients share, and handleEventStream in api/server.go.
pub mod Accounting
pub mod Streaming
mod Tests
use forensic_listener.Prelude.{
  not, ◌++◌, ℕ, zero, suc, ◌+◌, ◌-◌, ◌*◌, Bool, true, false, ◌||◌, Option, none, some, List, [],
  ◌∷◌, leb, ◌==◌, if◌then◌else◌, ◌>>=◌,
}
use forensic_listener.Models.{Transaction}
use forensic_listener.Ingestion.Feeds.{IngestionStatus}
use forensic_listener.Store.Postgres.Counts.{ExactCounts, LiveCounts, EnrichmentStatus, ChainStatus}
use forensic_listener.Store.Postgres.Pages.{FlagRow}

pub record OverviewStats : Type 0 where
  pub transaction_count : ℕ
  pub pending_count : ℕ
  pub account_count : ℕ
  pub contract_count : ℕ
  pub flag_count : ℕ
  pub high_flag_count_24h : ℕ
  pub token_transfer_count : ℕ
  pub block_count : ℕ
  pub latest_block : Option ℕ
  pub latest_block_at : Option ℕ
  pub latest_transaction_at : Option ℕ
  pub first_transaction_at : Option ℕ

-- The flags are kept without the fixed explanation that enrichFlags adds.
pub record StreamSnapshot : Type 0 where
  pub timestamp : ℕ
  pub overview : OverviewStats
  pub enrichment : EnrichmentStatus
  pub chain : ChainStatus
  pub ingestion : Option IngestionStatus
  pub recent_transactions : List Transaction
  pub recent_flags : List FlagRow

unfoldable pub overview_of : ExactCounts → LiveCounts → OverviewStats
overview_of exact live = record {
  transaction_count = exact.transaction_count + live.new_transactions_since;
  pending_count = live.pending_count;
  account_count = exact.account_count;
  contract_count = exact.contract_count;
  flag_count = live.flag_count;
  high_flag_count_24h = live.high_flag_count_24h;
  token_transfer_count = exact.token_transfer_count;
  block_count = exact.block_count;
  latest_block = live.latest_block;
  latest_block_at = live.latest_block_at;
  latest_transaction_at = live.latest_transaction_at;
  first_transaction_at = exact.first_transaction_at;
}

-- buildSnapshot: `none` is the error of a query, in their order.
unfoldable pub build_snapshot :
    ℕ
    → ExactCounts
    → Option LiveCounts
    → Option EnrichmentStatus
    → Option (List Transaction)
    → Option (List FlagRow)
    → Option IngestionStatus
    → Option StreamSnapshot
build_snapshot now exact live enrichment transactions flags ingestion = do
  l ← live
  e ← enrichment
  ts ← transactions
  fs ← flags
  some (record {
    timestamp = now;
    overview = overview_of exact l;
    enrichment = record e { done = exact.done_jobs };
    chain = exact.chain;
    ingestion = ingestion;
    recent_transactions = ts;
    recent_flags = fs;
  })

abbrev pub exact_counts_interval : ℕ
exact_counts_interval = 30 * 1000000

-- The hub: the number of publishes stands for the payload's identity and for the channel `changed`,
-- which a publish closes and replaces.
pub record SnapshotHub {ℓ} (S : Type ℓ) : Type ℓ where
  pub latest : Option S
  pub serial : ℕ

module _ {ℓ} {S : Type ℓ} where
  abbrev pub new_snapshot_hub : SnapshotHub S
  new_snapshot_hub = record { latest = none; serial = 0 }

  -- publish; a snapshot that cannot be encoded is not published.
  unfoldable pub publish : Bool → S → SnapshotHub S → SnapshotHub S
  publish encodes s hub =
      if encodes then record { latest = some s; serial = hub.serial + 1 } else hub

-- What one turn of the loop of runSnapshots meets: the time, what ExactCounts returns and when it has
-- returned, what buildSnapshot makes of exact counts, and whether its snapshot can be encoded.
pub record Turn {ℓ} (S : Type ℓ) : Type ℓ where
  pub now : ℕ
  pub counts : Option ExactCounts
  pub counted_at : ℕ
  pub build : ExactCounts → Option S
  pub encodes : Bool

abbrev pub is_due : ℕ → Option (ExactCounts × ℕ) → Bool
is_due now none = true
is_due now (some (_, at)) = leb exact_counts_interval (now - at)

abbrev pub refreshed : Option ExactCounts → ℕ → Option (ExactCounts × ℕ) → Option (ExactCounts × ℕ)
refreshed none at exact = exact
refreshed (some c) at exact = some (c, at)

module _ {ℓ} {S : Type ℓ} where
  abbrev pub exact_for : Turn S → Option (ExactCounts × ℕ) → Option (ExactCounts × ℕ)
  exact_for t exact = if is_due t.now exact then refreshed t.counts t.counted_at exact else exact

  abbrev pub published_for : Turn S → Option (ExactCounts × ℕ) → SnapshotHub S → SnapshotHub S
  published_for t none hub = hub
  published_for t (some (c, at)) hub = elim (t.build c) [
    | none ↦ hub
    | some s ↦ publish t.encodes s hub
  ]

  -- One turn of the loop of runSnapshots.
  unfoldable pub snapshot_turn :
      Turn S → Option (ExactCounts × ℕ) × SnapshotHub S → Option (ExactCounts × ℕ) × SnapshotHub S
  snapshot_turn t (exact, hub) = (exact_for t exact, published_for t (exact_for t exact) hub)

  -- runSnapshots, over the turns until the context ends.
  unfoldable pub run_snapshots :
      List (Turn S)
      → Option (ExactCounts × ℕ) × SnapshotHub S
      → Option (ExactCounts × ℕ) × SnapshotHub S
  run_snapshots [] state = state
  run_snapshots (t ∷ ts) state = run_snapshots ts (snapshot_turn t state)

-- What wakes the loop of handleEventStream.
pub data Wake : Type 0 where
  gone changed heartbeat : Wake

pub data Frame : Type 0 where
  snapshot : ℕ → Frame
  keep_alive : Frame

-- payload != nil && (lastSent == nil || &payload[0] != &lastSent[0])
abbrev pub same_payload : ℕ → Option ℕ → Bool
same_payload n none = false
same_payload n (some m) = m == n

module _ {ℓ} {S : Type ℓ} where
  abbrev pub news_in : Option S → ℕ → Option ℕ → Bool
  news_in none serial last = false
  news_in (some _) serial last = not (same_payload serial last)

  abbrev pub is_news : SnapshotHub S → Option ℕ → Bool
  is_news hub last = news_in hub.latest hub.serial last

  abbrev pub sent_now : SnapshotHub S → Option ℕ → List Frame
  sent_now hub last = if is_news hub last then snapshot hub.serial ∷ [] else []

  abbrev pub last_after : SnapshotHub S → Option ℕ → Option ℕ
  last_after hub last = if is_news hub last then some hub.serial else last

  -- The loop of handleEventStream, from the hub that it reads, over what wakes it and the hub that it
  -- then finds. A write that fails ends the stream as the client's leaving does.
  unfoldable pub event_stream : Option ℕ → SnapshotHub S → List (Wake × SnapshotHub S) → List Frame
  event_stream last hub [] = sent_now hub last
  event_stream last hub ((gone, next) ∷ more) = sent_now hub last
  event_stream last hub ((changed, next) ∷ more) =
      sent_now hub last ++ event_stream (last_after hub last) next more
  event_stream last hub ((heartbeat, next) ∷ more) =
      sent_now hub last ++ (keep_alive ∷ event_stream (last_after hub last) next more)

-- handleOverviewStats: none is the answer 503.
unfoldable pub handle_overview_stats : SnapshotHub StreamSnapshot → Option OverviewStats
handle_overview_stats hub = elim hub.latest [ none ↦ none | some s ↦ some s.overview ]
