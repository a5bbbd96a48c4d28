-- ===== src/Api/Snapshot/Accounting.antt =====
-- api/snapshot.go: how far the transaction count of a snapshot is from the table.
use forensic_listener.Prelude.{
  length-append, length-map, ℕ, ◌+◌, ◌≡◌, refl, sym, ap, ◌∙◌, Bool, Option, some, none, List, [],
  ◌∷◌, ◌++◌, map, arith, ltb, leb, length, Bool-cases, inl, inr,
}
use forensic_listener.Models.{ForensicFlag, Transaction}
use forensic_listener.Ingestion.Feeds.{IngestionStatus}
use forensic_listener.Store.Postgres.{Db}
use forensic_listener.Store.Postgres.Transactions.{TxRow}
use forensic_listener.Store.Postgres.Pages.{FlagRow}
use forensic_listener.Store.Postgres.Counts.{
  count, time_of, exact_counts, live_counts, EnrichmentStatus,
}
use forensic_listener.Api.Snapshot.{suc, StreamSnapshot, build_snapshot, overview_of}

count-append : (p : ℕ → Bool) (xs ys : List ℕ) → count p (xs ++ ys) ≡ count p xs + count p ys
count-append p [] ys = omega arith
count-append p (x ∷ xs) ys = ground (arith, count-append p xs ys)

count-map :
    (p : ℕ → Bool) (rows : List TxRow)
    → count (λ (r : TxRow). p r.timestamp) rows ≡ count p (map time_of rows)
count-map p [] = refl
count-map p (r ∷ rs) = elim (Bool-cases (p r.timestamp)) [
  | inl e ↦ rw e (ap suc (count-map p rs))
  | inr e ↦ rw e (count-map p rs)
]

count-split : (t : ℕ) (xs : List ℕ) → count (ltb t) xs + count (λ x. leb x t) xs ≡ length xs
count-split t [] = refl
count-split t (x ∷ xs) = ground (arith, count-split t xs)

-- Where transactions are only added since the exact counts, the count of a snapshot is the number of
-- rows, but for the rows added that are dated no later than the exact counts, which it misses, and the
-- earlier rows that are dated after them, which it counts twice.
pub snapshot_accounting :
    (at now : ℕ) (flags : List ForensicFlag) (db db' : Db) (added : List ℕ)
    (enrichment : Option EnrichmentStatus) (transactions : Option (List Transaction))
    (recent : Option (List FlagRow)) (ingestion : Option IngestionStatus) (s : StreamSnapshot)
    → map time_of db'.transactions ≡ map time_of db.transactions ++ added
    → build_snapshot now
        (exact_counts at db)
        (some (live_counts at now flags db'))
        enrichment
        transactions
        recent
        ingestion
      ≡ some s
    → s.overview.transaction_count + count (λ t. leb t at) added
      ≡ length db'.transactions + count (ltb at) (map time_of db.transactions)
unfolding build_snapshot overview_of exact_counts live_counts
snapshot_accounting at now flags db db' added none ts fs ingestion s grown built = cc
snapshot_accounting at now flags db db' added (some e) none fs ingestion s grown built = cc
snapshot_accounting at now flags db db' added (some e) (some ts) none ingestion s grown built = cc
snapshot_accounting at now flags db db' added (some e) (some ts) (some fs) ingestion s grown built =
    let old = map time_of db.transactions in
    let total : s.overview.transaction_count
        ≡ length db.transactions + count (λ (r : TxRow). ltb at r.timestamp) db'.transactions =
      ap (λ (o : Option StreamSnapshot). total_of o) (sym built) in
    let fresh : count (λ (r : TxRow). ltb at r.timestamp) db'.transactions
        ≡ count (ltb at) (old ++ added) =
      count-map (ltb at) db'.transactions ∙ ap (count (ltb at)) grown in
    let size : length db'.transactions ≡ length (old ++ added) =
      sym (length-map time_of db'.transactions) ∙ ap (λ (l : List ℕ). length l) grown in
    omega (
      arith,
      total,
      fresh,
      size,
      count-append (ltb at) old added,
      count-split at added,
      length-append old added,
      length-map time_of db.transactions,
    )
  where
    total_of : Option StreamSnapshot → ℕ
    total_of none = 0
    total_of (some x) = x.overview.transaction_count
