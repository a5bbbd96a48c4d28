-- ===== src/Ingestion/Feeds/Upkeep.antt =====
-- ingestion/maintenance.go: what a round of maintenance may take away, and what it must not.
use forensic_listener.Prelude.{
  ℕ, zero, suc, ◌+◌, ◌*◌, ◌≤◌, String, ◌≡◌, refl, ap, Bool, true, false, ◌&&◌, not, Option, none,
  some, List, [], ◌∷◌, arith, if◌then◌else◌, keep, length, length-take, Bool-cases, inl, inr, take,
}
use forensic_listener.Models.{dropped}
use forensic_listener.Store.Postgres.{Db}
use forensic_listener.Store.Postgres.Transactions.{TxRow, find_tx, mark_dropped, is_expired}
use forensic_listener.Store.Postgres.Transactions.Rows.{map_row, find-map}
use forensic_listener.Store.Postgres.Queue.{Job, is_done, is_finished_before, prune, prune_batch}
use forensic_listener.Ingestion.Feeds.{Status, heads_recently, one_minute, dropped_after, maintain}

-- The row of a hash after mark_dropped.
abbrev pub drop_row : ℕ → ℕ → TxRow → TxRow
drop_row now older_than r = if is_expired now older_than r then record r { status = dropped } else r

find-mark_dropped :
    (now older_than : ℕ) (h : String) (rows : List TxRow)
    → find_tx h (mark_dropped now older_than rows).0
      ≡ map_row (drop_row now older_than) (find_tx h rows)
unfolding mark_dropped
find-mark_dropped now older_than h rows =
    find-map (drop_row now older_than) (λ r. ground arith) h rows

-- Without a head in the last five minutes no transaction changes. With one, a row changes only if it
-- is pending and was seen more than three hours ago, and then it is dropped.
pub maintain_rows :
    (now : ℕ) (prune_fails drop_fails : Bool) (s : Status) (db : Db) (h : String)
    → find_tx h (maintain now prune_fails drop_fails s db).transactions
      ≡ map_row
          (λ r.
            if heads_recently now (5 * one_minute) s && not drop_fails
            then drop_row now dropped_after r
            else r)
          (find_tx h db.transactions)
unfolding maintain
maintain_rows now prune_fails drop_fails s db h =
    elim (Bool-cases (heads_recently now (5 * one_minute) s && not drop_fails)) [
      | inl live ↦ elim (Bool-cases prune_fails) [
        | inl p ↦ rw (live, p) (find-mark_dropped now dropped_after h db.transactions)
        | inr p ↦ rw (live, p) (find-mark_dropped now dropped_after h db.transactions)
      ]
      | inr idle ↦ elim (Bool-cases prune_fails) [
        | inl p ↦ rw (idle, p) (same (find_tx h db.transactions))
        | inr p ↦ rw (idle, p) (same (find_tx h db.transactions))
      ]
    ]
  where
    same : (o : Option TxRow) → o ≡ map_row (λ r. r) o
    same none = unfold map_row in refl
    same (some r) = unfold map_row in refl

pruned_count :
    (batch : ℕ) (p : Job → Bool) (jobs : List Job)
    → length (prune_batch batch p jobs) + length (take batch (keep p jobs)) ≡ length jobs
unfolding prune_batch
pruned_count zero p [] = omega arith
pruned_count (suc batch) p [] = omega arith
pruned_count zero p (j ∷ jobs) = omega arith
pruned_count (suc batch) p (j ∷ jobs) = elim (Bool-cases (p j)) [
  | inl gone ↦ rw gone (omega (arith, pruned_count batch p jobs))
  | inr out ↦ rw out (omega (arith, pruned_count (suc batch) p jobs))
]

open_unfinished :
    (now older_than : ℕ) (j : Job)
    → not (is_done j.status) ≡ true
    → is_finished_before now older_than j ≡ false
open_unfinished now older_than j h = ground arith

kept_open :
    (batch : ℕ) (p q : Job → Bool) (jobs : List Job)
    → ((j : Job) → q j ≡ true → p j ≡ false)
    → keep q (prune_batch batch p jobs) ≡ keep q jobs
unfolding prune_batch
kept_open batch p q [] apart = refl
kept_open zero p q (j ∷ jobs) apart = refl
kept_open (suc batch) p q (j ∷ jobs) apart = elim (Bool-cases (p j)) [
  | inr out ↦ elim (Bool-cases (q j)) [
    | inl k ↦ rw (out, k) (ap (λ t. j ∷ t) (kept_open (suc batch) p q jobs apart))
    | inr k ↦ rw (out, k) (kept_open (suc batch) p q jobs apart)
  ]
  | inl gone ↦ elim (Bool-cases (q j)) [
    | inl k ↦ cc (apart j k)
    | inr k ↦ rw (gone, k) (kept_open batch p q jobs apart)
  ]
]

-- Pruning removes exactly as many rows as it reports, at most 10000, and keeps every job that is not
-- done, in its place.
pub prune_keeps :
    (now older_than : ℕ) (jobs : List Job)
    → (length (prune now older_than jobs).0 + (prune now older_than jobs).1 ≡ length jobs)
      × ((prune now older_than jobs).1 ≤ 10000)
      × (keep (λ (j : Job). not (is_done j.status)) (prune now older_than jobs).0
          ≡ keep (λ (j : Job). not (is_done j.status)) jobs)
unfolding prune
prune_keeps now older_than jobs = (
  pruned_count 10000 (is_finished_before now older_than) jobs,
  omega (arith, length-take 10000 (keep (is_finished_before now older_than) jobs)),
  kept_open 10000 (is_finished_before now older_than) (λ j. not (is_done j.status)) jobs
      (open_unfinished now older_than),
)
