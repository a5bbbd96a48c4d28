-- ===== src/Store/Postgres/Transactions/Rows.antt =====
-- store/postgres.go: how the statements on the transactions table act on the row of one hash.
use forensic_listener.Models.{replaced}
use forensic_listener.Prelude.{
  ℕ, ◌&&◌, any, String, ◌≡◌, refl, false, Option, none, some, List, [], ◌∷◌, ◌++◌, map, arith,
  str_eq, eq_iff, if◌then◌else◌,
}
use forensic_listener.Store.Postgres.Transactions.{
  TxRow, has_tx, has_duplicates, find_tx, is_pending, is_superseded, in_block, unmine, revert_block,
  mark_replaced, upsert_mined_all, promote, upsert_mined,
}

unfoldable pub map_row : (TxRow → TxRow) → Option TxRow → Option TxRow
map_row f none = none
map_row f (some r) = some (f r)

-- What ON CONFLICT makes of the row that was there.
unfoldable pub merge_row : TxRow → Option TxRow → TxRow
merge_row m none = m
merge_row m (some r) = promote m r

pub find-map :
    (f : TxRow → TxRow)
    → ((r : TxRow) → (f r).hash ≡ r.hash)
    → (h : String) (rows : List TxRow) → find_tx h (map f rows) ≡ map_row f (find_tx h rows)
unfolding find_tx map_row
find-map f keeps h [] = refl
find-map f keeps h (r ∷ rows) = ground (arith, keeps r, find-map f keeps h rows)

pub find-upsert :
    (m : TxRow) (h : String) (rows : List TxRow)
    → find_tx h (upsert_mined m rows)
      ≡ (if str_eq m.hash h then some (merge_row m (find_tx m.hash rows)) else find_tx h rows)
unfolding find_tx upsert_mined merge_row
find-upsert m h [] = refl
find-upsert m h (r ∷ rows) =
    ground (arith, eq_iff r.hash m.hash, eq_iff r.hash h, eq_iff m.hash h, find-upsert m h rows)

pub find-append :
    (m : TxRow) (h : String) (rows : List TxRow)
    → find_tx m.hash rows ≡ none
    → find_tx h (rows ++ m ∷ []) ≡ (if str_eq m.hash h then some m else find_tx h rows)
unfolding find_tx
find-append m h [] e = refl
find-append m h (r ∷ rows) e =
    ground (arith, eq_iff r.hash m.hash, eq_iff r.hash h, eq_iff m.hash h, find-append m h rows)

pub has-find : (h : String) (rows : List TxRow) → has_tx h rows ≡ false → find_tx h rows ≡ none
unfolding find_tx has_tx
has-find h [] e = refl
has-find h (r ∷ rows) e = ground (arith, has-find h rows)

pub find-has : (h : String) (rows : List TxRow) → find_tx h rows ≡ none → has_tx h rows ≡ false
unfolding find_tx has_tx
find-has h [] e = refl
find-has h (r ∷ rows) e = ground (arith, find-has h rows)

-- A row found under a hash carries it.
pub find-hash : (h : String) (rows : List TxRow) {r : TxRow} → find_tx h rows ≡ some r → r.hash ≡ h
unfolding find_tx
find-hash h [] e = cc
find-hash h (r ∷ rows) {r = found} e = ground (arith, eq_iff r.hash h, find-hash h rows {r = found})

-- What a list of mined rows makes of the row of one hash.
unfoldable pub merge_rows : Option TxRow → Option TxRow → Option TxRow
merge_rows none o = o
merge_rows (some m) o = some (merge_row m o)

abbrev pub hashes : List TxRow → List String
hashes = map (λ (r : TxRow). r.hash)

find-none_of_fresh :
    (h : String) (ms : List TxRow) → any (λ k. str_eq k h) (hashes ms) ≡ false → find_tx h ms ≡ none
unfolding find_tx
find-none_of_fresh h [] e = refl
find-none_of_fresh h (m ∷ ms) e = ground (arith, find-none_of_fresh h ms)

pub find-upsert_all :
    (ms : List TxRow) (h : String) (rows : List TxRow)
    → has_duplicates (hashes ms) ≡ false
    → find_tx h (upsert_mined_all ms rows) ≡ merge_rows (find_tx h ms) (find_tx h rows)
unfolding find_tx upsert_mined_all has_duplicates merge_rows
find-upsert_all [] h rows e = refl
find-upsert_all (m ∷ ms) h rows e = ground (
  arith,
  eq_iff m.hash h,
  find-upsert m h rows,
  find-none_of_fresh m.hash ms,
  find-upsert_all ms h (upsert_mined m rows),
)

-- What mark_replaced does to one row.
unfoldable pub replace_row : List TxRow → TxRow → TxRow
replace_row ms r =
    if is_pending r.status && is_superseded ms r then record r { status = replaced } else r

pub find-mark_replaced :
    (ms : List TxRow) (h : String) (rows : List TxRow)
    → find_tx h (mark_replaced ms rows) ≡ map_row (replace_row ms) (find_tx h rows)
unfolding mark_replaced replace_row
find-mark_replaced ms h rows = find-map (replace_row ms) (λ r. ground arith) h rows

-- What revert_block does to one row.
unfoldable pub revert_row : ℕ → TxRow → TxRow
revert_row n r = if in_block n r.block_number then unmine r else r

pub find-revert_block :
    (n : ℕ) (h : String) (rows : List TxRow)
    → find_tx h (revert_block n rows) ≡ map_row (revert_row n) (find_tx h rows)
unfolding revert_block revert_row
find-revert_block n h rows = find-map (revert_row n) (λ r. ground arith) h rows
