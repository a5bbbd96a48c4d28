-- ===== src/Ingestion/Blocks/Tests.antt =====
-- ingestion/blocks.go: tests of the block watcher, and its laws at concrete heads.
use forensic_listener.Prelude.{
  ℕ, Bool, true, Option, some, none, [], ◌∷◌, ◌≡◌, ◌<◌, ◌≤◌, ◌+◌, ◌-◌, max, refl, inr, arith, map,
}
use forensic_listener.Ingestion.Blocks.{
  run_blocks, All, backfill_floor, ingest_range, Head, Request, by_hash, by_number, start_block,
  request_for, on_head, max_block_backfill,
}
use forensic_listener.Ingestion.Blocks.Rising.{AsksAbove, not_retried}
use forensic_listener.Ingestion.Blocks.Backfill.{
  backfill_window, backfill_wraps, no_gap, gap_skips_head, head_requests, numbers_from,
}

abbrev head : ℕ → Head
head n = record { number = n; hash = "h" }

-- A state that counts the blocks that were ingested; the second one fails at every block.
abbrev count : Request → ℕ → Option ℕ
count r s = some (s + 1)

abbrev broken : Request → ℕ → Option ℕ
broken r s = none

abbrev always : ℕ → Bool
always n = true

catches_up :
    on_head count always 100 (head 103) 0
    ≡ (103, 3, by_number 101 ∷ by_number 102 ∷ by_hash "h" ∷ [])
unfolding on_head ingest_range start_block backfill_floor request_for
catches_up = refl

stops_at_failure : on_head broken always 100 (head 103) 0 ≡ (103, 0, by_number 101 ∷ [])
unfolding on_head ingest_range start_block backfill_floor request_for
stops_at_failure = refl

backfill_window_example :
    (start_block 100 200 ≡ max 101 169)
    × (100 < start_block 100 200)
    × (start_block 100 200 ≤ 200)
    × (200 < start_block 100 200 + max_block_backfill)
backfill_window_example =
    backfill_window 100 200 (omega arith) (omega arith) (omega arith) (omega arith)

backfill_wraps_applied : 9 < start_block 3 9
backfill_wraps_applied = backfill_wraps 3 9 (omega arith) (omega arith) (omega arith)

no_gap_applied : start_block 8 9 ≡ 9
no_gap_applied = no_gap 8 9 (inr (omega arith)) (omega arith)

gap_skips_head_example : on_head count always 3 (head 9) 5 ≡ (9, 5, [])
gap_skips_head_example =
    gap_skips_head count always 3 (head 9) 5 (omega arith) (omega arith) (omega arith)

head_requests_example :
    (on_head count always 100 (head 103) 0).2
    ≡ map
        (request_for (head 103))
        (numbers_from (start_block 100 103) (103 + 1 - start_block 100 103))
head_requests_example = head_requests count always 100 (head 103) 0 ((λ n. refl), λ r s. refl)

not_retried_example :
    let (last, s, _) = on_head broken always 100 (head 103) 0 in
    All
      (AsksAbove 103 (head 104 ∷ head 107 ∷ []))
      (run_blocks broken always last (head 104 ∷ head 107 ∷ []) s).2
not_retried_example =
    not_retried broken always 100 (head 103) (head 104 ∷ head 107 ∷ []) 0
      (omega arith, omega arith, (omega arith, omega arith, tt))
