-- ===== src/Ingestion/Blocks/Backfill.antt =====
-- ingestion/blocks.go: which blocks a head makes the watcher fetch, and which it leaves out.
use forensic_listener.Prelude.{
  ℕ, zero, suc, ◌+◌, ◌-◌, ◌≤◌, ◌<◌, max, ◌≡◌, refl, ap, Bool, true, Option, none, some, List, [],
  ◌∷◌, map, arith, ◌⊎◌, is_some,
}
use forensic_listener.Ingestion.Blocks.{
  u64_mod, max_block_backfill, Head, Request, start_block, request_for, ingest_range, on_head,
}

-- From block 31 on, a gap is filled from the block after the last head, or from 31 blocks before
-- the new head where the gap is larger: at most 32 blocks are fetched, all above the last head, and
-- the new head is one of them.
pub backfill_window :
    (last number : ℕ)
    → 1 ≤ last
    → last + 1 < number
    → 31 ≤ number
    → number < u64_mod
    → (start_block last number ≡ max (last + 1) (number - 31))
      × (last < start_block last number)
      × (start_block last number ≤ number)
      × (number < start_block last number + max_block_backfill)
unfolding start_block
backfill_window last number seen gap deep fits = ground arith

-- Below block 31 the subtraction wraps: a gap makes the first block to fetch a number near 2 ^ 64.
pub backfill_wraps :
    (last number : ℕ)
    → 1 ≤ last
    → last + 1 < number
    → number < 31
    → number < start_block last number
unfolding start_block
backfill_wraps last number seen gap shallow = ground arith

-- The first head, a head that follows the last one, and one that does not lie above it make the
-- watcher fetch that head alone.
pub no_gap :
    (last number : ℕ)
    → (last ≡ 0) ⊎ (number ≤ last + 1)
    → last + 1 < u64_mod
    → start_block last number ≡ number
unfolding start_block
no_gap last number h fits = ground arith

module _ {S : Type 0} (attempt : Request → S → Option S) (alive : ℕ → Bool) where
  -- So on such a chain a gap makes the watcher fetch nothing, not even the new head: the state stays
  -- as it was, and the head counts as seen.
  pub gap_skips_head :
      (last : ℕ) (head : Head) (s : S)
      → 1 ≤ last
      → last + 1 < head.number
      → head.number < 31
      → on_head attempt alive last head s ≡ (head.number, s, [])
  unfolding on_head ingest_range
  gap_skips_head last head s seen gap shallow =
      let none_left : head.number + 1 - start_block last head.number ≡ 0 =
        omega (arith, backfill_wraps last head.number seen gap shallow) in
      rw none_left refl

abbrev pub numbers_from : ℕ → ℕ → List ℕ
numbers_from n zero = []
numbers_from n (suc k) = n ∷ numbers_from (n + 1) k

module _ {S : Type 0} (attempt : Request → S → Option S) (alive : ℕ → Bool) where
  -- The context lives, and every fetch and every write succeeds.
  abbrev pub Succeeds : Type 0
  Succeeds = ((n : ℕ) → alive n ≡ true) × ((r : Request) (s : S) → is_some (attempt r s) ≡ true)

  range_requests :
      (rounds : ℕ) (head : Head) (n : ℕ) (s : S)
      → Succeeds
      → (ingest_range attempt alive rounds head n s).1
        ≡ map (request_for head) (numbers_from n rounds)
  unfolding ingest_range
  range_requests zero head n s ok = refl
  range_requests (suc rounds) head n s ok =
      next (attempt (request_for head n) s) (λ t. range_requests rounds head (n + 1) t ok) refl
    where
      next :
          (o : Option S)
          → ((t : S)
              → (ingest_range attempt alive rounds head (n + 1) t).1
                ≡ map (request_for head) (numbers_from (n + 1) rounds))
          → attempt (request_for head n) s ≡ o
          → (ingest_range attempt alive (suc rounds) head n s).1
            ≡ request_for head n ∷ map (request_for head) (numbers_from (n + 1) rounds)
      next none ih e = let t = rw e at (ok.1 (request_for head n) s) in cc
      next (some s') ih e = rw (ok.0 n, e, ingest_range) (ap (λ t. request_for head n ∷ t) (ih s'))

  -- If nothing fails, a head makes the watcher fetch every block from the start up to the head, in
  -- order, each by its number and the head by its hash.
  pub head_requests :
      (last : ℕ) (head : Head) (s : S)
      → Succeeds
      → (on_head attempt alive last head s).2
        ≡ map (request_for head) (
            numbers_from
              (start_block last head.number)
              (head.number + 1 - start_block last head.number))
  unfolding on_head
  head_requests last head s ok = range_requests _ head (start_block last head.number) s ok
