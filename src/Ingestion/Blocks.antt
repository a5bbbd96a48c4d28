-- ===== src/Ingestion/Blocks.antt =====
-- ingestion/blocks.go: the block watcher. Block numbers are uint64 and wrap at 2 ^ 64.
pub mod Backfill
pub mod Rising
mod Tests
use forensic_listener.Prelude.{
  ◌%◌, ℕ, zero, suc, ◌+◌, ◌-◌, ◌*◌, ◌^◌, ◌≤◌, ◌<◌, max, min, String, ◌≡◌, ◌≢◌, refl, sym, ap, ◌∙◌,
  Bool, true, false, ◌||◌, ◌&&◌, not, Option, none, some, List, [], ◌∷◌, ◌++◌, map, arith, ◌==◌,
  ==_iff, ltb, leb, length, take, str_eq, eq_iff, eq_refl, if◌then◌else◌, any, keep, All,
  All-append, Bool-cases, Option-cases, inl, inr, ◌⊎◌, is_some,
}

abbrev pub u64_mod : ℕ
u64_mod = 2 ^ 64

abbrev pub u64 : ℕ → ℕ
u64 n = n % u64_mod

abbrev pub max_block_backfill : ℕ
max_block_backfill = 32

pub record Head : Type 0 where
  pub number : ℕ
  pub hash : String

-- BlockByHash(head.Hash()) and BlockByNumber(n)
pub data Request : Type 0 where
  by_hash : String → Request
  by_number : ℕ → Request

-- `number-maxBlockBackfill+1`
unfoldable pub backfill_floor : ℕ → ℕ
backfill_floor number = u64 (u64 (number + u64_mod - max_block_backfill) + 1)

-- The first block that a head makes the watcher fetch.
unfoldable pub start_block : ℕ → ℕ → ℕ
unfolding backfill_floor
start_block last number =
    if not (last == 0) && ltb (u64 (last + 1)) number
    then max (u64 (last + 1)) (backfill_floor number)
    else number

unfoldable pub request_for : Head → ℕ → Request
request_for head n = if n == head.number then by_hash head.hash else by_number n

-- `attempt` fetches a block and ingests it, and is `none` where either fails; `alive n` says whether
-- the context is still alive when the loop gets to block n.
module _ {S : Type 0} (attempt : Request → S → Option S) (alive : ℕ → Bool) where
  abbrev pub Run : Type 0
  Run = S × List Request

  -- The loop `for n := start; n <= number && ctx.Err() == nil; n++`, with the rounds that it has
  -- left, and the requests that it makes.
  unfoldable pub ingest_range : ℕ → Head → ℕ → S → S × List Request
  ingest_range zero head n s = (s, [])
  ingest_range (suc rounds) head n s = elim (alive n) [
    | false ↦ (s, [])
    | true ↦ elim (attempt (request_for head n) s) [
      | none ↦ (s, request_for head n ∷ [])
      | some s' ↦
          let rest = ingest_range rounds head (n + 1) s' in (rest.0, request_for head n ∷ rest.1)
    ]
  ]

  -- One round of the loop over the heads: the state, the requests, and the new `last`.
  unfoldable pub on_head : ℕ → Head → S → ℕ × S × List Request
  on_head last head s =
      let start = start_block last head.number in
      let run = ingest_range (head.number + 1 - start) head start s in (head.number, run.0, run.1)

  -- runBlocks, from `last` on.
  unfoldable pub run_blocks : ℕ → List Head → S → ℕ × S × List Request
  run_blocks last [] s = (last, s, [])
  run_blocks last (head ∷ heads) s =
      let (last', s', requests) = on_head last head s in
      let (last'', s'', more) = run_blocks last' heads s' in (last'', s'', requests ++ more)
