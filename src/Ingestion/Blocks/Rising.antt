-- ===== src/Ingestion/Blocks/Rising.antt =====
-- ingestion/blocks.go: what the watcher asks for while the heads rise.
use forensic_listener.Prelude.{
  ℕ, zero, suc, ◌+◌, ◌≤◌, ◌<◌, ◌≡◌, refl, sym, Bool, true, false, Option, none, some, List, [], ◌∷◌,
  ◌++◌, arith, any, All, str_eq, ltb, ◌&&◌, ◌==◌, eq_refl, Bool-cases, inl, inr,
}
use mathlib.Core.Path.{subst}
use forensic_listener.Ingestion.Blocks.{
  u64_mod, Head, Request, by_hash, by_number, start_block, request_for, ingest_range, on_head,
  run_blocks,
}

-- Each head lies above the one before it, the first above `last`.
abbrev pub Rising : ℕ → List Head → Type 0
Rising last [] = Unit
Rising last (head ∷ heads) =
    (last < head.number) × (head.number < u64_mod) × Rising head.number heads

-- The request asks for a block above `bound`: by a number above it, or by the hash of such a head.
abbrev pub AsksAbove : ℕ → List Head → Request → Type 0
AsksAbove bound heads (by_number n) = bound < n
AsksAbove bound heads (by_hash h) =
    any (λ (k : Head). ltb bound k.number && str_eq k.hash h) heads ≡ true

start_above : (last number : ℕ) → last < number → number < u64_mod → last < start_block last number
unfolding start_block
start_above last number above fits = ground arith

AsksAbove-more :
    (bound : ℕ) (head : Head) (heads : List Head) (rs : List Request)
    → All (AsksAbove bound heads) rs
    → All (AsksAbove bound (head ∷ heads)) rs
AsksAbove-more bound head heads [] a = tt
AsksAbove-more bound head heads (by_number n ∷ rs) a = (a.0, AsksAbove-more bound head heads rs a.1)
AsksAbove-more bound head heads (by_hash h ∷ rs) a =
    (ground (arith, a.0), AsksAbove-more bound head heads rs a.1)

append_all : (P : Request → Type 0) (xs ys : List Request) → All P xs → All P ys → All P (xs ++ ys)
append_all P [] ys p q = q
append_all P (x ∷ xs) ys p q = (p.0, append_all P xs ys p.1 q)

request_above :
    (bound n : ℕ) (head : Head) (heads : List Head)
    → bound < n
    → AsksAbove bound (head ∷ heads) (request_for head n)
unfolding request_for
request_above bound n head heads above = elim (Bool-cases (n == head.number)) [
  | inl same ↦ rw same (rw (eq_refl head.hash) (ground arith))
  | inr other ↦ rw other above
]

module _ {S : Type 0} (attempt : Request → S → Option S) (alive : ℕ → Bool) where
  range_above :
      (rounds bound n : ℕ) (head : Head) (heads : List Head) (s : S)
      → bound < n
      → All (AsksAbove bound (head ∷ heads)) (ingest_range attempt alive rounds head n s).1
  unfolding ingest_range
  range_above zero bound n head heads s above = tt
  range_above (suc rounds) bound n head heads s above =
      go (alive n) (attempt (request_for head n) s)
        (λ t. range_above rounds bound (n + 1) head heads t (omega arith)) refl refl
    where
      go :
          (b : Bool) (o : Option S)
          → ((t : S)
              → All
                  (AsksAbove bound (head ∷ heads))
                  (ingest_range attempt alive rounds head (n + 1) t).1)
          → alive n ≡ b
          → attempt (request_for head n) s ≡ o
          → All
              (AsksAbove bound (head ∷ heads))
              (ingest_range attempt alive (suc rounds) head n s).1
      go false o ih e f =
          let q : (ingest_range attempt alive (suc rounds) head n s).1 ≡ [] =
            rw (e, ingest_range) refl in
          subst (All (AsksAbove bound (head ∷ heads))) (sym q) tt
      go true none ih e f =
          let q : (ingest_range attempt alive (suc rounds) head n s).1 ≡ request_for head n ∷ [] =
            rw (e, f, ingest_range) refl in
          subst (All (AsksAbove bound (head ∷ heads))) (sym q)
            (request_above bound n head heads above, tt)
      go true (some t) ih e f =
          let q : (ingest_range attempt alive (suc rounds) head n s).1
              ≡ request_for head n ∷ (ingest_range attempt alive rounds head (n + 1) t).1 =
            rw (e, f, ingest_range) refl in
          subst (All (AsksAbove bound (head ∷ heads))) (sym q)
            (request_above bound n head heads above, ih t)

  Rising-above :
      (bound last : ℕ) (heads : List Head) (s : S)
      → bound ≤ last
      → Rising last heads
      → All (AsksAbove bound heads) (run_blocks attempt alive last heads s).2
  unfolding run_blocks on_head
  Rising-above bound last [] s le rising = tt
  Rising-above bound last (head ∷ heads) s le (above, fits, rising) =
      append_all (AsksAbove bound (head ∷ heads)) _ _
        (range_above _ bound (start_block last head.number) head heads s
          (omega (arith, start_above last head.number above fits)))
        (AsksAbove-more bound head heads _
          (Rising-above bound head.number heads _ (omega arith) rising))

  -- A head counts as seen whatever failed before. As long as each later head lies above the one before
  -- it and below 2 ^ 64, the watcher asks only for blocks above that head, by number or as a later head
  -- by its hash: the head and the blocks below it, those whose fetch or write failed and those that were
  -- left behind them included, are not asked for again.
  pub not_retried :
      (last : ℕ) (head : Head) (heads : List Head) (s : S)
      → Rising head.number heads
      → let (last', s', _) = on_head attempt alive last head s in
        All (AsksAbove head.number heads) (run_blocks attempt alive last' heads s').2
  unfolding on_head
  not_retried last head heads s rising =
      Rising-above head.number head.number heads _ (omega arith) rising
