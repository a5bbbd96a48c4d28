-- ===== src/Store/Postgres/Retries.antt =====
-- store/postgres.go: withTx, which runs a transaction again that PostgreSQL has aborted.
mod Tests
use forensic_listener.Prelude.{
  ℕ, zero, suc, ◌+◌, ◌-◌, ◌≤◌, ◌<◌, String, ◌≡◌, ◌≢◌, refl, sym, ap, ◌∙◌, Bool, true, false, ◌&&◌,
  ◌||◌, not, arith, ◌==◌, if◌then◌else◌, Bool-cases, inl, inr,
}
use forensic_listener.Store.Postgres.{
  Db, DbError, deadlock, serialization, cardinality, foreign_key, unreachable, DbResult, committed,
  aborted,
}

-- isRetryable: the codes 40P01 and 40001
abbrev pub is_retryable : DbError → Bool
is_retryable deadlock = true
is_retryable serialization = true
is_retryable _ = false

abbrev pub max_tx_attempts : ℕ
max_tx_attempts = 5

abbrev pub context_ended : DbResult
context_ended = aborted (unreachable "context canceled")

abbrev pub is_conflict : DbResult → Bool
is_conflict (committed db) = false
is_conflict (aborted e) = is_retryable e

-- The attempts one after another: `attempt` runs the transaction from scratch, `alive` says whether
-- the context is alive after an attempt, and `slept` whether the pause behind it was not cut short.
module _ (attempt : ℕ → DbResult) (alive slept : ℕ → Bool) where
  -- `left` attempts are left behind this one. Also how many attempts have been made.
  unfoldable pub attempts : ℕ → ℕ → DbResult × ℕ
  attempts zero n = (attempt n, n)
  attempts (suc left) n = next (attempt n) (attempts left (n + 1))
    where
      next : DbResult → DbResult × ℕ → DbResult × ℕ
      next (committed db) more = (committed db, n)
      next (aborted e) more =
          if is_retryable e && alive n
          then if slept n then more else (context_ended, n)
          else (aborted e, n)

  -- withTx
  unfoldable pub with_tx : DbResult × ℕ
  with_tx = attempts (max_tx_attempts - 1) 1

  attempts_range : (left n : ℕ) → (n ≤ (attempts left n).1) × ((attempts left n).1 ≤ n + left)
  unfolding attempts
  attempts_range zero n = (omega arith, omega arith)
  attempts_range (suc left) n = next (attempt n) (attempts_range left (n + 1)) refl
    where
      next :
          (r : DbResult)
          → (n + 1 ≤ (attempts left (n + 1)).1) × ((attempts left (n + 1)).1 ≤ n + 1 + left)
          → attempt n ≡ r
          → (n ≤ (attempts (suc left) n).1) × ((attempts (suc left) n).1 ≤ n + suc left)
      next (committed db) ih e = rw e (omega arith, omega arith)
      next (aborted x) ih e = elim (Bool-cases (is_retryable x && alive n)) [
        | inr stop ↦ rw (e, stop) (omega arith, omega arith)
        | inl go ↦ elim (Bool-cases (slept n)) [
          | inl s ↦ rw (e, go, s) (omega (arith, ih.0), omega (arith, ih.1))
          | inr s ↦ rw (e, go, s) (omega arith, omega arith)
        ]
      ]

  -- At least one and at most five attempts are made.
  pub with_tx_bounded : (1 ≤ with_tx.1) × (with_tx.1 ≤ 5)
  unfolding with_tx
  with_tx_bounded = let r = attempts_range 4 1 in (r.0, omega (arith, r.1))

  stops_here :
      (left n : ℕ) (r : DbResult) → attempt n ≡ r → is_conflict r ≡ false → attempts left n ≡ (r, n)
  unfolding attempts
  stops_here zero n r e c = rw e refl
  stops_here (suc left) n (committed db) e c = rw e refl
  stops_here (suc left) n (aborted x) e c = rw (e, c) refl

  goes_on :
      (left n : ℕ) (r : DbResult)
      → attempt n ≡ r
      → is_conflict r ≡ true
      → alive n ≡ true
      → slept n ≡ true
      → attempts (suc left) n ≡ attempts left (n + 1)
  unfolding attempts
  goes_on left n (committed db) e c up down = cc
  goes_on left n (aborted x) e c up down = rw (e, c, up, down) refl

  settles_from :
      (k left n : ℕ)
      → k ≤ left
      → ((i : ℕ) → i < k → is_conflict (attempt (n + i)) ≡ true)
      → ((i : ℕ) → alive i ≡ true)
      → ((i : ℕ) → slept i ≡ true)
      → is_conflict (attempt (n + k)) ≡ false
      → attempts left n ≡ (attempt (n + k), n + k)
  settles_from zero left n fits before up down stop =
      let z : n + zero ≡ n = omega arith in rw z (stops_here left n (attempt n) refl (rw z at stop))
  settles_from (suc k) zero n fits before up down stop = absurd (omega arith)
  settles_from (suc k) (suc left) n fits before up down stop =
      let z : n + 0 ≡ n = omega arith in
      let s : n + suc k ≡ n + 1 + k = omega arith in
      let first = rw z at (before 0 (omega arith)) in
      let rest =
        settles_from k left (n + 1) (omega arith)
          (λ i h.
            let q : n + 1 + i ≡ n + suc i = omega arith in rw q (before (suc i) (omega arith)))
          up down (rw s at stop) in
      goes_on left n (attempt n) refl first (up n) (down n) ∙ rw s rest

  -- While the context lives, the first of five attempts that PostgreSQL does not abort for a conflict
  -- decides: its commit, or its error, is the result, and no later attempt is made.
  pub with_tx_settles :
      (k : ℕ)
      → k < 5
      → ((i : ℕ) → i < k → is_conflict (attempt (1 + i)) ≡ true)
      → ((i : ℕ) → alive i ≡ true)
      → ((i : ℕ) → slept i ≡ true)
      → is_conflict (attempt (1 + k)) ≡ false
      → with_tx ≡ (attempt (1 + k), 1 + k)
  unfolding with_tx
  with_tx_settles k fits before up down stop = settles_from k 4 1 (omega arith) before up down stop
