-- ===== src/Store/Postgres/Retries/Tests.antt =====
-- store/postgres.go: tests of withTx, and its laws at two conflicts.
use forensic_listener.Prelude.{ℕ, ◌+◌, ◌≤◌, ◌<◌, ◌≡◌, refl, Bool, true, arith, leb, if◌then◌else◌}
use forensic_listener.Store.Fixtures.{empty_db}
use forensic_listener.Store.Postgres.{DbResult, committed, aborted, deadlock, foreign_key}
use forensic_listener.Store.Postgres.Retries.{
  attempts, with_tx, is_conflict, with_tx_bounded, with_tx_settles,
}

-- Two deadlocks, and then a commit.
abbrev flaky : ℕ → DbResult
flaky n = if leb n 2 then aborted deadlock else committed empty_db

abbrev always : ℕ → Bool
always n = true

never : with_tx (λ n. aborted deadlock) always always ≡ (aborted deadlock, 5)
unfolding with_tx attempts
never = refl

at_once : with_tx (λ n. aborted foreign_key) always always ≡ (aborted foreign_key, 1)
unfolding with_tx attempts
at_once = refl

before : (i : ℕ) → i < 2 → is_conflict (flaky (1 + i)) ≡ true
before i h = ground arith

with_tx_bounded_applied :
    (1 ≤ (with_tx flaky always always).1) × ((with_tx flaky always always).1 ≤ 5)
with_tx_bounded_applied = with_tx_bounded flaky always always

with_tx_settles_applied : with_tx flaky always always ≡ (committed empty_db, 3)
with_tx_settles_applied =
    with_tx_settles flaky always always 2 (omega arith) before (λ i. refl) (λ i. refl) refl
