-- ===== src/Client/Stream/Reconnect.antt =====
-- client/eth.go: how the loop waits, what it reports, and which items get through.
use forensic_listener.Prelude.{
  ℕ, zero, suc, ◌+◌, ◌*◌, ◌^◌, ◌≤◌, min, ◌≡◌, refl, ap, ◌∙◌, Bool, true, false, ◌&&◌, not, List, [],
  ◌∷◌, ◌++◌, map, arith, All, All-append,
}
use native.Mathlib.Nat.{pow-suc}
use forensic_listener.Client.Stream.{
  second, max_backoff, PumpEnd, dropped, stopped, Round, refused, opened, Action, emits, reports,
  sleeps, pump, after_pump, stream,
}

module _ {T : Type 0} where
  abbrev pub IsModest : Action T → Type 0
  IsModest (sleeps n) = (second ≤ n) × (n ≤ max_backoff)
  IsModest _ = Unit

  emits-IsModest : (xs : List T) → All IsModest (map emits xs)
  emits-IsModest [] = tt
  emits-IsModest (x ∷ xs) = (tt, emits-IsModest xs)

  after-IsModest :
      (end : PumpEnd) (slept : Bool) (more : List (Action T))
      → All IsModest more
      → All IsModest (after_pump end slept more)
  unfolding after_pump
  after-IsModest stopped slept more h = (tt, tt)
  after-IsModest dropped true more h = (tt, ((omega arith, omega arith), h))
  after-IsModest dropped false more h = (tt, ((omega arith, omega arith), tt))

  -- Every sleep of the loop is between 1 and 30 seconds, whatever the node does.
  pub sleeps_bounded :
      (backoff : ℕ) (rounds : List (Round T))
      → second ≤ backoff
      → backoff ≤ max_backoff
      → All IsModest (stream backoff rounds)
  unfolding stream
  sleeps_bounded backoff [] low high = tt
  sleeps_bounded backoff (refused true ∷ rounds) low high = (
    tt,
    (
      (low, high),
      sleeps_bounded (min (backoff * 2) max_backoff) rounds (omega arith) (omega arith),
    ),
  )
  sleeps_bounded backoff (refused false ∷ rounds) low high = (tt, ((low, high), tt))
  sleeps_bounded backoff (opened events slept ∷ rounds) low high = (
    tt,
    All-append IsModest (map emits (pump events).0) _ (emits-IsModest (pump events).0) (
        after-IsModest (pump events).1 slept _
          (sleeps_bounded second rounds (omega arith) (omega arith))),
  )

  abbrev pub refusals : ℕ → List (Round T)
  refusals zero = []
  refusals (suc k) = refused true ∷ refusals k

  -- The actions of refusals, the i-th of which waits for twice as long as the one before, up to 30
  -- seconds.
  abbrev pub doubling : ℕ → ℕ → List (Action T)
  doubling i zero = []
  doubling i (suc k) =
      reports false ∷ sleeps (min (2 ^ i * second) max_backoff) ∷ doubling (i + 1) k

  refused_from :
      (i k : ℕ) (rounds : List (Round T))
      → stream (min (2 ^ i * second) max_backoff) (refusals k ++ rounds)
        ≡ doubling i k ++ stream (min (2 ^ (i + k) * second) max_backoff) rounds
  unfolding stream
  refused_from i zero rounds = let n : i + zero ≡ i = omega arith in rw n refl
  refused_from i (suc k) rounds =
      let p : 2 ^ (i + 1) ≡ 2 ^ i * 2 = let s : i + 1 ≡ suc i = omega arith in rw s (pow-suc 2 i) in
      let twice : min (min (2 ^ i * second) max_backoff * 2) max_backoff
          ≡ min (2 ^ (i + 1) * second) max_backoff =
        omega (arith, p) in
      let n : i + suc k ≡ i + 1 + k = omega arith in
      ap (λ t. reports false ∷ sleeps (min (2 ^ i * second) max_backoff) ∷ t)
        (ap (λ b. stream b (refusals k ++ rounds)) twice
          ∙ refused_from (i + 1) k rounds
          ∙ rw n refl)

  -- After k refusals in a row the sleeps have been 1, 2, 4 seconds and so on, up to 30.
  pub refused_doubling :
      (k : ℕ) (rounds : List (Round T))
      → stream second (refusals k ++ rounds)
        ≡ doubling 0 k ++ stream (min (2 ^ k * second) max_backoff) rounds
  refused_doubling k rounds = let n : 0 + k ≡ k = omega arith in rw n at (refused_from 0 k rounds)

  -- Whether items are forwarded only between a report of true and the next report of false, and the
  -- last report is of false. The first argument is the state reported last.
  abbrev pub is_bracketed : Bool → List (Action T) → Bool
  is_bracketed up [] = not up
  is_bracketed up (emits x ∷ actions) = up && is_bracketed up actions
  is_bracketed up (reports b ∷ actions) = is_bracketed b actions
  is_bracketed up (sleeps n ∷ actions) = not up && is_bracketed up actions

  emits_bracketed :
      (xs : List T) (actions : List (Action T))
      → is_bracketed true actions ≡ true
      → is_bracketed true (map emits xs ++ actions) ≡ true
  emits_bracketed [] actions h = h
  emits_bracketed (x ∷ xs) actions h = emits_bracketed xs actions h

  after_bracketed :
      (end : PumpEnd) (slept : Bool) (more : List (Action T))
      → is_bracketed false more ≡ true
      → is_bracketed true (after_pump end slept more) ≡ true
  unfolding after_pump
  after_bracketed stopped slept more h = refl
  after_bracketed dropped true more h = h
  after_bracketed dropped false more h = refl

  -- The feed counts as connected exactly while a subscription holds: items come only then, no sleep
  -- falls into that time, and when the loop has ended the last report was of a lost connection.
  pub stream_bracketed :
      (backoff : ℕ) (rounds : List (Round T)) → is_bracketed false (stream backoff rounds) ≡ true
  unfolding stream
  stream_bracketed backoff [] = refl
  stream_bracketed backoff (refused true ∷ rounds) =
      stream_bracketed (min (backoff * 2) max_backoff) rounds
  stream_bracketed backoff (refused false ∷ rounds) = refl
  stream_bracketed backoff (opened events slept ∷ rounds) = emits_bracketed (pump events).0 _ (
      after_bracketed (pump events).1 slept (stream second rounds) (stream_bracketed second rounds))
