-- ===== src/Client/Stream.antt =====
-- client/eth.go: stream and pump, which keep a subscription alive.
pub mod Reconnect
mod Tests
use forensic_listener.Prelude.{
  ℕ, ◌+◌, ◌*◌, min, Bool, true, false, List, [], ◌∷◌, ◌++◌, map, if◌then◌else◌,
}

-- time.Second and maxBackoff, in milliseconds
abbrev pub second : ℕ
second = 1000

abbrev pub max_backoff : ℕ
max_backoff = 30 * second

-- What pump selects: the context's end, the subscription's error, or an item, which the reader takes
-- unless the context ends first.
pub data Event {ℓ} (T : Type ℓ) : Type ℓ where
  cancelled : Event T
  failed : Event T
  arrives : T → Bool → Event T

pub data PumpEnd : Type 0 where
  dropped stopped : PumpEnd

-- One round of the loop of stream: the node refuses the subscription, or it holds for some events.
-- The Boolean says whether the sleep after it ended before the context.
pub data Round {ℓ} (T : Type ℓ) : Type ℓ where
  refused : Bool → Round T
  opened : List (Event T) → Bool → Round T

-- What the program does: it forwards an item, reports a state, or sleeps.
pub data Action {ℓ} (T : Type ℓ) : Type ℓ where
  emits : T → Action T
  reports : Bool → Action T
  sleeps : ℕ → Action T

module _ {ℓ} {T : Type ℓ} where
  -- pump. A list of events that ends without an end is cut off by the context.
  unfoldable pub pump : List (Event T) → List T × PumpEnd
  pump [] = ([], stopped)
  pump (cancelled ∷ events) = ([], stopped)
  pump (failed ∷ events) = ([], dropped)
  pump (arrives x false ∷ events) = ([], stopped)
  pump (arrives x true ∷ events) = let rest = pump events in (x ∷ rest.0, rest.1)

  unfoldable pub after_pump : PumpEnd → Bool → List (Action T) → List (Action T)
  after_pump stopped slept more = reports false ∷ []
  after_pump dropped slept more = reports false ∷ sleeps second ∷ (if slept then more else [])

  -- stream, from a backoff on. The list of rounds ends when the context has.
  unfoldable pub stream : ℕ → List (Round T) → List (Action T)
  stream backoff [] = []
  stream backoff (refused slept ∷ rounds) =
      let more = stream (min (backoff * 2) max_backoff) rounds in
      reports false ∷ sleeps backoff ∷ (if slept then more else [])
  stream backoff (opened events slept ∷ rounds) =
      let more = stream second rounds in
      let run = pump events in reports true ∷ (map emits run.0 ++ after_pump run.1 slept more)
