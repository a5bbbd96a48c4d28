-- ===== src/Client/Stream/Tests.antt =====
-- client/eth.go: tests of the loop, and its laws at a few rounds.
use forensic_listener.Prelude.{
  ℕ, ◌*◌, ◌^◌, min, ◌≡◌, refl, true, false, List, [], ◌∷◌, ◌++◌, arith, All,
}
use forensic_listener.Client.Stream.{
  second, max_backoff, Round, refused, opened, arrives, failed, cancelled, emits, reports, sleeps,
  pump, after_pump, stream,
}
use forensic_listener.Client.Stream.Reconnect.{
  IsModest, sleeps_bounded, refusals, doubling, refused_doubling, is_bracketed, stream_bracketed,
}

abbrev rounds : List (Round ℕ)
rounds =
    refused true
    ∷ opened (arrives 7 true ∷ arrives 8 true ∷ failed ∷ []) true
    ∷ opened (cancelled ∷ []) true
    ∷ []

runs :
    stream second rounds
    ≡ reports false
      ∷ sleeps 1000
      ∷ reports true
      ∷ emits 7
      ∷ emits 8
      ∷ reports false
      ∷ sleeps 1000
      ∷ reports true
      ∷ reports false
      ∷ []
unfolding stream pump after_pump
runs = refl

sleeps_bounded_applied : All IsModest (stream second rounds)
sleeps_bounded_applied = sleeps_bounded second rounds (omega arith) (omega arith)

refused_doubling_applied :
    stream second (refusals 6 ++ rounds)
    ≡ doubling 0 6 ++ stream (min (2 ^ 6 * second) max_backoff) rounds
refused_doubling_applied = refused_doubling 6 rounds

stream_bracketed_example : is_bracketed false (stream second rounds) ≡ true
stream_bracketed_example = stream_bracketed second rounds
