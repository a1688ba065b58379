-- ===== src/Frontend/Backoff/Tests.antt =====
-- frontend/src/lib/horizonBackoff.ts polling every second.
use opauque_stellar.Base.{◌≡◌, refl, arith, false, List, [], ◌∷◌}
use opauque_stellar.Frontend.Backoff.{
  new_backoff, jittered_interval, get_state, record_success, record_failure,
}
use opauque_stellar.Frontend.Backoff.Laws.{
  Event, succeeded, failed, replay, IsPaced, get_state-tells,
}

abbrev past : List Event
past = failed 0 30 ∷ failed 0 20 ∷ succeeded 0 10 ∷ []

get_state-tells_example :
    let s = get_state 0 (replay 1000 past) in
    (s.consecutive_failures ≡ 2)
    × (s.last_request_succeeded ≡ false)
    × IsPaced 1000 2 s.current_interval_ms
get_state-tells_example =
    get_state-tells 1000 40 0 past (omega arith)
      (omega arith, (omega arith, (omega arith, omega arith)))

-- With the smallest random number, two failures give 2800 ms.
two_failures : (get_state 0 (replay 1000 past)).current_interval_ms ≡ 2800
unfolding get_state replay new_backoff record_success record_failure jittered_interval
two_failures = refl

-- A success in the millisecond of a failure is not reported.
same_millisecond :
    (get_state 0 (replay 1000 (succeeded 0 5 ∷ failed 0 5 ∷ []))).last_request_succeeded ≡ false
unfolding get_state replay new_backoff record_success record_failure
same_millisecond = refl
