-- ===== src/Frontend/Backoff/Laws.antt =====
-- AdaptiveBackoff of frontend/src/lib/horizonBackoff.ts: what its state tells of the past requests.
use native.Mathlib.Nat.{mul-le-mul}
use opauque_stellar.Base.{
  ℕ, zero, suc, ◌+◌, ◌*◌, ◌^◌, ◌≤◌, ◌<◌, ◌≡◌, refl, min, Bool, true, false, Option, none, some,
  List, [], ◌∷◌, arith, ltb, subst,
}
use opauque_stellar.Frontend.Backoff.{
  AdaptiveBackoff, new_backoff, jittered_interval, or_zero, is_later, get_state, record_success,
  record_failure, reset,
}

-- An event with its random number, and its time where it has one.
pub data Event : Type 0 where
  succeeded failed : ℕ → ℕ → Event
  cleared : ℕ → Event

abbrev pub step : Event → AdaptiveBackoff → AdaptiveBackoff
step (succeeded random now) b = (record_success random now b).1
step (failed random now) b = (record_failure random now b).1
step (cleared random) b = (reset random b).1

-- The newest event is the first of the list.
unfoldable pub replay : ℕ → List Event → AdaptiveBackoff
replay base [] = new_backoff base
replay base (e ∷ past) = step e (replay base past)

abbrev pub failures_in_a_row : List Event → ℕ
failures_in_a_row (failed random now ∷ past) = suc (failures_in_a_row past)
failures_in_a_row _ = 0

abbrev pub has_succeeded : List Event → Bool
has_succeeded (succeeded random now ∷ past) = true
has_succeeded _ = false

-- The events are before `now`, and each is after the ones behind it.
abbrev pub IsBefore : ℕ → List Event → Type 0
IsBefore now [] = 0 < now
IsBefore now (succeeded random t ∷ past) = (t < now) × IsBefore t past
IsBefore now (failed random t ∷ past) = (t < now) × IsBefore t past
IsBefore now (cleared random ∷ past) = IsBefore now past

abbrev IsHeld : ℕ → AdaptiveBackoff → Type 0
IsHeld now b = (or_zero b.last_failure_at < now) × (or_zero b.last_success_at < now)

IsBefore-positive : (now : ℕ) (past : List Event) → IsBefore now past → 0 < now
IsBefore-positive now [] h = h
IsBefore-positive now (succeeded random t ∷ past) h = omega (arith, h.0)
IsBefore-positive now (failed random t ∷ past) h = omega (arith, h.0)
IsBefore-positive now (cleared random ∷ past) h = IsBefore-positive now past h

replay-IsHeld :
    (base now : ℕ) (past : List Event) → IsBefore now past → IsHeld now (replay base past)
unfolding replay new_backoff record_success record_failure reset
replay-IsHeld base now [] h = (h, h)
replay-IsHeld base now (succeeded random t ∷ past) h =
    let held = replay-IsHeld base t past h.1 in (omega (arith, held.0, h.0), h.0)
replay-IsHeld base now (failed random t ∷ past) h =
    let held = replay-IsHeld base t past h.1 in (h.0, omega (arith, held.1, h.0))
replay-IsHeld base now (cleared random ∷ past) h =
    (IsBefore-positive now past h, IsBefore-positive now past h)

-- Behind a failure no success is later.
is_later_not :
    (success : Option ℕ) (now : ℕ) → or_zero success < now → is_later success (some now) ≡ false
is_later_not none now h = refl
is_later_not (some t) now h = ground (arith, h)

replay-is_later :
    (base now : ℕ) (past : List Event)
    → IsBefore now past
    → is_later (replay base past).last_success_at (replay base past).last_failure_at
      ≡ has_succeeded past
unfolding replay new_backoff record_success record_failure reset
replay-is_later base now [] h = refl
replay-is_later base now (succeeded random t ∷ past) h =
    ground (arith, (replay-IsHeld base t past h.1).0)
replay-is_later base now (failed random t ∷ past) h =
    is_later_not (replay base past).last_success_at t (replay-IsHeld base t past h.1).1
replay-is_later base now (cleared random ∷ past) h = refl

replay-failures :
    (base : ℕ) (past : List Event)
    → (replay base past).consecutive_failures ≡ failures_in_a_row past
unfolding replay new_backoff record_success record_failure reset
replay-failures base [] = refl
replay-failures base (succeeded random t ∷ past) = refl
replay-failures base (failed random t ∷ past) = rw (replay-failures base past) refl
replay-failures base (cleared random ∷ past) = refl

replay-base : (base : ℕ) (past : List Event) → (replay base past).base_interval_ms ≡ base
unfolding replay new_backoff record_success record_failure reset
replay-base base [] = refl
replay-base base (succeeded random t ∷ past) = replay-base base past
replay-base base (failed random t ∷ past) = replay-base base past
replay-base base (cleared random ∷ past) = replay-base base past

-- From seven to thirteen tenths of an interval, up to rounding.
abbrev pub IsAround : ℕ → ℕ → Type 0
IsAround interval d = (7 * interval ≤ 10 * d + 5) × (10 * d ≤ 13 * interval + 5)

jittered_interval-IsAround :
    (interval random : ℕ) → random < 2 ^ 53 → IsAround interval (jittered_interval interval random)
unfolding jittered_interval
jittered_interval-IsAround x r h = (ground (arith, product x r h), ground (arith, product x r h))
  where
    product :
        (x r : ℕ)
        → r < 2 ^ 53
        → (x * (7 * 2 ^ 53) ≤ x * (7 * 2 ^ 53 + 6 * r))
          × (x * (7 * 2 ^ 53 + 6 * r) ≤ x * (13 * 2 ^ 53))
    product x r h = (mul-le-mul (omega arith) (omega arith), mul-le-mul (omega arith) (omega arith))

-- The base interval without failures, else the one doubled for each of them, six times at most.
abbrev pub IsPaced : ℕ → ℕ → ℕ → Type 0
IsPaced base zero d = d ≡ base
IsPaced base (suc n) d = IsAround (base * 2 ^ min (suc n) 6) d

get_state-IsPaced :
    (b : AdaptiveBackoff) (random n : ℕ)
    → random < 2 ^ 53
    → b.consecutive_failures ≡ n
    → IsPaced b.base_interval_ms n (get_state random b).current_interval_ms
unfolding get_state
get_state-IsPaced b random zero h e = rw e refl
get_state-IsPaced b random (suc n) h e = rw (e, positive n) (jittered_interval-IsAround _ random h)
  where
    positive : (n : ℕ) → ltb 0 (suc n) ≡ true
    positive n = ground arith

-- Whatever requests succeeded or failed, one after the other from a positive time on, and whenever
-- the backoff was reset: the state counts the failures since the last success or reset, says that
-- the last request succeeded exactly if the newest event is a success, and polls at the base
-- interval without such failures, else within three tenths, up to rounding, of the base interval
-- doubled for each of them, six times at most.
pub get_state-tells :
    (base now random : ℕ) (past : List Event)
    → random < 2 ^ 53
    → IsBefore now past
    → let s = get_state random (replay base past) in
      (s.consecutive_failures ≡ failures_in_a_row past)
      × (s.last_request_succeeded ≡ has_succeeded past)
      × IsPaced base (failures_in_a_row past) s.current_interval_ms
unfolding get_state
get_state-tells base now random past h i = (
  replay-failures base past,
  replay-is_later base now past i,
  subst
      (λ x.
        IsPaced x (failures_in_a_row past)
          (get_state random (replay base past)).current_interval_ms)
      (replay-base base past)
      (get_state-IsPaced (replay base past) random (failures_in_a_row past) h
        (replay-failures base past)),
)
