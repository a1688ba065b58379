-- ===== src/Sdk/WorkerPool/Outcomes.antt =====
-- sdk/src/prove/worker-pool.ts: each promise keeps its job.

use opauque_stellar.Base.{
  ℕ, zero, suc, ◌≡◌, refl, ap, ◌∙◌, inl, inr, Option, none, some, List, [], ◌∷◌, ◌++◌, All,
  All-append, All-keep, ◌==◌, arith, Bool-cases,
}
use opauque_stellar.Sdk.WorkerPool.{
  Call, Flight, Pool, pump_from, found, take_flight, pump, exec, finish_taken, finish, fire, answer,
  drain,
}
use opauque_stellar.Sdk.WorkerPool.Moves.{handed}

-- The calls are those of the jobs at the places of their tickets, and what is settled is what
-- `prove` makes of them.
module _ {J O : Type 0} (at : ℕ → Option J) (prove : J → O) where
  abbrev IsCall : Call J → Type 0
  IsCall c = at c.ticket ≡ some c.job

  abbrev IsFlight : Flight J → Type 0
  IsFlight f = IsCall f.call

  abbrev pub IsSettled : ℕ × O → Type 0
  IsSettled s = (j : J) × (at s.0 ≡ some j) × (s.1 ≡ prove j)

  abbrev pub IsTracked : Pool J O → Type 0
  IsTracked p = All IsCall p.queue × All IsFlight p.flights × All IsSettled p.settled

  pump_from-IsTracked :
      (idle : List ℕ) (queue : List (Call J)) (flights : List (Flight J))
      → All IsCall queue
      → All IsFlight flights
      → let (i, q, f) = pump_from idle queue flights in All IsCall q × All IsFlight f
  unfolding pump_from
  pump_from-IsTracked [] queue flights h k = (h, k)
  pump_from-IsTracked (w ∷ idle) [] flights h k = (h, k)
  pump_from-IsTracked (w ∷ idle) (c ∷ queue) flights h k =
      pump_from-IsTracked idle queue (flights ++ record { worker = w; call = c } ∷ []) h.1
        (All-append IsFlight flights _ k (h.0, tt))

  pump-IsTracked : (p : Pool J O) → IsTracked p → IsTracked (pump p)
  unfolding pump
  pump-IsTracked p (h, k, s) =
      let (a, b) = pump_from-IsTracked p.idle p.queue p.flights h k in (a, b, s)

  abbrev TakesTracked : ℕ → Option (Flight J × List (Flight J)) → Type 0
  TakesTracked t none = Unit
  TakesTracked t (some (f, rest)) = (f.call.ticket ≡ t) × All IsFlight rest

  found-TakesTracked :
      (t : ℕ) (g : Flight J) (r : Option (Flight J × List (Flight J)))
      → IsFlight g
      → TakesTracked t r
      → TakesTracked t (found g r)
  found-TakesTracked t g none h k = tt
  found-TakesTracked t g (some (f, rest)) h k = (k.0, (h, k.1))

  take_flight-TakesTracked :
      (t : ℕ) (fs : List (Flight J)) → All IsFlight fs → TakesTracked t (take_flight t fs)
  unfolding take_flight
  take_flight-TakesTracked t [] h = tt
  take_flight-TakesTracked t (f ∷ fs) h = elim (Bool-cases (f.call.ticket == t)) [
    | inl e ↦ rw e (ground (arith, e), h.1)
    | inr e ↦ rw e (found-TakesTracked t f _ h.0 (take_flight-TakesTracked t fs h.1))
  ]

  finish_taken-IsTracked :
      (f : Flight J) (p : Pool J O) (r : Option (Flight J × List (Flight J)))
      → IsFlight f
      → IsTracked p
      → TakesTracked f.call.ticket r
      → IsTracked (finish_taken (prove f.call.job) p r)
  finish_taken-IsTracked f p none h k e = k
  finish_taken-IsTracked f p (some (g, rest)) h (q, fl, s) (e, l) =
      pump-IsTracked _
        (q, l, All-append IsSettled p.settled _ s ((f.call.job, ap at e ∙ h, refl), tt))

  fire-IsTracked :
      (fs : List (Flight J)) (p : Pool J O)
      → All IsFlight fs
      → IsTracked p
      → IsTracked (fire prove fs p)
  unfolding fire finish
  fire-IsTracked [] p h k = k
  fire-IsTracked (f ∷ fs) p h k =
      fire-IsTracked fs (finish f.call.ticket (prove f.call.job) p) h.1
        (finish_taken-IsTracked f p _ h.0 k (take_flight-TakesTracked f.call.ticket p.flights k.1))

  pub drain-IsTracked :
      (pick : Pool J O → ℕ) (n : ℕ) (p : Pool J O) → IsTracked p → IsTracked (drain prove pick n p)
  unfolding drain answer
  drain-IsTracked pick zero p h = h
  drain-IsTracked pick (suc n) p h =
      drain-IsTracked pick n (answer prove (pick p) p)
        (fire-IsTracked _ p (All-keep IsFlight (λ f. f.worker == pick p) p.flights h.1) h)

  pub exec-IsTracked :
      (job : J) (p : Pool J O) → at p.next_ticket ≡ some job → IsTracked p → IsTracked (exec job p)
  unfolding exec
  exec-IsTracked job p e (q, f, s) =
      pump-IsTracked (handed job p) (All-append IsCall p.queue _ q (e, tt), f, s)
