-- ===== src/Sdk/WorkerPool/Liveness.antt =====
-- sdk/src/prove/worker-pool.ts: as long as busy workers answer, every promise is settled.
use opauque_stellar.Base.{
  ℕ, zero, suc, ◌-◌, ◌≤◌, ◌<◌, ◌≡◌, ◌≢◌, refl, ◌∙◌, inl, inr, false, Option, none, some, List, [],
  ◌∷◌, keep, count, length, length-zero, ◌==◌, arith, Bool-cases,
}
use opauque_stellar.Sdk.WorkerPool.{Flight, Pool, found, take_flight, finish, fire, answer, drain}
use opauque_stellar.Sdk.WorkerPool.Moves.{busy, done, outstanding, finish-Settles}
use opauque_stellar.Sdk.WorkerPool.Invariant.{IsValid, finish-SettlesAll, answer-IsValid}

module _ {J : Type 0} where
  found-some :
      (g : Flight J) (r : Option (Flight J × List (Flight J))) → r ≢ none → found g r ≢ none
  found-some g none h e = h refl
  found-some g (some r) h e = absurd cc

  -- The first flight of a worker that has one is among those in the air.
  abbrev First : ℕ → List (Flight J) → Type 0
  First w fs =
      (f : Flight J) × (rest : List (Flight J)) × (keep (λ g. g.worker == w) fs ≡ f ∷ rest)
      × (take_flight f.call.ticket fs ≢ none)

  First-cons :
      (w : ℕ) (g : Flight J) (fs : List (Flight J))
      → (g.worker == w) ≡ false
      → First w fs
      → First w (g ∷ fs)
  unfolding take_flight
  First-cons w g fs e (f, rest, k, h) = (
    f,
    rest,
    rw (e, k) refl,
    elim (Bool-cases (g.call.ticket == f.call.ticket)) [
      | inl same_ticket ↦ λ n. absurd (ground (arith, n, same_ticket))
      | inr other ↦ rw other (found-some g (take_flight f.call.ticket fs) h)
    ],
  )

  First-keep : (w : ℕ) (fs : List (Flight J)) → 0 < count w (busy fs) → First w fs
  unfolding take_flight
  First-keep w [] h = absurd (omega arith)
  First-keep w (g ∷ fs) h = elim (Bool-cases (g.worker == w)) [
    | inl e ↦ (g, keep (λ f. f.worker == w) fs, rw e refl, λ n. absurd (ground (arith, n)))
    | inr e ↦ First-cons w g fs e (First-keep w fs (ground (arith, e)))
  ]

module _ {J O : Type 0} where
  -- No more calls outstanding, and the same promises made.
  abbrev Progress : Pool J O → Pool J O → Type 0
  Progress p q = (outstanding q ≤ outstanding p) × (q.next_ticket ≡ p.next_ticket)

  finish-Progress : (s : ℕ) (o : O) (p : Pool J O) → Progress p (finish s o p)
  finish-Progress s o p = elim (finish-SettlesAll s o p) [
    | inl e ↦ rw e (omega arith, refl)
    | inr k ↦ (omega (arith, (k 0 0).2), (k 0 0).3)
  ]

  fire-Progress :
      (prove : J → O) (fs : List (Flight J)) (p : Pool J O) → Progress p (fire prove fs p)
  unfolding fire
  fire-Progress prove [] p = (omega arith, refl)
  fire-Progress prove (f ∷ fs) p =
      let (a, b) = finish-Progress f.call.ticket (prove f.call.job) p in
      let (c, d) = fire-Progress prove fs (finish f.call.ticket (prove f.call.job) p) in
      (omega (arith, a, c), d ∙ b)

  answer-Progress : (prove : J → O) (w : ℕ) (p : Pool J O) → Progress p (answer prove w p)
  unfolding answer
  answer-Progress prove w p = fire-Progress prove (keep (λ f. f.worker == w) p.flights) p

  -- An answer of a busy worker settles a call.
  answer-lt :
      (prove : J → O) (w : ℕ) (p : Pool J O)
      → 0 < count w (busy p.flights)
      → outstanding (answer prove w p) < outstanding p
  unfolding answer fire
  answer-lt prove w p h =
      let (f, rest, e, k) = First-keep w p.flights h in
      rw e (elim (finish-Settles 0 0 f.call.ticket (prove f.call.job) p) [
        | inl n ↦ absurd (k n)
        | inr s ↦
            omega
              (arith, s.2, (fire-Progress prove rest (finish f.call.ticket (prove f.call.job) p)).0)
      ])

  -- Whenever some worker is busy, `pick` names one.
  abbrev pub PicksBusy : (Pool J O → ℕ) → Type 0
  PicksBusy pick = (p : Pool J O) → p.flights ≢ [] → 0 < count (pick p) (busy p.flights)

  pub drain-IsValid :
      (workers : List ℕ) (prove : J → O) (pick : Pool J O → ℕ) (n : ℕ) (p : Pool J O)
      → IsValid workers p
      → IsValid workers (drain prove pick n p)
  unfolding drain
  drain-IsValid workers prove pick zero p h = h
  drain-IsValid workers prove pick (suc n) p h =
      drain-IsValid workers prove pick n (answer prove (pick p) p)
        (answer-IsValid workers prove (pick p) p h)

  -- With a worker and nothing in flight nothing waits.
  idle_lem :
      (workers : List ℕ) (p : Pool J O)
      → 0 < length workers
      → IsValid workers p
      → p.flights ≡ []
      → outstanding p ≡ 0
  idle_lem [] p l h e = absurd (omega arith)
  idle_lem (w ∷ ws) p l (hw, ht, inl i) e = absurd (ground (arith, hw w, i, e))
  idle_lem (w ∷ ws) p l (hw, ht, inr q) e = ground (arith, q, e)

  answer_picked :
      (workers : List ℕ) (prove : J → O) (pick : Pool J O → ℕ) (p : Pool J O)
      → 0 < length workers
      → PicksBusy pick
      → IsValid workers p
      → outstanding (answer prove (pick p) p) ≤ outstanding p - 1
  answer_picked workers prove pick p l busy_pick h = at p.flights refl
    where
      at :
          (fs : List (Flight J))
          → p.flights ≡ fs
          → outstanding (answer prove (pick p) p) ≤ outstanding p - 1
      at [] e = omega (arith, idle_lem workers p l h e, (answer-Progress prove (pick p) p).0)
      at (f ∷ fs) e =
          omega
            (arith, answer-lt prove (pick p) p (busy_pick p (λ n. absurd (ground (arith, n, e)))))

  drain-outstanding :
      (workers : List ℕ) (prove : J → O) (pick : Pool J O → ℕ) (n : ℕ) (p : Pool J O)
      → 0 < length workers
      → PicksBusy pick
      → IsValid workers p
      → (outstanding (drain prove pick n p) ≤ outstanding p - n)
        × ((drain prove pick n p).next_ticket ≡ p.next_ticket)
  unfolding drain
  drain-outstanding workers prove pick zero p l b h = (omega arith, refl)
  drain-outstanding workers prove pick (suc n) p l b h =
      let q = answer prove (pick p) p in
      let (x, y) =
        drain-outstanding workers prove pick n q l b (answer-IsValid workers prove (pick p) p h) in
      (
        omega (arith, x, answer_picked workers prove pick p l b h),
        y ∙ (answer-Progress prove (pick p) p).1,
      )

  -- In a valid pool with a worker, after as many answers of busy workers as calls are outstanding,
  -- whichever busy worker answers next, nothing waits or is in flight, and every promise made is
  -- settled, exactly once.
  pub drain_lem :
      (workers : List ℕ) (prove : J → O) (pick : Pool J O → ℕ) (p : Pool J O)
      → 0 < length workers
      → PicksBusy pick
      → IsValid workers p
      → let q = drain prove pick (outstanding p) p in
        (q.queue ≡ [])
        × (q.flights ≡ [])
        × ((t : ℕ) → t < p.next_ticket → count t (done q.settled) ≡ 1)
  drain_lem workers prove pick p l b h =
      let q = drain prove pick (outstanding p) p in
      let (x, n) = drain-outstanding workers prove pick (outstanding p) p l b h in
      let no_queue = length-zero q.queue (omega (arith, x)) in
      let no_flights = length-zero q.flights (omega (arith, x)) in
      (
        no_queue,
        no_flights,
        λ t lt. ground (
          arith,
          (drain-IsValid workers prove pick (outstanding p) p h).1 t,
          no_queue,
          no_flights,
          n,
        ),
      )
