-- ===== src/Sdk/WorkerPool/Moves.antt =====
-- sdk/src/prove/worker-pool.ts: what one call of exec or of finish moves.
use mathlib.Core.List.{map-append}
use opauque_stellar.Base.{
  ℕ, suc, ◌+◌, ◌≡◌, refl, ap, ◌∙◌, ◌⊎◌, inl, inr, Option, none, some, List, [], ◌∷◌, ◌++◌, map,
  count, count-append, length, length-append, ◌==◌, arith, Bool-cases,
}
use opauque_stellar.Sdk.WorkerPool.{
  Call, Flight, Pool, pump_from, found, take_flight, pump, exec, finish_taken, finish,
}

module _ {J : Type 0} where
  abbrev pub busy : List (Flight J) → List ℕ
  busy = map (λ f. f.worker)

  abbrev pub queued : List (Call J) → List ℕ
  queued = map (λ c. c.ticket)

  abbrev pub flying : List (Flight J) → List ℕ
  flying = map (λ f. f.call.ticket)

  -- The loop of `pump` moves calls and workers, and stops when one of the two has run out.
  pump_from-kept :
      (w t : ℕ) (idle : List ℕ) (queue : List (Call J)) (flights : List (Flight J))
      → let (i, q, f) = pump_from idle queue flights in
        (count w i + count w (busy f) ≡ count w idle + count w (busy flights))
        × (count t (queued q) + count t (flying f)
            ≡ count t (queued queue) + count t (flying flights))
        × (length q + length f ≡ length queue + length flights)
        × ((i ≡ []) ⊎ (q ≡ []))
  unfolding pump_from
  pump_from-kept w t [] queue flights = (refl, refl, refl, inl refl)
  pump_from-kept w t (v ∷ idle) [] flights = (refl, refl, refl, inr refl)
  pump_from-kept w t (v ∷ idle) (c ∷ queue) flights =
      let f = record { worker = v; call = c } ∷ [] in
      let (a, b, l, e) = pump_from-kept w t idle queue (flights ++ f) in
      (
        ground (
          arith,
          a,
          map-append (λ g. g.worker) flights f,
          count-append w (busy flights) (busy f),
        ),
        ground (
          arith,
          b,
          map-append (λ g. g.call.ticket) flights f,
          count-append t (flying flights) (flying f),
        ),
        omega (arith, l, length-append flights f),
        e,
      )

  abbrev pub Taken : ℕ → ℕ → ℕ → List (Flight J) → Option (Flight J × List (Flight J)) → Type 0
  Taken w t s fs none = Unit
  Taken w t s fs (some (f, rest)) =
      (f.call.ticket ≡ s)
      × (count w (busy fs) ≡ count w (f.worker ∷ busy rest))
      × (count t (flying fs) ≡ count t (s ∷ flying rest))
      × (length fs ≡ suc (length rest))

  found-Taken :
      (w t s : ℕ) (g : Flight J) (fs : List (Flight J)) (r : Option (Flight J × List (Flight J)))
      → Taken w t s fs r
      → Taken w t s (g ∷ fs) (found g r)
  found-Taken w t s g fs none h = tt
  found-Taken w t s g fs (some (f, rest)) h = ground (arith, h)

  -- Taking a flight out takes out one, that of the ticket, whatever worker or promise is counted.
  pub take_flight-Taken : (w t s : ℕ) (fs : List (Flight J)) → Taken w t s fs (take_flight s fs)
  unfolding take_flight
  take_flight-Taken w t s [] = tt
  take_flight-Taken w t s (f ∷ fs) = elim (Bool-cases (f.call.ticket == s)) [
    | inl here ↦ rw here (ground (arith, here))
    | inr there ↦ rw there (found-Taken w t s f fs (take_flight s fs) (take_flight-Taken w t s fs))
  ]

  queued-append :
      (t : ℕ) (queue : List (Call J)) (c : Call J)
      → count t (queued (queue ++ c ∷ [])) ≡ count t (queued queue) + count t (c.ticket ∷ [])
  queued-append t queue c =
      ap (count t) (map-append (λ d. d.ticket) queue (c ∷ []))
      ∙ count-append t (queued queue) (c.ticket ∷ [])

abbrev pub done : {O : Type 0} → List (ℕ × O) → List ℕ
done = map (λ s. s.0)

done-append :
    {O : Type 0} (t : ℕ) (settled : List (ℕ × O)) (s : ℕ × O)
    → count t (done (settled ++ s ∷ [])) ≡ count t (done settled) + count t (s.0 ∷ [])
done-append t settled s =
    ap (count t) (map-append (λ x. x.0) settled (s ∷ [])) ∙ count-append t (done settled) (s.0 ∷ [])

module _ {J O : Type 0} where
  -- How often a worker stands in the pool, and a promise.
  abbrev pub workers_at : ℕ → Pool J O → ℕ
  workers_at w p = count w p.idle + count w (busy p.flights)

  abbrev pub promises_at : ℕ → Pool J O → ℕ
  promises_at t p = count t (queued p.queue) + count t (flying p.flights) + count t (done p.settled)

  abbrev pub outstanding : Pool J O → ℕ
  outstanding p = length p.queue + length p.flights

  abbrev pub CannotPump : Pool J O → Type 0
  CannotPump p = (p.idle ≡ []) ⊎ (p.queue ≡ [])

  -- The same workers, the same promises and as many calls outstanding at two points.
  abbrev pub Keeps : ℕ → ℕ → Pool J O → Pool J O → Type 0
  Keeps w t p q =
      (workers_at w q ≡ workers_at w p)
      × (promises_at t q ≡ promises_at t p)
      × (outstanding q ≡ outstanding p)
      × (q.next_ticket ≡ p.next_ticket)
      × CannotPump q

  pump-Keeps : (w t : ℕ) (p : Pool J O) → Keeps w t p (pump p)
  unfolding pump
  pump-Keeps w t p =
      let (a, b, l, e) = pump_from-kept w t p.idle p.queue p.flights in
      (omega (arith, a), omega (arith, b), omega (arith, l), refl, e)

  abbrev pub handed : J → Pool J O → Pool J O
  handed job p = record p {
    queue = p.queue ++ (record { ticket = p.next_ticket; job = job } ∷ []);
    next_ticket = suc p.next_ticket;
  }

  -- One more call outstanding, with the promise that comes next.
  abbrev pub Takes : ℕ → ℕ → Pool J O → Pool J O → Type 0
  Takes w t p q =
      (workers_at w q ≡ workers_at w p)
      × (promises_at t q ≡ promises_at t p + count t (p.next_ticket ∷ []))
      × (outstanding q ≡ suc (outstanding p))
      × (q.next_ticket ≡ suc p.next_ticket)
      × CannotPump q

  pub exec-Takes : (w t : ℕ) (job : J) (p : Pool J O) → Takes w t p (exec job p)
  unfolding exec
  exec-Takes w t job p =
      let (a, b, l, n, e) = pump-Keeps w t (handed job p) in
      (
        a,
        omega (arith, b, queued-append t p.queue (record { ticket = p.next_ticket; job = job })),
        omega (arith, l, length-append p.queue (record { ticket = p.next_ticket; job = job } ∷ [])),
        n,
        e,
      )

  -- One call settled, its worker back in the line.
  abbrev pub Settles : ℕ → ℕ → Pool J O → Pool J O → Type 0
  Settles w t p q =
      (workers_at w q ≡ workers_at w p)
      × (promises_at t q ≡ promises_at t p)
      × (suc (outstanding q) ≡ outstanding p)
      × (q.next_ticket ≡ p.next_ticket)
      × CannotPump q

  finish_taken-Settles :
      (w t s : ℕ) (o : O) (p : Pool J O) (r : Option (Flight J × List (Flight J)))
      → Taken w t s p.flights r
      → (r ≡ none) ⊎ Settles w t p (finish_taken o p r)
  finish_taken-Settles w t s o p none h = inl refl
  finish_taken-Settles w t s o p (some (f, rest)) (s_eq, hw, ht, hl) =
      let (a, b, l, n, e) = pump-Keeps w t _ in
      inr (
        omega (arith, a, hw, count-append w p.idle (f.worker ∷ []), worker_at),
        omega (arith, b, ht, done-append t p.settled (f.call.ticket, o), ticket_at),
        omega (arith, l, hl),
        n,
        e,
      )
    where
      worker_at : count w (f.worker ∷ busy rest) ≡ count w (f.worker ∷ []) + count w (busy rest)
      worker_at = ground arith

      ticket_at : count t (s ∷ flying rest) ≡ count t (f.call.ticket ∷ []) + count t (flying rest)
      ticket_at = ground (arith, s_eq)

  pub finish-Settles :
      (w t s : ℕ) (o : O) (p : Pool J O)
      → (take_flight s p.flights ≡ none) ⊎ Settles w t p (finish s o p)
  unfolding finish
  finish-Settles w t s o p = finish_taken-Settles w t s o p _ (take_flight-Taken w t s p.flights)
