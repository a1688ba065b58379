-- ===== src/Relayer/Hub/Laws.antt =====
-- At most one bid for each operator, and to whom a job is handed.
use opauque_stellar.Base.{
  ℕ, ◌≡◌, inl, inr, refl, sym, Text, Bool, true, false, Option, none, some, List, [], ◌∷◌, any,
  find, All, All-append, same, same_refl, Bool-cases, arith,
}
use opauque_stellar.Relayer.Types.{BidEntry}
use opauque_stellar.Relayer.Hub.{
  RelayerHub, Assignment, FailoverEvent, is_node_alive, is_substitute, bids_for, hand_over,
  check_assignment, check_assignments, run_failover_check,
}

-- The old operator has missed its heartbeats, the new one has not, is another one, and has bid for
-- the job.
abbrev pub IsJustified : ℕ → RelayerHub → FailoverEvent → Type 0
IsJustified now h e =
    (is_node_alive e.old_operator now h ≡ false)
    × (is_node_alive e.new_operator now h ≡ true)
    × (same e.new_operator e.old_operator ≡ false)
    × (any (λ b. same b.bid.operator e.new_operator) (bids_for e.job_id h) ≡ true)

find_sound :
    (p : BidEntry → Bool) (xs : List BidEntry) (x : BidEntry)
    → find p xs ≡ some x
    → (p x ≡ true) × (any (λ b. same b.bid.operator x.bid.operator) xs ≡ true)
find_sound p [] x e = cc
find_sound p (y ∷ ys) x e =
    ground (arith, find_sound p ys x, same_refl y.bid.operator, same_refl x.bid.operator)

-- Handing over changes neither who is alive nor who has bid.
abbrev SameFacts : RelayerHub → RelayerHub → Type 0
SameFacts h g = (g.last_heartbeat_at ≡ h.last_heartbeat_at) × (g.bids ≡ h.bids)

hand_over-SameFacts :
    (now : ℕ) (k : Text) (a : Assignment) (o : Option BidEntry) (h : RelayerHub)
    → SameFacts h (hand_over now k a o h).1
hand_over-SameFacts now k a none h = (refl, refl)
hand_over-SameFacts now k a (some b) h = (refl, refl)

check-SameFacts :
    (now : ℕ) (k : Text) (a : Assignment) (h : RelayerHub)
    → SameFacts h (check_assignment now k a h).1
unfolding check_assignment
check-SameFacts now k a h = elim (Bool-cases (is_node_alive a.operator now h)) [
  | inl e ↦ rw e (refl, refl)
  | inr e ↦
      rw e (hand_over-SameFacts now k a (find (is_substitute h now a.operator) (bids_for k h)) h)
]

substitute :
    (h : RelayerHub) (now : ℕ) (operator : Text) (b : BidEntry)
    → is_substitute h now operator b ≡ true
    → (is_node_alive b.bid.operator now h ≡ true) × (same b.bid.operator operator ≡ false)
substitute h now operator b e = ground arith

hand_over-IsJustified :
    (now : ℕ) (k : Text) (a : Assignment) (h : RelayerHub) (o : Option BidEntry)
    → is_node_alive a.operator now h ≡ false
    → find (is_substitute h now a.operator) (bids_for k h) ≡ o
    → All (IsJustified now h) (hand_over now k a o h).0
hand_over-IsJustified now k a h none dead e = tt
hand_over-IsJustified now k a h (some b) dead e =
    let found = find_sound (is_substitute h now a.operator) (bids_for k h) b e in
    let ok = substitute h now a.operator b found.0 in ((dead, ok.0, ok.1, found.1), tt)

check-IsJustified :
    (now : ℕ) (k : Text) (a : Assignment) (h : RelayerHub)
    → All (IsJustified now h) (check_assignment now k a h).0
unfolding check_assignment
check-IsJustified now k a h = elim (Bool-cases (is_node_alive a.operator now h)) [
  | inl e ↦ rw e tt
  | inr e ↦ rw e (
      hand_over-IsJustified now k a h (find (is_substitute h now a.operator) (bids_for k h)) e refl)
]

-- The same hub but for its assignments judges alike.
All-moved :
    (now : ℕ) (h g : RelayerHub) (es : List FailoverEvent)
    → SameFacts h g
    → All (IsJustified now g) es
    → All (IsJustified now h) es
unfolding is_node_alive bids_for
All-moved now h g [] f a = tt
All-moved now h g (e ∷ es) f a = (
  (rw (sym f.0) a.0.0, rw (sym f.0) a.0.1, a.0.2, rw (sym f.1) a.0.3),
  All-moved now h g es f a.1,
)

check_assignments-IsJustified :
    (now : ℕ) (m : List (Text × Assignment)) (h : RelayerHub)
    → All (IsJustified now h) (check_assignments now m h).0
unfolding check_assignments
check_assignments-IsJustified now [] h = tt
check_assignments-IsJustified now ((k, a) ∷ m) h =
    All-append (IsJustified now h) (check_assignment now k a h).0 _ (check-IsJustified now k a h) (
      All-moved now h (check_assignment now k a h).1 _ (check-SameFacts now k a h)
        (check_assignments-IsJustified now m (check_assignment now k a h).1))

-- Every event of a fail-over check hands a job from an operator that has missed its heartbeats to
-- another operator, which has bid for that job and has not missed its own.
pub run_failover_check-IsJustified :
    (now : ℕ) (h : RelayerHub) → All (IsJustified now h) (run_failover_check now h).0
unfolding run_failover_check
run_failover_check-IsJustified now h = check_assignments-IsJustified now h.assignments h
