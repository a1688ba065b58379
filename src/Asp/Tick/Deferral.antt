-- ===== src/Asp/Tick/Deferral.antt =====
-- The screening loop of asp/src/engine.ts: what becomes of a deferred deposit that is not read again.
use opauque_stellar.Base.{
  ℕ, ◌≡◌, refl, ◌∙◌, inl, inr, Text, false, ◌||◌, List, [], ◌∷◌, ◌++◌, any, ◌==◌, arith, Bool-cases,
}
use opauque_stellar.Asp.Types.{Deposit, PoolState, Verdict, approve, reject, defer, DecisionRecord}
use opauque_stellar.Asp.Policy.{mem}
use opauque_stellar.Asp.Tick.{
  Screener, Screening, add_index, settle, screen_one, screen_all, screen,
}
use opauque_stellar.Asp.Tick.Verdicts.{begin, mem-append, mem-sort}

-- The index is in none of the three lists that the loop carries.
abbrev IsAbsent : ℕ → Screening → Type 0
IsAbsent n a =
    (mem n a.state.approved_indices ≡ false)
    × (mem n a.state.rejected_indices ≡ false)
    × (mem n a.next_deferred ≡ false)

mem-nil : (n : ℕ) → mem n [] ≡ false
unfolding mem
mem-nil n = refl

mem-other :
    (n m : ℕ) (xs : List ℕ) → (m == n) ≡ false → mem n xs ≡ false → mem n (xs ++ m ∷ []) ≡ false
unfolding mem
mem-other n m xs e h = mem-append n xs (m ∷ []) ∙ ground (arith, e, h)

add_index-other :
    (n m : ℕ) (xs : List ℕ) → (m == n) ≡ false → mem n xs ≡ false → mem n (add_index m xs) ≡ false
unfolding add_index
add_index-other n m xs e h = elim (Bool-cases (mem m xs)) [
  | inl there ↦ rw there h
  | inr new ↦ rw new (mem-other n m xs e h)
]

settle-IsAbsent :
    (n : ℕ) (v : Verdict) (d : Deposit) (rs : List DecisionRecord) (a : Screening)
    → (d.index == n) ≡ false
    → IsAbsent n a
    → IsAbsent n (settle v d rs a)
unfolding settle
settle-IsAbsent n approve d rs a e (h, k, l) = (mem-other n d.index _ e h, k, l)
settle-IsAbsent n reject d rs a e (h, k, l) = (h, mem-other n d.index _ e k, l)
settle-IsAbsent n defer d rs a e (h, k, l) = (h, k, add_index-other n d.index _ e l)

screen_one-IsAbsent :
    (n : ℕ) (sc : Screener) (now : Text) (d : Deposit) (a : Screening)
    → (d.index == n) ≡ false
    → IsAbsent n a
    → IsAbsent n (screen_one sc now d a)
unfolding screen_one
screen_one-IsAbsent n sc now d a e h =
    elim (Bool-cases
      (mem d.index a.state.approved_indices || mem d.index a.state.rejected_indices)) [
        | inl settled ↦ rw settled h
        | inr fresh ↦ rw fresh (settle-IsAbsent n _ d _ a e h)
      ]

screen_all-IsAbsent :
    (n : ℕ) (sc : Screener) (now : Text) (ds : List Deposit) (a : Screening)
    → any (λ d. d.index == n) ds ≡ false
    → IsAbsent n a
    → IsAbsent n (screen_all sc now ds a)
unfolding screen_all
screen_all-IsAbsent n sc now [] a e h = h
screen_all-IsAbsent n sc now (d ∷ ds) a e h =
    screen_all-IsAbsent n sc now ds (screen_one sc now d a) (ground (arith, e))
      (screen_one-IsAbsent n sc now d a (ground (arith, e)) h)

-- A deposit that is not decided and is not among those read is in no list after the screening, neither
-- approved nor rejected nor deferred, also if it was deferred before.
pub screen_forgets :
    (n : ℕ) (sc : Screener) (now : Text) (ds : List Deposit) (s : PoolState)
    → mem n s.approved_indices ≡ false
    → mem n s.rejected_indices ≡ false
    → any (λ d. d.index == n) ds ≡ false
    → let after = (screen sc now ds s).state in
      (mem n after.approved_indices ≡ false)
      × (mem n after.rejected_indices ≡ false)
      × (mem n after.deferred_indices ≡ false)
unfolding screen
screen_forgets n sc now ds s h k e =
    let start = begin s in
    let (a, b, c) = screen_all-IsAbsent n sc now ds start e (h, k, mem-nil n) in
    (
      a,
      mem-sort n (screen_all sc now ds start).state.rejected_indices ∙ b,
      mem-sort n (screen_all sc now ds start).next_deferred ∙ c,
    )
