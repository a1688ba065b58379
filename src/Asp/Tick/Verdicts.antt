-- ===== src/Asp/Tick/Verdicts.antt =====
-- What the screening loop does to the approved, rejected and deferred indices.
use opauque_stellar.Base.{
  ℕ, ◌+◌, ◌≡◌, ◌⊎◌, inl, inr, refl, sym, ap, ◌∙◌, Text, Bool, true, false, ◌||◌, List, [], ◌∷◌,
  ◌++◌, length, length-append, arith, ◌==◌, if◌then◌else◌, Bool-cases, All,
}
use mathlib.Core.List.{append-nil, append_assoc}
use native.Mathlib.Nat.{zero-add}
use opauque_stellar.Asp.Types.{Deposit, Verdict, approve, reject, defer, PoolState, DecisionRecord}
use opauque_stellar.Asp.Policy.{mem}
use opauque_stellar.Asp.Tick.{
  Screener, Screening, evaluate_with, settle, screen_one, screen_all, screen, sort, insert_sorted,
}

pub mem-append : (n : ℕ) (xs ys : List ℕ) → mem n (xs ++ ys) ≡ (mem n xs || mem n ys)
unfolding mem
mem-append n [] ys = refl
mem-append n (x ∷ xs) ys = ground (arith, mem-append n xs ys)

mem-insert_sorted :
    (n a : ℕ) (xs : List ℕ) → mem n (insert_sorted a xs) ≡ (if a == n then true else mem n xs)
unfolding mem insert_sorted
mem-insert_sorted n a [] = refl
mem-insert_sorted n a (x ∷ xs) = ground (arith, mem-insert_sorted n a xs)

pub mem-sort : (n : ℕ) (xs : List ℕ) → mem n (sort xs) ≡ mem n xs
unfolding sort mem
mem-sort n [] = refl
mem-sort n (x ∷ xs) =
    mem-insert_sorted n x (sort xs) ∙ ap (λ (b : Bool). if x == n then true else b) (mem-sort n xs)

length-insert_sorted : (a : ℕ) (xs : List ℕ) → length (insert_sorted a xs) ≡ length xs + 1
unfolding insert_sorted
length-insert_sorted a [] = omega arith
length-insert_sorted a (x ∷ xs) = ground (arith, length-insert_sorted a xs)

pub length-sort : (xs : List ℕ) → length (sort xs) ≡ length xs
unfolding sort
length-sort [] = refl
length-sort (x ∷ xs) = omega (arith, length-insert_sorted x (sort xs), length-sort xs)

-- No index twice.
abbrev pub Distinct : List ℕ → Type 0
Distinct [] = Unit
Distinct (x ∷ xs) = (mem x xs ≡ false) × Distinct xs

Distinct-insert_sorted :
    (a : ℕ) (xs : List ℕ) → mem a xs ≡ false → Distinct xs → Distinct (insert_sorted a xs)
unfolding insert_sorted mem
Distinct-insert_sorted a [] h d = (refl, tt)
Distinct-insert_sorted a (x ∷ xs) h d =
    ground (arith, mem-insert_sorted x a xs, Distinct-insert_sorted a xs)

pub Distinct-sort : (xs : List ℕ) → Distinct xs → Distinct (sort xs)
unfolding sort
Distinct-sort [] d = tt
Distinct-sort (x ∷ xs) d =
    Distinct-insert_sorted x (sort xs) (mem-sort x xs ∙ d.0) (Distinct-sort xs d.1)

Distinct-append : (xs : List ℕ) (a : ℕ) → mem a xs ≡ false → Distinct xs → Distinct (xs ++ a ∷ [])
unfolding mem
Distinct-append [] a h d = (refl, tt)
Distinct-append (x ∷ xs) a h d = ground (arith, mem-append x xs (a ∷ []), Distinct-append xs a)

-- The decisions of a pool are final and exclusive.
pub record IsClean (s : PoolState) : Type 0 where
  pub approved_once : Distinct s.approved_indices
  pub rejected_once : Distinct s.rejected_indices
  pub exclusive : (n : ℕ) → mem n s.approved_indices ≡ true → mem n s.rejected_indices ≡ false

settle-IsClean :
    (v : Verdict) (d : Deposit) (rs : List DecisionRecord) (a : Screening)
    → mem d.index a.state.approved_indices ≡ false
    → mem d.index a.state.rejected_indices ≡ false
    → IsClean a.state
    → IsClean (settle v d rs a).state
unfolding settle
settle-IsClean approve d rs a na nr c = record {
  approved_once = Distinct-append a.state.approved_indices d.index na c.approved_once;
  rejected_once = c.rejected_once;
  exclusive = λ n h.
      unfold mem in
      ground (arith, mem-append n a.state.approved_indices (d.index ∷ []), c.exclusive n);
}
settle-IsClean reject d rs a na nr c = record {
  approved_once = c.approved_once;
  rejected_once = Distinct-append a.state.rejected_indices d.index nr c.rejected_once;
  exclusive = λ n h.
      unfold mem in
      ground (arith, mem-append n a.state.rejected_indices (d.index ∷ []), c.exclusive n);
}
settle-IsClean defer d rs a na nr c = record {
  approved_once = c.approved_once;
  rejected_once = c.rejected_once;
  exclusive = c.exclusive;
}

screen_one-IsClean :
    (sc : Screener) (now : Text) (d : Deposit) (a : Screening)
    → IsClean a.state
    → IsClean (screen_one sc now d a).state
unfolding screen_one
screen_one-IsClean sc now d a c =
    elim (Bool-cases
      (mem d.index a.state.approved_indices || mem d.index a.state.rejected_indices)) [
        | inl settled ↦ rw settled c
        | inr fresh ↦ rw fresh (settle-IsClean _ d _ a (ground arith) (ground arith) c)
      ]

screen_all-IsClean :
    (sc : Screener) (now : Text) (ds : List Deposit) (a : Screening)
    → IsClean a.state
    → IsClean (screen_all sc now ds a).state
unfolding screen_all
screen_all-IsClean sc now [] a c = c
screen_all-IsClean sc now (d ∷ ds) a c =
    screen_all-IsClean sc now ds (screen_one sc now d a) (screen_one-IsClean sc now d a c)

abbrev pub begin : PoolState → Screening
begin state = record { state = state; next_deferred = []; newly_approved = 0; newly_rejected = 0 }

-- Screening keeps every index decided at most once: the approved and the rejected indices stay free
-- of repetitions and disjoint.
pub screen-IsClean :
    (sc : Screener) (now : Text) (ds : List Deposit) (s : PoolState)
    → IsClean s
    → IsClean (screen sc now ds s).state
unfolding screen
screen-IsClean sc now ds s c =
    let e = screen_all-IsClean sc now ds (begin s) c in
    record {
      approved_once = e.approved_once;
      rejected_once =
          Distinct-sort (screen_all sc now ds (begin s)).state.rejected_indices e.rejected_once;
      exclusive = λ n h.
          mem-sort n (screen_all sc now ds (begin s)).state.rejected_indices ∙ e.exclusive n h;
    }

-- Some deposit of the list has the index and gets the verdict.
abbrev pub Given : Screener → Text → Verdict → ℕ → List Deposit → Type 0
Given sc now v n [] = ⊥
Given sc now v n (d ∷ ds) = ((d.index ≡ n) × ((evaluate_with sc now d).0 ≡ v)) ⊎ Given sc now v n ds

-- How one deposit changes the approved indices, and where it ends up.
pub record Outcome (sc : Screener) (now : Text) (d : Deposit) (a b : Screening) : Type 0 where
  pub approved_from :
      (n : ℕ)
      → mem n b.state.approved_indices ≡ true
      → (mem n a.state.approved_indices ≡ true)
        ⊎ (d.index ≡ n) × ((evaluate_with sc now d).0 ≡ approve)
  pub approved_kept :
      (n : ℕ) → mem n a.state.approved_indices ≡ true → mem n b.state.approved_indices ≡ true
  pub rejected_kept :
      (n : ℕ) → mem n a.state.rejected_indices ≡ true → mem n b.state.rejected_indices ≡ true
  pub deferred_kept : (n : ℕ) → mem n a.next_deferred ≡ true → mem n b.next_deferred ≡ true
  pub placed :
      (mem d.index b.state.approved_indices
        || (mem d.index b.state.rejected_indices || mem d.index b.next_deferred))
      ≡ true

settle-Outcome :
    (sc : Screener) (now : Text) (v : Verdict) (d : Deposit) (rs : List DecisionRecord)
    (a : Screening)
    → (evaluate_with sc now d).0 ≡ v
    → Outcome sc now d a (settle v d rs a)
unfolding settle mem
settle-Outcome sc now approve d rs a e = record {
  approved_from = λ n h. ground (arith, mem-append n a.state.approved_indices (d.index ∷ []));
  approved_kept = λ n h. ground (arith, mem-append n a.state.approved_indices (d.index ∷ []));
  rejected_kept = λ n h. h;
  deferred_kept = λ n h. h;
  placed = ground (arith, mem-append d.index a.state.approved_indices (d.index ∷ []));
}
settle-Outcome sc now reject d rs a e = record {
  approved_from = λ n h. inl h;
  approved_kept = λ n h. h;
  rejected_kept = λ n h. ground (arith, mem-append n a.state.rejected_indices (d.index ∷ []));
  deferred_kept = λ n h. h;
  placed = ground (arith, mem-append d.index a.state.rejected_indices (d.index ∷ []));
}
settle-Outcome sc now defer d rs a e = record {
  approved_from = λ n h. inl h;
  approved_kept = λ n h. h;
  rejected_kept = λ n h. h;
  deferred_kept = λ n h. ground (arith, mem-append n a.next_deferred (d.index ∷ []));
  placed = ground (arith, mem-append d.index a.next_deferred (d.index ∷ []));
}

screen_one-Outcome :
    (sc : Screener) (now : Text) (d : Deposit) (a : Screening)
    → Outcome sc now d a (screen_one sc now d a)
unfolding screen_one
screen_one-Outcome sc now d a =
    elim (Bool-cases
      (mem d.index a.state.approved_indices || mem d.index a.state.rejected_indices)) [
        | inl settled ↦ rw settled (record {
          approved_from = λ n h. inl h;
          approved_kept = λ n h. h;
          rejected_kept = λ n h. h;
          deferred_kept = λ n h. h;
          placed = ground arith;
        })
        | inr fresh ↦ rw fresh (settle-Outcome sc now _ d _ a refl)
      ]

-- A deposit is approved, rejected, or deferred.
abbrev pub IsPlaced : Screening → ℕ → Type 0
IsPlaced b n =
    (mem n b.state.approved_indices || (mem n b.state.rejected_indices || mem n b.next_deferred))
    ≡ true

pub record Effect (sc : Screener) (now : Text) (ds : List Deposit) (a b : Screening) : Type 0 where
  pub approved_from :
      (n : ℕ)
      → mem n b.state.approved_indices ≡ true
      → (mem n a.state.approved_indices ≡ true) ⊎ Given sc now approve n ds
  pub kept : (n : ℕ) → IsPlaced a n → IsPlaced b n
  pub placed : All (λ d. IsPlaced b d.index) ds

IsPlaced-kept :
    (sc : Screener) (now : Text) (d : Deposit) (a b : Screening) (n : ℕ)
    → Outcome sc now d a b
    → IsPlaced a n
    → IsPlaced b n
IsPlaced-kept sc now d a b n o h =
    ground (arith, o.approved_kept n, o.rejected_kept n, o.deferred_kept n)

screen_all-Effect :
    (sc : Screener) (now : Text) (ds : List Deposit) (a : Screening)
    → Effect sc now ds a (screen_all sc now ds a)
unfolding screen_all
screen_all-Effect sc now [] a = record {
  approved_from = λ n h. inl h;
  kept = λ n h. h;
  placed = tt;
}
screen_all-Effect sc now (d ∷ ds) a =
    let b = screen_one sc now d a in
    let o = screen_one-Outcome sc now d a in
    let e = screen_all-Effect sc now ds b in
    record {
      approved_from = λ n h. from_either n (o.approved_from n) (e.approved_from n h);
      kept = λ n h. e.kept n (IsPlaced-kept sc now d a b n o h);
      placed = (e.kept d.index o.placed, e.placed);
    }
  where
    from_either :
        (n : ℕ)
        → (mem n (screen_one sc now d a).state.approved_indices ≡ true
            → (mem n a.state.approved_indices ≡ true)
              ⊎ (d.index ≡ n) × ((evaluate_with sc now d).0 ≡ approve))
        → (mem n (screen_one sc now d a).state.approved_indices ≡ true) ⊎ Given sc now approve n ds
        → (mem n a.state.approved_indices ≡ true) ⊎ Given sc now approve n (d ∷ ds)
    from_either n o (inr g) = inr (inr g)
    from_either n o (inl h) = elim (o h) [ inl old ↦ inl old | inr new ↦ inr (inl new) ]

-- A deposit is in the state after screening: approved, rejected or deferred.
abbrev pub IsRecorded : PoolState → ℕ → Type 0
IsRecorded s n =
    (mem n s.approved_indices || (mem n s.rejected_indices || mem n s.deferred_indices)) ≡ true

placed-IsRecorded :
    (sc : Screener) (now : Text) (s : PoolState) (b : Screening) (ds : List Deposit)
    → All (λ d. IsPlaced b d.index) ds
    → All
        (λ d.
          IsRecorded
            (record b.state {
              rejected_indices = sort b.state.rejected_indices;
              deferred_indices = sort b.next_deferred;
            })
            d.index)
        ds
placed-IsRecorded sc now s b [] h = tt
placed-IsRecorded sc now s b (d ∷ ds) h = (
  rw (mem-sort d.index b.state.rejected_indices, mem-sort d.index b.next_deferred) h.0,
  placed-IsRecorded sc now s b ds h.1,
)

-- Screening approves only what the policy approves: an index that is approved afterwards was
-- approved before, or is that of a deposit that was read and got the verdict. And it loses nothing
-- that it reads: every deposit read is approved, rejected or deferred afterwards.
pub screen-policy :
    (sc : Screener) (now : Text) (ds : List Deposit) (s : PoolState)
    → ((n : ℕ)
        → mem n (screen sc now ds s).state.approved_indices ≡ true
        → (mem n s.approved_indices ≡ true) ⊎ Given sc now approve n ds)
      × All (λ d. IsRecorded (screen sc now ds s).state d.index) ds
unfolding screen
screen-policy sc now ds s =
    let e = screen_all-Effect sc now ds (begin s) in
    (e.approved_from, placed-IsRecorded sc now s (screen_all sc now ds (begin s)) ds e.placed)

-- The approved indices only grow at the end, by as many as the tick reports.
abbrev Grown : Screening → Screening → Type 0
Grown a b =
    (new : List ℕ) × (b.state.approved_indices ≡ a.state.approved_indices ++ new)
    × (b.newly_approved ≡ a.newly_approved + length new)
    × (b.state.pool_id ≡ a.state.pool_id)

Grown-none : (a : Screening) → Grown a a
Grown-none a = ([], sym (append-nil _), omega arith, refl)

settle-Grown :
    (v : Verdict) (d : Deposit) (rs : List DecisionRecord) (a : Screening)
    → Grown a (settle v d rs a)
unfolding settle
settle-Grown approve d rs a = (d.index ∷ [], refl, refl, refl)
settle-Grown reject d rs a = ([], sym (append-nil _), omega arith, refl)
settle-Grown defer d rs a = ([], sym (append-nil _), omega arith, refl)

screen_one-Grown :
    (sc : Screener) (now : Text) (d : Deposit) (a : Screening) → Grown a (screen_one sc now d a)
unfolding screen_one
screen_one-Grown sc now d a =
    elim (Bool-cases
      (mem d.index a.state.approved_indices || mem d.index a.state.rejected_indices)) [
        | inl settled ↦ rw settled (Grown-none a)
        | inr fresh ↦ rw fresh (settle-Grown _ d _ a)
      ]

screen_all-Grown :
    (sc : Screener) (now : Text) (ds : List Deposit) (a : Screening)
    → Grown a (screen_all sc now ds a)
unfolding screen_all
screen_all-Grown sc now [] a = Grown-none a
screen_all-Grown sc now (d ∷ ds) a =
    let (xs, e, n, k) = screen_one-Grown sc now d a in
    let (ys, e', n', k') = screen_all-Grown sc now ds (screen_one sc now d a) in
    (
      xs ++ ys,
      e' ∙ ap (λ (l : List ℕ). l ++ ys) e ∙ append_assoc a.state.approved_indices xs ys,
      omega (arith, length-append xs ys),
      k' ∙ k,
    )

-- The association set is append-only: screening adds the newly approved indices behind the old ones,
-- as many as it counts, so the position of a label in the tree never changes.
pub screen-append :
    (sc : Screener) (now : Text) (ds : List Deposit) (s : PoolState)
    → (new : List ℕ) × ((screen sc now ds s).state.approved_indices ≡ s.approved_indices ++ new)
      × ((screen sc now ds s).newly_approved ≡ length new)
      × ((screen sc now ds s).state.pool_id ≡ s.pool_id)
unfolding screen
screen-append sc now ds s =
    let (new, e, n, k) = screen_all-Grown sc now ds (begin s) in (new, e, n ∙ zero-add _, k)
