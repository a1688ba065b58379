-- ===== src/Asp/Policy/Laws.antt =====
-- What the composition strategies promise, said of the policies' own verdicts.
use opauque_stellar.Base.{
  Text, ◌≡◌, ◌⊎◌, ◌↔◌, ◌≢◌, refl, sym, inr, true, List, [], ◌∷◌, map, any, every, All, arith,
}
use opauque_stellar.Asp.Types.{Deposit, Verdict, approve, reject, defer}
use opauque_stellar.Asp.Policy.{
  Policy, Strategy, PolicyEngine, first_decides, any_approve, all_must_approve, Decision, decide,
  is_approve, is_reject, is_defer, compose, first_decided, evaluate,
}

-- Some policy gives the verdict.
abbrev pub Some : Verdict → Deposit → List Policy → Type 0
Some v d [] = ⊥
Some v d (p ∷ ps) = (p.screen d ≡ v) ⊎ Some v d ps

abbrev pub Each : Verdict → Deposit → List Policy → Type 0
Each v d = All (λ p. p.screen d ≡ v)

-- The verdict is that of the first policy that does not defer.
abbrev pub Decides : Verdict → Deposit → List Policy → Type 0
Decides v d [] = ⊥
Decides v d (p ∷ ps) = (p.screen d ≡ v) ⊎ (p.screen d ≡ defer) × Decides v d ps

module _ (ts : Text) (d : Deposit) where
  abbrev decisions : List Policy → List Decision
  decisions = map (decide ts d)

  any_approve_iff : (ps : List Policy) → (any is_approve (decisions ps) ≡ true) ↔ Some approve d ps
  unfolding is_approve decide
  any_approve_iff [] = (λ e. cc, λ s. absurd s)
  any_approve_iff (p ∷ ps) = ground (arith, any_approve_iff ps)

  any_defer_iff : (ps : List Policy) → (any is_defer (decisions ps) ≡ true) ↔ Some defer d ps
  unfolding is_defer decide
  any_defer_iff [] = (λ e. cc, λ s. absurd s)
  any_defer_iff (p ∷ ps) = ground (arith, any_defer_iff ps)

  any-reject_iff : (ps : List Policy) → (any is_reject (decisions ps) ≡ true) ↔ Some reject d ps
  unfolding is_reject decide
  any-reject_iff [] = (λ e. cc, λ s. absurd s)
  any-reject_iff (p ∷ ps) = ground (arith, any-reject_iff ps)

  every_approve_iff :
      (ps : List Policy) → (every is_approve (decisions ps) ≡ true) ↔ Each approve d ps
  unfolding is_approve decide
  every_approve_iff [] = (λ e. tt, λ s. refl)
  every_approve_iff (p ∷ ps) = ground (arith, every_approve_iff ps)

  -- Each policy gives one of the three verdicts.
  Each-or_Some : (ps : List Policy) → (Some approve d ps) ⊎ (Some defer d ps) ⊎ Each reject d ps
  Each-or_Some [] = inr (inr tt)
  Each-or_Some (p ∷ ps) = ground (arith, Each-or_Some ps)

  not-Some-Each : (ps : List Policy) → Each reject d ps → ¬ Some approve d ps
  not-Some-Each [] h s = s
  not-Some-Each (p ∷ ps) h s = ground (arith, not-Some-Each ps)

  not-Some-Each_defer : (ps : List Policy) → Each reject d ps → ¬ Some defer d ps
  not-Some-Each_defer [] h s = s
  not-Some-Each_defer (p ∷ ps) h s = ground (arith, not-Some-Each_defer ps)

  not_reject-Each : (ps : List Policy) → Each approve d ps → ¬ Some reject d ps
  not_reject-Each [] h s = s
  not_reject-Each (p ∷ ps) h s = ground (arith, not_reject-Each ps)

  abbrev pub verdict_of : PolicyEngine → Verdict
  verdict_of e = (evaluate e ts d).0

  -- Under `any-approve` the engine approves exactly when some policy approves, and rejects exactly
  -- when all policies reject.
  any_approve_lem :
      (e : PolicyEngine)
      → e.strategy ≡ any_approve
      → ((verdict_of e ≡ approve) ↔ Some approve d e.policies)
        × ((verdict_of e ≡ reject) ↔ Each reject d e.policies)
  unfolding evaluate compose
  any_approve_lem e s = rw s (
      ground (
        arith,
        any_approve_iff e.policies,
        any_defer_iff e.policies,
        Each-or_Some e.policies,
        not-Some-Each e.policies,
        not-Some-Each_defer e.policies,
      ))

  -- Under `all-must-approve` the engine approves exactly when all policies approve, and rejects
  -- exactly when some policy rejects.
  all_must_approve_lem :
      (e : PolicyEngine)
      → e.strategy ≡ all_must_approve
      → ((verdict_of e ≡ approve) ↔ Each approve d e.policies)
        × ((verdict_of e ≡ reject) ↔ Some reject d e.policies)
  unfolding evaluate compose
  all_must_approve_lem e s = rw s (
      ground (
        arith,
        any-reject_iff e.policies,
        every_approve_iff e.policies,
        not_reject-Each e.policies,
      ))

  first_decided-defer :
      (ps : List Policy) → (first_decided (decisions ps) ≡ defer) ↔ Each defer d ps
  unfolding first_decided is_defer decide
  first_decided-defer [] = (λ e. tt, λ t. refl)
  first_decided-defer (p ∷ ps) = ground (arith, first_decided-defer ps)

  first_decided-Decides :
      (v : Verdict) (ps : List Policy)
      → v ≢ defer
      → (first_decided (decisions ps) ≡ v) ↔ Decides v d ps
  unfolding first_decided is_defer decide
  first_decided-Decides v [] h = (λ e. h (sym e), λ t. absurd t)
  first_decided-Decides v (p ∷ ps) h = ground (arith, first_decided-Decides v ps h)

  -- Under `first-decides`, the default, the verdict is that of the first policy that does not
  -- defer, and the engine defers exactly when all policies do.
  first_decides_lem :
      (e : PolicyEngine)
      → e.strategy ≡ first_decides
      → ((verdict_of e ≡ defer) ↔ Each defer d e.policies)
        × ((v : Verdict) → v ≢ defer → (verdict_of e ≡ v) ↔ Decides v d e.policies)
  unfolding evaluate compose
  first_decides_lem e s =
      rw s (first_decided-defer e.policies, λ v h. first_decided-Decides v e.policies h)

  -- What each strategy promises of an engine's verdict.
  abbrev pub Composes : Strategy → PolicyEngine → Type 0
  Composes any_approve e =
      ((verdict_of e ≡ approve) ↔ Some approve d e.policies)
      × ((verdict_of e ≡ reject) ↔ Each reject d e.policies)
  Composes all_must_approve e =
      ((verdict_of e ≡ approve) ↔ Each approve d e.policies)
      × ((verdict_of e ≡ reject) ↔ Some reject d e.policies)
  Composes first_decides e =
      ((verdict_of e ≡ defer) ↔ Each defer d e.policies)
      × ((verdict_of e ≡ approve) ↔ Decides approve d e.policies)
      × ((verdict_of e ≡ reject) ↔ Decides reject d e.policies)

  Composes-strategy : (s : Strategy) (e : PolicyEngine) → e.strategy ≡ s → Composes s e
  Composes-strategy any_approve e h = any_approve_lem e h
  Composes-strategy all_must_approve e h = all_must_approve_lem e h
  Composes-strategy first_decides e h =
      let (a, b) = first_decides_lem e h in
      (a, b approve (λ n. absurd cc), b reject (λ n. absurd cc))

  -- An engine composes its policies as its strategy says: under `any-approve` it approves exactly when
  -- some policy approves and rejects exactly when all reject; under `all-must-approve` it approves
  -- exactly when all approve and rejects exactly when some rejects; under `first-decides` its verdict is
  -- that of the first policy that does not defer, and it defers exactly when all do.
  pub evaluate-Composes : (e : PolicyEngine) → Composes e.strategy e
  evaluate-Composes e = Composes-strategy e.strategy e refl
