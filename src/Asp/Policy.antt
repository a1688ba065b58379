-- ===== src/Asp/Policy.antt =====
-- asp/src/policy.ts and asp/src/policy-engine.ts. A policy's `screen` is taken to return.
pub mod Laws
use opauque_stellar.Base.{
  ℕ, Text, codes, Bool, true, false, Option, none, some, List, [], ◌∷◌, ◌++◌, map, any, every, ◌==◌,
  if◌then◌else◌,
}
use opauque_stellar.Asp.Types.{Deposit, Verdict, approve, reject, defer}

pub record Policy : Type 0 where
  pub name : Text
  pub screen : Deposit → Verdict
  pub reason : Option (Deposit → Text)

pub record Decision : Type 0 where
  pub policy : Text
  pub deposit : Deposit
  pub verdict : Verdict
  pub reason : Text
  pub timestamp : Text

pub data Strategy : Type 0 where
  first_decides any_approve all_must_approve : Strategy

pub record PolicyEngine : Type 0 where
  pub policies : List Policy
  pub strategy : Strategy

pub approve_all : Policy
approve_all = record { name = codes "approve-all"; screen = λ _. approve; reason = none }

unfoldable pub mem : ℕ → List ℕ → Bool
mem n xs = any (λ x. x == n) xs

pub allowlist : List ℕ → Policy
unfolding mem
allowlist allowed = record {
  name = codes "allowlist";
  screen = λ d. if mem d.index allowed then approve else reject;
  reason = some (λ d.
      if mem d.index allowed
      then codes "deposit index is present in the operator allowlist"
      else codes
          "deposit index is absent from the operator allowlist; see docs/EXCLUSION_APPEAL_PROCESS.md");
}

pub screening_policy : Text → (Deposit → Verdict) → Policy
screening_policy name decide = record { name = name; screen = decide; reason = none }

-- The constructor throws without a policy.
pub policy_engine : List Policy → Option Strategy → Option PolicyEngine
policy_engine [] strategy = none
policy_engine (p ∷ ps) none = some (record { policies = p ∷ ps; strategy = first_decides })
policy_engine (p ∷ ps) (some s) = some (record { policies = p ∷ ps; strategy = s })

pub verdict_name : Verdict → Text
verdict_name approve = codes "approve"
verdict_name reject = codes "reject"
verdict_name defer = codes "defer"

-- policy.reason?.(deposit) ?? `policy returned ${verdict}`
pub reason_of : Policy → Deposit → Text
unfolding verdict_name
reason_of p d = elim p.reason [
  | none ↦ codes "policy returned " ++ verdict_name (p.screen d)
  | some f ↦ f d
]

unfoldable pub decide : Text → Deposit → Policy → Decision
unfolding reason_of
decide ts d p = record {
  policy = p.name;
  deposit = d;
  verdict = p.screen d;
  reason = reason_of p d;
  timestamp = ts;
}

pub is_approve : Decision → Bool
is_approve r = elim r.verdict [ approve ↦ true | _ ↦ false ]

pub is_reject : Decision → Bool
is_reject r = elim r.verdict [ reject ↦ true | _ ↦ false ]

pub is_defer : Decision → Bool
is_defer r = elim r.verdict [ defer ↦ true | _ ↦ false ]

pub first_decided : List Decision → Verdict
unfolding is_defer
first_decided [] = defer
first_decided (r ∷ rs) = if is_defer r then first_decided rs else r.verdict

pub compose : Strategy → List Decision → Verdict
unfolding is_approve is_reject is_defer first_decided
compose any_approve results =
    if any is_approve results then approve else if any is_defer results then defer else reject
compose all_must_approve results =
    if any is_reject results then reject else if every is_approve results then approve else defer
compose first_decides results = first_decided results

-- PolicyEngine.evaluate: the verdict and the decisions, one for each policy.
unfoldable pub evaluate : PolicyEngine → Text → Deposit → Verdict × List Decision
unfolding decide compose
evaluate e ts d =
    let results = map (decide ts d) e.policies in (compose e.strategy results, results)
