-- ===== src/Asp/Tests.antt =====
-- The theorems about the ASP's policies, guard, monitor and dataset at concrete inputs.
use opauque_stellar.Base.{ℕ, ◌+◌, ◌≤◌, ◌<◌, ◌≡◌, ◌↔◌, refl, codes, none, some, List, [], ◌∷◌, arith}
use opauque_stellar.Base.Exec.{ok}
use opauque_stellar.Asp.Types.{Deposit, approve, defer}
use opauque_stellar.Asp.Policy.{
  Policy, PolicyEngine, Strategy, screening_policy, any_approve, all_must_approve, first_decides,
}
use opauque_stellar.Asp.Policy.Laws.{Composes, evaluate-Composes}
use opauque_stellar.Asp.Guard.{ReorgGuard, validate, commit, rewind, continuous}
use opauque_stellar.Asp.Guard.Laws.{validate-commit}
use opauque_stellar.Asp.Monitor.{monitor, check, record_publication}
use opauque_stellar.Asp.Monitor.Laws.{check-record_publication}
use opauque_stellar.Asp.Dataset.{create, add_all}
use opauque_stellar.Asp.Dataset.Laws.{add_all-room, dataset_preimage-injective, extended}

abbrev deposit : Deposit
deposit = record { index = 4; commitment = 9; value = 100; scope = 1; ledger = 50 }

abbrev two_policies : List Policy
two_policies =
    screening_policy (codes "a") (λ d. defer) ∷ screening_policy (codes "b") (λ d. approve) ∷ []

abbrev engine_of : Strategy → PolicyEngine
engine_of s = record { policies = two_policies; strategy = s }

evaluate-Composes_example : Composes (codes "now") deposit first_decides (engine_of first_decides)
evaluate-Composes_example = evaluate-Composes (codes "now") deposit (engine_of first_decides)

all_agree : Composes (codes "now") deposit all_must_approve (engine_of all_must_approve)
all_agree = evaluate-Composes (codes "now") deposit (engine_of all_must_approve)

some_agree : Composes (codes "now") deposit any_approve (engine_of any_approve)
some_agree = evaluate-Composes (codes "now") deposit (engine_of any_approve)

abbrev guard : ReorgGuard
guard = record { expected_next_ledger = 0 }

validate-commit_example :
    (((validate (commit guard 50) 51).1 ≡ rewind 51) ↔ (51 ≤ 50))
    × (((validate (commit guard 50) 51).1 ≡ continuous) ↔ (50 < 51))
    × (((validate (commit guard 50) 51).2 ≡ none) ↔ (50 < 51))
    × ((validate (commit guard 50) 51).0.expected_next_ledger ≡ 51)
validate-commit_example = validate-commit guard 50 51

late_publication :
    ((check (record_publication (monitor 100) 1000 7 50) 1200 ≡ none) ↔ (1200 ≤ 1000 + 100))
    × ((check (record_publication (monitor 100) 1000 7 50) 1200
          ≡ some (record {
            last_published_at = 1000;
            last_root = some 7;
            last_ledger = 50;
            age_ms = 200;
            threshold_ms = 100;
          }))
        ↔ (1000 + 100 < 1200))
unfolding monitor
late_publication = check-record_publication (monitor 100) 1000 7 50 1200 (omega arith)

abbrev sum : ℕ → ℕ → ℕ
sum a b = a + b

all_added : add_all sum (3 ∷ 5 ∷ []) (create 1) ≡ ok (extended sum (3 ∷ 5 ∷ []) (create 1))
unfolding create
all_added = add_all-room sum (3 ∷ 5 ∷ []) (create 1) (omega arith)

dataset_preimage-injective_example :
    (◌≡◌ {A = ℕ} 7 7) × (◌≡◌ {A = List ℕ} (1 ∷ 2 ∷ []) (1 ∷ 2 ∷ []))
dataset_preimage-injective_example =
    dataset_preimage-injective 7 7 (1 ∷ 2 ∷ []) (1 ∷ 2 ∷ []) (omega arith) (omega arith)
      (omega arith, (omega arith, tt)) (omega arith, (omega arith, tt)) (omega arith) (omega arith)
      refl
