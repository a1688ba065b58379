-- ===== src/Frontend/PoolSweep/Plan.antt =====
-- planPoolSweep of frontend/src/lib/poolSweep.ts: a plan stays within the balance and uses it up.
use opauque_stellar.Base.{
  ℕ, suc, ◌+◌, ◌*◌, ◌/◌, ◌≤◌, ◌<◌, ◌≡◌, ◌⊎◌, refl, Option, none, some, ltb, arith, Bool-cases, inl,
  inr,
}
use opauque_stellar.Frontend.PoolSweep.{
  PoolSweepPlan, equal_notes, plan_pool_sweep, min_deposit, deposit_fee_buffer,
}

-- The notes and a fee buffer for each are within the balance, what stays is what they leave at least,
-- and no note is smaller than the smallest deposit.
abbrev pub IsAffordable : ℕ → PoolSweepPlan → Type 0
IsAffordable spendable p =
    (p.total_deposit ≡ p.chunk_count * p.chunk)
    × (p.total_deposit + p.chunk_count * deposit_fee_buffer ≤ spendable)
    × (p.total_deposit + p.remainder ≤ spendable)
    × ((p.chunk_count ≡ 0) ⊎ (min_deposit ≤ p.chunk))

div_bounds : (n d : ℕ) → 0 < d → ((n / d) * d ≤ n) × (n < suc (n / d) * d)
div_bounds n d h = (grind arith, grind arith)

equal_notes-IsAffordable :
    (spendable minimum chunk count : ℕ)
    → min_deposit ≤ chunk
    → count * (chunk + deposit_fee_buffer) ≤ spendable
    → IsAffordable spendable (equal_notes spendable minimum chunk count)
equal_notes-IsAffordable spendable minimum chunk count h k =
    (refl, omega (arith, k), omega (arith, k), inr h)

plan_pool_sweep-IsAffordable :
    (spendable minimum : ℕ) (chunk : Option ℕ)
    → IsAffordable spendable (plan_pool_sweep spendable minimum chunk)
unfolding plan_pool_sweep
plan_pool_sweep-IsAffordable spendable minimum none =
    elim (Bool-cases (ltb spendable (min_deposit + deposit_fee_buffer))) [
      | inl small ↦ rw small (omega arith, omega arith, omega arith, inl refl)
      | inr fits ↦
          rw fits
            (omega arith, ground (arith, fits), ground (arith, fits), inr (ground (arith, fits)))
    ]
plan_pool_sweep-IsAffordable spendable minimum (some chunk) =
    elim (Bool-cases (ltb chunk min_deposit)) [
      | inl small ↦ rw small (omega arith, omega arith, omega arith, inl refl)
      | inr large ↦ rw large (elim (Bool-cases (ltb (spendable / (chunk + deposit_fee_buffer)) 1)) [
        | inl few ↦ rw few (omega arith, omega arith, omega arith, inl refl)
        | inr enough ↦ rw enough (
            equal_notes-IsAffordable spendable minimum chunk _ (ground (arith, large))
              (div_bounds spendable (chunk + deposit_fee_buffer) (omega arith)).0)
      ])
    ]

-- One more note of the size asked for does not fit.
abbrev pub IsFull : ℕ → Option ℕ → PoolSweepPlan → Type 0
IsFull spendable none p = p.chunk_count ≤ 1
IsFull spendable (some chunk) p =
    (chunk < min_deposit) ⊎ (spendable < suc p.chunk_count * (chunk + deposit_fee_buffer))

plan_pool_sweep-IsFull :
    (spendable minimum : ℕ) (chunk : Option ℕ)
    → IsFull spendable chunk (plan_pool_sweep spendable minimum chunk)
unfolding plan_pool_sweep
plan_pool_sweep-IsFull spendable minimum none =
    elim (Bool-cases (ltb spendable (min_deposit + deposit_fee_buffer))) [
      | inl small ↦ rw small (omega arith)
      | inr fits ↦ rw fits (omega arith)
    ]
plan_pool_sweep-IsFull spendable minimum (some chunk) = elim (Bool-cases (ltb chunk min_deposit)) [
  | inl small ↦ inl (ground (arith, small))
  | inr large ↦ rw large (elim (Bool-cases (ltb (spendable / (chunk + deposit_fee_buffer)) 1)) [
    | inl few ↦
        rw few
          (inr (few_lt spendable (chunk + deposit_fee_buffer) (omega arith) (ground (arith, few))))
    | inr enough ↦
        rw enough (inr (div_bounds spendable (chunk + deposit_fee_buffer) (omega arith)).1)
  ])
]
  where
    few_lt : (n d : ℕ) → 0 < d → n / d < 1 → n < 1 * d
    few_lt n d h k = ground (arith, div_bounds n d h)

-- Whatever the balance and the size asked for, the notes of a plan and a fee buffer for each are
-- within the balance, so is what stays beside the notes, no note is below the smallest deposit, and
-- of a size that is at least that not one note more would fit.
pub plan_pool_sweep_lem :
    (spendable minimum : ℕ) (chunk : Option ℕ)
    → let p = plan_pool_sweep spendable minimum chunk in
      IsAffordable spendable p × IsFull spendable chunk p
plan_pool_sweep_lem spendable minimum chunk = (
  plan_pool_sweep-IsAffordable spendable minimum chunk,
  plan_pool_sweep-IsFull spendable minimum chunk,
)
