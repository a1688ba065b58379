-- ===== src/Asp/Guard/Laws.antt =====
-- When the guard speaks.
use opauque_stellar.Base.{ℕ, ◌≡◌, ◌↔◌, ◌≤◌, ◌<◌, arith, none}
use opauque_stellar.Asp.Guard.{ReorgGuard, continuous, rewind, validate, commit}

-- After a batch committed up to ledger `last`, the next batch is refused exactly when it starts at
-- or before `last`; whatever the answer, the batch after that is measured against this one's start,
-- and the event is raised exactly with a refusal.
pub validate-commit :
    (g : ReorgGuard) (last start : ℕ)
    → (((validate (commit g last) start).1 ≡ rewind start) ↔ (start ≤ last))
      × (((validate (commit g last) start).1 ≡ continuous) ↔ (last < start))
      × (((validate (commit g last) start).2 ≡ none) ↔ (last < start))
      × ((validate (commit g last) start).0.expected_next_ledger ≡ start)
unfolding validate commit
validate-commit g last start = ground arith

-- So a batch whose newest ledger is the committed one halts, though no ledger went back.
pub same_ledger_refused :
    (g : ReorgGuard) (last : ℕ) → (validate (commit g last) last).1 ≡ rewind last
unfolding validate commit
same_ledger_refused g last = ground arith
