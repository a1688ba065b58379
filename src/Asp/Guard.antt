-- ===== src/Asp/Guard.antt =====
-- asp/src/reorg-guard.ts: the ledger that the next batch must not come before.
pub mod Laws
use opauque_stellar.Base.{ℕ, ◌+◌, Option, none, some, ltb, leb, ◌==◌, if◌then◌else◌}

pub record ReorgGuard : Type 0 where
  pub expected_next_ledger : ℕ

pub record ReorgEvent : Type 0 where
  pub expected_ledger : ℕ
  pub actual_ledger : ℕ
  pub rewound_to : ℕ

pub data Check : Type 0 where
  continuous : Check
  rewind : ℕ → Check

unfoldable pub init : ReorgGuard
init = record { expected_next_ledger = 0 }

unfoldable pub reset : ReorgGuard → ℕ → ReorgGuard
reset g from = record g { expected_next_ledger = from }

-- The guard after the call, its answer, and the event that `onDivergence` is called with.
unfoldable pub validate : ReorgGuard → ℕ → ReorgGuard × Check × Option ReorgEvent
validate g start =
    if g.expected_next_ledger == 0
    then (record g { expected_next_ledger = start }, continuous, none)
    else (if leb g.expected_next_ledger start
        then (record g { expected_next_ledger = start }, continuous, none)
        else (
          record g { expected_next_ledger = start },
          rewind start,
          some (record {
            expected_ledger = g.expected_next_ledger;
            actual_ledger = start;
            rewound_to = start;
          }),
        ))

unfoldable pub commit : ReorgGuard → ℕ → ReorgGuard
commit g last = record g { expected_next_ledger = last + 1 }
