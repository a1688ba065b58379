-- ===== src/Asp/Monitor.antt =====
-- asp/src/monitor.ts: an alert when the last published root is older than a threshold. Times are
-- milliseconds; a clock that went back gives age 0 here and a negative age there, and neither is
-- above a threshold.
pub mod Laws
use opauque_stellar.Base.{ℕ, ◌-◌, Option, none, some, leb, ◌==◌, if◌then◌else◌}

pub record PublicationMonitor : Type 0 where
  pub max_root_age_ms : ℕ
  pub last_published_at : ℕ
  pub last_root : Option ℕ
  pub last_ledger : ℕ

pub record PublicationAlert : Type 0 where
  pub last_published_at : ℕ
  pub last_root : Option ℕ
  pub last_ledger : ℕ
  pub age_ms : ℕ
  pub threshold_ms : ℕ

unfoldable pub monitor : ℕ → PublicationMonitor
monitor max = record {
  max_root_age_ms = max;
  last_published_at = 0;
  last_root = none;
  last_ledger = 0;
}

unfoldable pub record_publication : PublicationMonitor → ℕ → ℕ → ℕ → PublicationMonitor
record_publication m now root ledger = record m {
  last_published_at = now;
  last_root = some root;
  last_ledger = ledger;
}

unfoldable pub check : PublicationMonitor → ℕ → Option PublicationAlert
check m now =
    if m.last_published_at == 0
    then none
    else (if leb (now - m.last_published_at) m.max_root_age_ms
        then none
        else some (record {
          last_published_at = m.last_published_at;
          last_root = m.last_root;
          last_ledger = m.last_ledger;
          age_ms = now - m.last_published_at;
          threshold_ms = m.max_root_age_ms;
        }))
