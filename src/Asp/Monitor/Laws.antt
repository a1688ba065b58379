-- ===== src/Asp/Monitor/Laws.antt =====
-- When the monitor speaks.
use opauque_stellar.Base.{ℕ, ◌+◌, ◌-◌, ◌≡◌, ◌↔◌, ◌<◌, ◌≤◌, arith, none, some}
use opauque_stellar.Asp.Monitor.{PublicationMonitor, record_publication, check}

-- After a publication at a time that is not 0, a check finds the root stale exactly when it is older
-- than the threshold, and the alert names that root, its ledger and its age.
pub check-record_publication :
    (m : PublicationMonitor) (at root ledger now : ℕ)
    → 0 < at
    → ((check (record_publication m at root ledger) now ≡ none) ↔ (now ≤ at + m.max_root_age_ms))
      × ((check (record_publication m at root ledger) now
            ≡ some (record {
              last_published_at = at;
              last_root = some root;
              last_ledger = ledger;
              age_ms = now - at;
              threshold_ms = m.max_root_age_ms;
            }))
          ↔ (at + m.max_root_age_ms < now))
unfolding check record_publication
check-record_publication m at root ledger now h = ground arith
