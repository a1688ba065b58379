-- ===== src/Relayer.antt =====
-- The operator's node of relayer/src: its queue of accepted jobs, its engine, its ledger of
-- submitted jobs with the reconciler, and the hub that scores and reassigns.
pub mod Types
pub mod Queue
pub mod Engine
pub mod Ledger
pub mod Reconciler
pub mod RateLimit
pub mod Hub
pub mod Tests
