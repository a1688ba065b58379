-- ===== src/Frontend.antt =====
-- frontend/src/lib: the parts of the web client that decide without a user interface.
pub mod Retry
pub mod History
pub mod Backoff
pub mod NoteStore
pub mod ProofLimiter
pub mod Submission
pub mod PoolSweep
