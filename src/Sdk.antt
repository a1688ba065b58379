-- ===== src/Sdk.antt =====
-- sdk/src: the parts of the client library that compute on amounts, notes and jobs.
pub mod Amount
pub mod Notes
pub mod WorkerPool
