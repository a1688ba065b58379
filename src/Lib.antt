-- ===== src/Lib.antt =====
-- Opaque on Stellar: the off-chain services.
--
-- A privacy pool on Stellar keeps deposits; an association set provider (asp/) screens them by
-- policies and posts the Merkle root of the approved labels; a reputation publisher (publisher/)
-- collects leaf commitments, checks the attestations behind them and posts their root; relayers
-- (relayer/) bid for withdrawals, accept them on-chain and submit them before a deadline. Clients
-- (sdk/) replay an inclusion proof before they rely on it. The parts meet at the chain, which each
-- part sees through an adapter.
--
-- Base has what the other modules share: tests on numbers, lists, strings, the JavaScript Map (Dict),
-- numbers that are not whole (Fractions) and code with a state that may throw (Exec).
-- Merkle is MerkleTree of asp/src/merkle.ts and assertAspInclusionMatchesRoot of
-- sdk/src/prove/asp-client.ts.
-- Asp: Types is asp/src/types.ts; Policy is policy.ts and policy-engine.ts; Guard is reorg-guard.ts;
-- Monitor is monitor.ts; Dataset is set.ts and computeDatasetHash of publish.ts; Tick is engine.ts.
-- Publisher: Types, Validate and Store are types.ts, validate.ts and the MemoryStore of store.ts of
-- publisher/src; Merge is mergeLeaves and Tick is runPublisherTick of engine.ts.
-- Relayer: RateLimit is rate-limit.ts; Queue is job-queue.ts, and Queue.Durable the map that it is
-- seen as; Ledger and Reconciler are reconciler.ts; Hub is hub.ts; Engine is engine.ts of
-- relayer/src, with handlePayload in Engine.Payload and resumeAcceptedJobs in Engine.Resume.
-- Sdk: Amount is sdk/src/crypto/amount.ts; Notes is note-codec.ts beside it; WorkerPool is
-- sdk/src/prove/worker-pool.ts, a worker's message or error being an event.
-- Frontend: Retry is frontend/src/lib/retryPolicy.ts, with runWithRetryPolicy in Retry.Run;
-- NoteStore is frontend/src/store/poolNoteStore.ts; PoolSweep is frontend/src/lib/poolSweep.ts, which
-- puts its notes into that store, with PoolSweep.Submitted over Submission, the contract calls of
-- stellar.ts; ProofLimiter is frontend/src/lib/proofRateLimiter.ts;
-- Backoff is frontend/src/lib/horizonBackoff.ts; History is history-reconciliation.ts beside it.
--
-- A chain adapter is a record of calls on an abstract chain state; a theorem that needs more of it
-- takes the documented behaviour of the calls as a hypothesis. Poseidon, SHA-256, sealed boxes,
-- signatures and payload encoding are parameters. Texts are lists of code points; 32-byte hexadecimal
-- numbers are numbers, except where the code handles their spelling. A run is one call at a time. The
-- fuel of a submission or of a retried call is the number of attempts, which is the code's own bound;
-- that of a decimal print is the number itself, which is more than it has digits; that of a poll for
-- a transaction is 60 rounds, a second each, behind which the code's timeout of 60 s has passed.
-- Fractions are exact, in place of floating point numbers.
--
-- Not modelled: HTTP, files, timers, logging, environment and metrics; the contracts and the
-- circuits; the rest of the SDK and of the web client. The process-wide defaults of the retry policy
-- and of the proof limiter are left out too.
pub mod Base
pub mod Merkle
pub mod Asp
pub mod Publisher
pub mod Relayer
pub mod Sdk
pub mod Frontend
