-- ===== src/Queue.antt =====
-- The workflow queue of src/final-demo: lib/workflows.ts and lib/queue-metrics.ts.
pub mod Metrics
pub mod Steps
pub mod Create
pub mod Claim
pub mod Lock
pub mod Outcome
pub mod Retry
pub mod Reconcile
pub mod Exclusive
pub mod CreateOnce
pub mod Retries
pub mod Reconciled
pub mod Complete
