-- ===== src/Executor.antt =====
-- lib/executor.ts, the services that it calls, lib/services/request-funds.ts and
-- lib/services/ticket-service.ts, and the tick of worker.ts.
pub mod Errors
pub mod Step
pub mod Funds
pub mod Ticket
pub mod Workflows
pub mod Purchase
pub mod Payout
pub mod HeadOps
pub mod Run
pub mod LockLoss
pub mod Resume
pub mod Completion
pub mod Worker
pub mod Ticks
