-- ===== src/Lib.antt =====
-- Two programs over Hydra heads. The services of src/final-demo: a queue of workflows in a
-- database, the worker that executes them against the heads, and the request handlers that put
-- them there. And src/client: payments by hash time locks (HTLCs) over several heads, step by
-- step, with the handlers that lock, claim and refund them.
--
-- The final demo has a web application, a worker process and a database between them. Requests
-- (app/api/workflows) check actors, addresses, amounts and heads and create workflows under an
-- idempotency key; workers claim workflows under a lock that expires, run their three steps
-- through services that talk to Hydra nodes, and mark the outcome; a reconciler and administrators
-- queue finished workflows again. Every write to the workflow table in this development is one of
-- the functions of lib/workflows.ts or of the two handlers that patch a payload.
--
-- The client keeps a topology, tables of heads, nodes and paths, chosen in the browser and
-- repeated in a cookie. A payment follows a path of the topology: its hook asks the handler of
-- each step's head to lock an HTLC, polls the head's outputs until it shows, and goes on; the
-- handlers take the user and the head from the request and the cookie, and build the transaction
-- through Lucid.
--
-- The files, and what they model (paths under src/final-demo):
--   Base: Boolean tests, lists and texts, with Base/Maps for objects as association lists, over
--     the native natural numbers; String is ECMAScript's, with trim and toLowerCase written out
--     (toLowerCase on ASCII letters).
--   Store: the tables of prisma/schema.prisma as lists of records, the exceptions and the state
--     monad M of code that may throw. What was written before a throw stays written. An update of
--     the database is update_where, with the row test of the source's `where`.
--   Queue: lib/workflows.ts and lib/queue-metrics.ts. Metrics, Steps, Create, Claim, Lock,
--     Outcome, Retry and Reconcile hold the functions; Exclusive, CreateOnce, Retries, Reconciled
--     and Complete hold theorems.
--   Heads, Policy, Lottery: lib/heads.ts; lib/interaction-policy.ts, lib/wallet/mock-wallets.ts
--     and lib/request-funds-amount.ts; lib/lottery-instances.ts. Policy/Gate and Lottery/Race
--     hold theorems.
--   Routes: app/api/workflows/request-funds, app/api/workflows/buy-ticket and the queue part of
--     app/api/hydra-ops/htlc/submit. Routes/Replays, Routes/Overtaken and Routes/Gate hold
--     theorems.
--   Admin: lib/auth/role-guard.ts and the handlers of app/api/admin: Payout
--     (lottery/pay-random-winner), Heads (heads/open) and Upkeep (workflows/[id]/retry,
--     reconcile, lottery/reconcile); Admin/Single holds theorems.
--   Interleaving: all writes to the workflow table as one type of operations, and histories of
--     them by any number of workers and requests; the creation of a workflow has what others do
--     between its lookup and its transaction, which may be other creations. Rule says what one
--     write may do to a row; Claims, Writes and Requeues show it of each operation, History of
--     histories, and the other files draw conclusions.
--   Executor: lib/executor.ts with lib/services/request-funds.ts, lib/services/ticket-service.ts
--     and the tick of worker.ts. Errors, Step, Funds, Ticket, Workflows, Purchase, Payout,
--     HeadOps, Run and Worker hold the functions; LockLoss, Resume, Ticks and Completion hold
--     theorems.
--   Client (paths under src/client): Numbers: ECMAScript's Numbers that are integers, rounded to
--     53 bits, and integers; Users, Topologies and Paths: lib/users.ts and lib/topologies.ts;
--     Selection: lib/config.ts, lib/api-topology.ts and app/api/topology; Validation:
--     lib/validate-topology.ts; Assets: dictionaries of assets in lib/hydra-utils.ts. Api: the
--     handlers of app/api/hydra/[headRoute], with Ids and Spend for what they share, Lock
--     (htlc/lock), Claim (htlc/claim), Refund (htlc/refund), Vesting (vesting/claim) and Listing
--     (utxos). Payment: lib/use-payment-orchestration.ts and lib/claim-intermediary-htlc.ts, with
--     Polls, Attempts and Execute. Paths/Routes, Assets/RoundTrip, Api/Inversion, Sent, Locked,
--     Returned, LeftOut, Validity,
--     Digits and Shown, and Payment/Sights, Order, Ordered, Counts, Bounds,
--     Keeps and Complete hold theorems.
--   Tests: the theorems at concrete inputs. Queues, Requests and Executions are about the final
--     demo, Payments, Contracts and Runs about the client.
--
-- State is passed explicitly. A function of the source that awaits the database in several
-- statements is one step here where it runs in a transaction or nothing of the statement can be
-- invalidated in between; where other processes can come in between and it matters, they are a
-- parameter: `others` of create_workflow and of the lottery's registration, and every call of a
-- service, which may find the store changed. Times are milliseconds as natural numbers, `clock` is
-- the present, and it stands still within one operation. Identifiers and worker names are numbers.
-- Loops run over the lists that the source's loops run over, or count down from the source's own
-- bounds (30 or 60 polls and 4 attempts for a step). There is fuel only in the rounding of a
-- Number, for 1023 doublings: what has more bits is infinite. The deadlines of the client's
-- contracts are integers, computed as ECMAScript computes them. A payment under way is a hook, a
-- log of what it exchanged with the server, its answers as they came, and the number of awaits so
-- far.
--
-- Parameters stand for what is outside of the repository or behind Lucid and the Hydra nodes: the
-- database's ordering, generated identifiers, SHA-256 digests, the environment's settings,
-- ECMAScript's Number on stored values, the nodes' answers, Ida's lock on head B, lookups and
-- claims of HTLCs, the script of a head operation and the transactions of a payout. For the client
-- they are Lucid and the conversions of its data (the record Lucid), the answers of the nodes of a
-- topology, and the World of a payment: the server's answers by the number of the await, what
-- others do to the hook in the meantime, and floating-point amounts and timeouts.
--
-- Not modelled: logging, the rendering of responses, the worker's timers, the administrators' list
-- of workflows and script that creates a lottery, transaction building, the pages of both
-- programs, access to Hydra nodes by websocket, wallets and keys, the off-chain scripts, and the
-- validators, which are written in another language.
pub mod Base
pub mod Store
pub mod Queue
pub mod Heads
pub mod Policy
pub mod Lottery
pub mod Routes
pub mod Interleaving
pub mod Executor
pub mod Admin
pub mod Tests
pub mod Client
