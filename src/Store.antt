-- ===== src/Store.antt =====
-- The state that the services of src/final-demo share: the tables of prisma/schema.prisma, the
-- in-process counters of lib/queue-metrics.ts and the clock, with the exceptions and the monad of
-- the code that works on them.
mod Json
mod Tables
mod Monad
mod Updates
unfoldable pub use Json.*
unfoldable pub use Tables.*
unfoldable pub use Monad.*
pub use Updates.*
