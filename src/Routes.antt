-- ===== src/Routes.antt =====
-- The request handlers of src/final-demo/app/api that put workflows into the queue.
pub mod Payload
pub mod RequestFunds
pub mod BuyTicket
pub mod HtlcSubmit
pub mod Replays
pub mod Overtaken
pub mod Gate
