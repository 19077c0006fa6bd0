-- ===== src/Client.antt =====
-- src/client: the demo of payments between Hydra heads, its tables and the logic around them.
pub mod Numbers
pub mod Users
pub mod Topologies
pub mod Paths
pub mod Selection
pub mod Validation
pub mod Assets
pub mod Api
pub mod Payment
