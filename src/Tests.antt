-- ===== src/Tests.antt =====
-- The theorems at concrete inputs, and runs of the definitions.
pub mod Samples
pub mod Queues
pub mod Books
pub mod Runs
pub mod Crons
pub mod Specs
pub mod Calls
pub mod Firings
pub mod Schedules
pub mod Restores
pub mod Pools
