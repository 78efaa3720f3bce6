-- ===== src/Dispatcher.antt =====
-- internal/core/dispatcher.go and internal/core/worker.go: the dispatcher.
pub mod Pool
pub mod State
pub mod Steps
pub mod Cancel
pub mod Submit
pub mod Delay
pub mod Run
pub mod Restore
pub mod Lifecycle
