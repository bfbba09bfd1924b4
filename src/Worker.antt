-- ===== src/Worker.antt =====
-- packages/worker/src: how a worker claims, runs and releases jobs.
mod Tests
pub mod Claim
pub mod Handlers
pub mod Process
pub mod Lane
pub mod Shutdown
pub mod Main
