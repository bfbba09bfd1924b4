-- ===== src/Custody.antt =====
-- Where a job is: the lists and the sorted set of Redis, and the hands of the processes.
pub mod Lists
pub mod Protocol
pub mod Threads
pub mod Reaping
pub mod Firing
pub mod Invariant
pub mod Moves
pub mod Fewer
pub mod Steps
pub mod Reach
mod Tests
