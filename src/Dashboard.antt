-- ===== src/Dashboard.antt =====
-- packages/dashboard/src: the state that the pages keep, without what they draw.
mod Tests
pub mod Feed
pub mod Chart
pub mod Api
pub mod Served
pub mod Wire
pub mod JobList
pub mod DeadLetters
pub mod JobDetail
pub mod SubmitForm
pub mod QueueStats
pub mod Shell
pub mod ApiKey
