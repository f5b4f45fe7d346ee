-- ===== src/Client.antt =====
-- rustygear/src/client.rs: the client library, by which programs submit jobs and work on them.
pub mod Delivery
pub mod Handlers
pub mod Jobs
pub mod Journey
pub mod Progress
pub mod Ready
pub mod Requests
pub mod State
pub mod Status
pub mod Submission
pub mod Work
