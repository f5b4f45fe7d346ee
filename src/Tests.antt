-- ===== src/Tests.antt =====
-- Runs of the modelled code, and instances of its properties at concrete inputs.
pub mod Admin
pub mod Client
pub mod Codec
pub mod Instances
pub mod Journey
pub mod Lifecycle
pub mod Queues
pub mod Runs
pub mod Service
pub mod Stuck
pub mod Tasks
pub mod Threads
pub mod Workers
