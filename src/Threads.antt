-- ===== src/Threads.antt =====
-- The handlers of rustygeard/src/service.rs and rustygeard/src/server.rs as threads that interleave
-- between the steps at which they lock, unlock and change the shared state.
pub mod Does
pub mod Call
pub mod Connections
pub mod Equal
pub mod Exclusive
pub mod Handlers
pub mod Machine
pub mod Numbers
pub mod Order
pub mod Program
pub mod Progress
pub mod Schedule
pub mod Submit
pub mod Tickets
