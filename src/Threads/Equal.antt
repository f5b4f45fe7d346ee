-- ===== src/Threads/Equal.antt =====
-- The programs of the tasks, run alone, beside the sequential definitions of the handlers.
pub mod Call
pub mod Connections
pub mod Handlers
pub mod Submit
