-- ===== src/Services.antt =====
-- What the services call outside the program: Redis, the gateway of the broker and the clock, and the
-- methods that make such calls and may raise.
pub mod Calls
pub mod Action
pub mod Keeps
pub mod Trace
pub mod Gives
pub mod Locks
pub mod Counts
