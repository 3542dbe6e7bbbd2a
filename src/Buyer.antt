-- ===== src/Buyer.antt =====
-- The buyer in prime_jennie/services/buyer: sizing, the guard of the portfolio and the executor. The
-- executor is an action on the environment, with the guards and calls in the order of the source.
pub mod Tick
pub mod Types
pub mod Atr
pub mod Rsi
pub mod Sizing
pub mod Guard
pub mod Steps
pub mod Correlation
pub mod Place
pub mod Execute
pub mod Calls
mod Signals
mod Gates
mod Lock
mod Orders
mod Aligned
mod Sized
mod Guarded
mod Tests
mod Clamped
