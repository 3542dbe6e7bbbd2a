-- ===== src/Seller.antt =====
-- prime_jennie/services/seller/executor.py: from a sell signal to an order. Each method is an action
-- on the environment, with the guards and calls in the order of the source; texts of reasons are
-- constructors, and log lines are left out.
pub mod Types
pub mod Steps
pub mod Confirm
pub mod Execute
pub mod Calls
pub mod Lock
pub mod Signals
pub mod Orders
pub mod Cooldown
mod Tests
