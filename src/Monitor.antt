-- ===== src/Monitor.antt =====
-- prime_jennie/services/monitor: the indicators and the loop that watches the positions.
pub mod Indicators
pub mod State
pub mod Orders
pub mod Evaluate
pub mod Tick
pub mod Refresh
mod Sales
pub mod Pending
pub mod Runs
pub mod Fit
mod Tests
