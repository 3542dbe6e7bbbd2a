-- ===== src/Backtest.antt =====
-- prime_jennie/services/backtest: the simulated portfolio.
pub mod Types
pub mod Portfolio
pub mod Trades
pub mod Days
pub mod Ledger
pub mod Steps
pub mod Recorded
pub mod Replay
mod Tests
