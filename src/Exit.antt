-- ===== src/Exit.antt =====
-- prime_jennie/services/monitor/exit_rules.py: when the monitor sells a position. The texts of the
-- signals are for the log and are left out.
pub mod Signal
pub mod Stops
pub mod Profits
pub mod Evaluate
pub mod Priority
pub mod Held
pub mod Reasons
pub mod Grounds
pub mod Preempt
pub mod Tighten
pub mod Guarded
mod Tests
