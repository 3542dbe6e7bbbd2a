-- ===== src/Scanner.antt =====
-- prime_jennie/services/scanner: the gates before a buy signal and the strategies that detect one.
pub mod Times
pub mod Types
pub mod Gates
pub mod Passed
pub mod Averages
pub mod Strategies
pub mod Openings
pub mod Detect
mod Signs
pub mod Grounds
pub mod Detected
pub mod Watch
pub mod Loop
pub mod Tick
pub mod Emits
pub mod Sound
mod Tests
