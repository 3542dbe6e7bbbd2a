-- ===== src/Config.antt =====
-- prime_jennie/domain/config.py: the settings that the modelled services read. Their values are
-- injected from the environment, so the theorems hold for every value or name what they need.
pub mod Sell
pub mod Levels
