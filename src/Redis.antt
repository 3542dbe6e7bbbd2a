-- ===== src/Redis.antt =====
-- prime_jennie/infra/redis: messages and cached values. The data models' JSON is a pair of functions.
pub mod Streams
pub mod Cache
pub mod Delivered
pub mod Stored
mod Tests
