-- ===== src/Redisq.antt =====
-- queue/redisq/redisq.go: a queue whose messages are in Redis.
pub mod Redis
pub mod Script
pub mod Effect
pub mod System
pub mod Counts
pub mod Kept
pub mod Exact
pub mod Owners
pub mod Lives
pub mod Expired
pub mod Payload
pub mod Delivered
pub mod Client
pub mod Round
pub mod Options
pub mod Keys
