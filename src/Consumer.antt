-- ===== src/Consumer.antt =====
-- The generated consumer.
pub mod State
pub mod Handle
pub mod Loop
pub mod Take
pub mod Mass
pub mod Fair
pub mod Conservation
pub mod Pending
pub mod Routing
pub mod Unused
pub mod Changes
pub mod Tables
pub mod Waiting
pub mod Kinds
pub mod Config
pub mod Dropped
pub mod Leak
pub mod Answers
pub mod Streams
pub mod Shutdown
pub mod Expiry
