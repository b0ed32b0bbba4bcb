-- ===== src/Bench.antt =====
-- The benchmark (src/bench): what it measures, how it is configured, and its connections.
pub mod Payload
pub mod Float
pub mod Stats
pub mod Config
pub mod Report
pub mod Run
pub mod Connection
pub mod Publisher
pub mod Subscriber
