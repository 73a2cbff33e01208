-- ===== src/Redis.antt =====
-- dr-metrix-redis: the parser of `INFO ALL` and the collector.
pub mod Info
pub mod Fields
pub mod Collect
pub mod Collector
