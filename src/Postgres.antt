-- ===== src/Postgres.antt =====
-- dr-metrix-postgres: the pool adapters and the collector.
pub mod Fields
pub mod Pool
pub mod Collect
pub mod Collector
