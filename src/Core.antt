-- ===== src/Core.antt =====
-- dr-metrix-core, and the interfaces of the Prometheus client library that all crates use.
pub mod Error
pub mod Exec
pub mod Metrics
pub mod Registry
pub mod Collector
