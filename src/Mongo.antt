-- ===== src/Mongo.antt =====
-- dr-metrix-mongo
pub mod Fields
pub mod Bytes
pub mod Collect
pub mod Outcomes
pub mod Builds
pub mod Task
pub mod Collector
