-- ===== src/Examples.antt =====
-- examples/src/main.rs: the example application.
pub mod Routes
pub mod Router
pub mod Interleaved
pub mod Startup
