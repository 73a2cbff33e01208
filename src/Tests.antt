-- ===== src/Tests.antt =====
-- Tests of the definitions, and applications of the theorems to concrete inputs.
mod Fixtures
mod Redis
mod Mongo
mod Postgres
mod Pool
mod Core
mod Axum
mod Examples
mod Layer
mod Router
mod Interleaved
mod Startup
