-- ===== src/Lib.antt =====
-- A model of dr-metrix, a set of Rust crates that export the metrics of an application and of its databases
-- to Prometheus, and the proofs of what the crates do.
--
-- The program. dr-metrix-core has the error type, the trait `MetricsCollector` and its background loop.
-- dr-metrix-redis, dr-metrix-mongo and dr-metrix-postgres have one collector each: it owns the handles of
-- its metrics, `new` makes them, `register` puts them into a registry, and `collect` asks the server and sets
-- them. dr-metrix-axum owns the registry, registers a collector and starts its loop (`add_collector`), stops
-- the loops (`shutdown`), counts requests in a Tower layer, and answers `/metrics` and `/health`. The example
-- application starts the collectors that its environment names, routes requests to the pages of the crate and,
-- under the layer, to counters kept in Redis, and stops the collectors when it ends.
--
-- The files, with the code that each models:
--   Core/Error, Core/Collector, Core/Collector/Loop   dr-metrix-core/src: error.rs, collector.rs, lib.rs
--   Core/Exec, Core/Metrics, Core/Registry            the effects of the code, the metric values, the registry
--   Redis/Info                                        dr-metrix-redis/src/info_parser.rs
--   Redis/Fields, Redis/Collect, Redis/Collector      dr-metrix-redis/src/metrics.rs
--   Mongo/Fields, Mongo/Bytes, Mongo/Collect, Mongo/Collector
--                                                     dr-metrix-mongo/src/metrics.rs
--   Postgres/Pool                                     dr-metrix-postgres/src/pool
--   Postgres/Fields, Postgres/Collect, Postgres/Collector
--                                                     dr-metrix-postgres/src/metrics.rs
--   Axum/Fields, Axum/Layer, Axum/State, Axum/Handler dr-metrix-axum/src: http_metrics.rs, layer.rs, state.rs,
--                                                     handler.rs
--   Axum/Layer/Service                                dr-metrix-axum/src/layer.rs: the wrapped service
--   Axum/Layer/Atomic                                 its calls as operations on single series
--   Postgres/Collect/Adapters                         the collector over the adapters of its pool
--   Examples/Routes, Examples/Router, Examples/Startup
--                                                     examples/src/main.rs
--   Examples/Interleaved                              the Redis metrics, which the task and the routes share
--   Std                                               the parts of the Rust standard library that the code calls
--   Prelude                                           shared names and lemmas
--   Tests                                             concrete instances, tests, and the theorems at concrete inputs
-- The other files below a module prove what their names say.
--
-- How the code is read. A function that changes a state is a state passing function whose outcome is a
-- value, an error or a panic (Core/Exec); what was written before an error or a panic stays. A string is the
-- list of its code points, and a slice off a character boundary is a panic. An `i64` is an integer in its
-- range, and where the code computes with it the wrap-around is written out. The handles of a struct are the
-- constructors of an enumeration (`RedisMetric`, `MongoMetric`, `PostgresMetric`, `HttpMetric`), in the order
-- of the source. A bucket bound is a number of units of 0.0001.
--
-- What is a parameter: the Prometheus client (`Client`, `Registry`), tokio (`Runtime`, the acceptance of a
-- period), `f64` (`Floats`), BSON (`Documents`), serde_json (`Json`), diesel (`Diesel`), the service that the
-- layer wraps (`Service`), the commands of the Redis pool (`RedisPool`), axum's router and its tracing (`Axum`,
-- `Platform`), the environment of the example, with the tasks that its libraries start (`Environment`), and the
-- answers of the pools and servers.
-- Their laws (`IsLawful`, `IsRegistry`, `IsRuntime`, `IsShared`, `IsCounterStore`, `IsLoading`, `IsRouting`)
-- state documented behaviour; Core/Metrics and the files of Tests have concrete instances of them.
--
-- Bounds and fuel: the background loop runs for as many ticks as there are inputs, and the theorems hold for
-- each number of them. `print_nat` prints on fuel that is one above the number, and Std/Numerals shows that
-- parsing gives the number back. Nothing else runs on fuel.
--
-- Tasks. An abort of tokio only schedules a task to be cancelled: a task is called live here from its start until it
-- has ended or is scheduled to be cancelled, and a task that is not live may still run up to its next await.
--
-- Not modelled: requests that meet no route or the wrong method, which axum answers, the text format of the
-- metrics, logging, the clock, and the panics of `add_collector` outside a runtime or on a poisoned lock. A
-- metric changes atomically in the client: threads that change several series interleave by these changes in
-- Axum/Layer/Atomic and Examples/Interleaved/Shuffled, and by whole calls elsewhere.
pub mod Prelude
pub mod Std
pub mod Core
pub mod Redis
pub mod Mongo
pub mod Postgres
pub mod Axum
pub mod Examples
pub mod Tests
