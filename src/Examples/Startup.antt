-- ===== src/Examples/Startup.antt =====
-- examples/src/main.rs: `main`. The environment variables are given, and so is what the calls of the
-- drivers and of axum answer and which tasks they start. A `?` on any of them ends `main`. The future of the shutdown signal is given to
-- axum, and a panic in it is not one of `main`.
pub mod Lifetime
pub mod Stages
pub mod Started
use dr_metrix.Prelude.{◌≡◌, Option, none, some, List, Bool, unwrap_or, if◌then◌else◌}
use dr_metrix.Std.{Str, codes, Floats}
use dr_metrix.Core.Error.{MetricsError}
use dr_metrix.Core.Exec.{Exec, Outcome}
use dr_metrix.Core.Exec
use dr_metrix.Core.Metrics.{Client}
use dr_metrix.Core.Registry.{Opts, Registry}
use dr_metrix.Core.Collector.{CollectorConfig, MetricsCollector}
use dr_metrix.Core.Collector as Collector
use dr_metrix.Postgres.Pool.{Answer, value, failure, Json}
use dr_metrix.Postgres.Fields.{PostgresMetric}
use dr_metrix.Postgres.Collector as Postgres
use dr_metrix.Redis.Fields.{RedisMetric}
use dr_metrix.Redis.Collector as Redis
use dr_metrix.Mongo.Fields.{MongoMetric}
use dr_metrix.Mongo.Collect.{Documents}
use dr_metrix.Mongo.Collector as Mongo
use dr_metrix.Axum.State.{
  Runtime, PrometheusMetrics, builder, with_process_collector, build, add_collector, on_registry,
  shutdown,
}
use dr_metrix.Examples.Routes.{Arc, arc, AppState}

-- `anyhow::Error`: an error of the crates, or the text of another one.
pub data AnyError (E : Type 0) : Type 0 where
  metrics : MetricsError E → AnyError E
  other : Str → AnyError E

pub data Ended (E A : Type 0) : Type 0 where
  done : A → Ended E A
  failed : AnyError E → Ended E A
  panicked : Ended E A

abbrev pub Main : Type 0 → Type 0 → Type 0 → Type 0
Main S E A = S → Ended E A × S

abbrev pub ended : {E A : Type 0} → Outcome E A → Ended E A
ended (Exec.ok a) = done a
ended (Exec.err e) = failed (metrics e)
ended Exec.panicked = panicked

module _ {S E A : Type 0} where
  abbrev pub pure : A → Main S E A
  pure a s = (done a, s)

  -- The `?` on a result of the crates, and on an answer of another library.
  abbrev pub try : Exec S E A → Main S E A
  try m s = let (o, s') = m s in (ended o, s')

  abbrev pub answer : Answer A → Main S E A
  answer (value a) s = (done a, s)
  answer (failure e) s = (failed (other e), s)

module _ {S E A B : Type 0} where
  infixl 5 ◌>>=◌ ◌>>◌
  abbrev pub continue : Ended E A × S → (A → Main S E B) → Ended E B × S
  continue (done a, s) f = f a s
  continue (failed e, s) f = (failed e, s)
  continue (panicked, s) f = (panicked, s)

  unfoldable pub ◌>>=◌ : Main S E A → (A → Main S E B) → Main S E B
  ◌>>=◌ m f s = continue (m s) f

  abbrev pub ◌>>◌ : Main S E A → Main S E B → Main S E B
  m >> n = m >>= λ _. n

-- The libraries whose calls may start tasks of their own: deadpool_diesel, fred, mongodb and axum.
pub data Library : Type 0 where
  deadpool : Library
  fred : Library
  mongodb : Library
  server : Library

-- The environment variables, and what the calls answer: the pool of deadpool, the configuration and the
-- pool of fred and its first connection, the client of mongodb, the listener, whether the handlers of the
-- signals could be installed, and the server at its end; `starts` is what the calls of a library do to the
-- runtime, by the tasks that they start.
pub record Environment (rt : Runtime) : Type 0 where
  pub pg_url : Option Str
  pub redis_url : Option Str
  pub mongo_url : Option Str
  pub listen : Option Str
  pub pg_pool : Str → Answer (Unit {0})
  pub redis_config : Str → Answer (Unit {0})
  pub redis_pool : Str → Answer (Unit {0})
  pub redis_connect : Str → Answer (Unit {0})
  pub mongo_client : Str → Answer (Unit {0})
  pub bind : Str → Answer (Unit {0})
  pub signals : Bool
  pub serve : Answer (Unit {0})
  pub starts : Library → rt.State → rt.State

abbrev pub address : {rt : Runtime} → Environment rt → Str
address env = unwrap_or env.listen (codes "0.0.0.0:3000")

abbrev pub config : CollectorConfig
config = record {
  namespace = codes "myapp";
  collect_interval = Collector.default.collect_interval;
  const_labels = Collector.default.const_labels;
}

module _ {E F : Type 0} (r : Registry E) (rt : Runtime) (floats : Floats F) (json : Json F)
    (docs : Documents) (checks : Bool) (postgres : Client PostgresMetric F)
    (redis : Client RedisMetric F) (mongo : Client MongoMetric F) where
  -- A call starts the tasks of its library.
  abbrev pub starts : Environment rt → Library → Main (PrometheusMetrics r rt) E (Unit {0})
  starts env library app = (
    done tt,
    record {
      registry = app.registry;
      handles = app.handles;
      collector_count = app.collector_count;
      runtime = env.starts library app.runtime;
    },
  )

  -- `new(…)?` and `add_collector(…)?`
  abbrev pub install :
      {S Input : Type 0}
      → Exec r.State E (Unit {0})
      → MetricsCollector r S Input
      → Main (PrometheusMetrics r rt) E (Unit {0})
  install new collector = do
    try (on_registry r rt new)
    try (add_collector r rt collector config.collect_interval)

  abbrev pub start_postgres :
      Environment rt → Option Str → Main (PrometheusMetrics r rt) E (Option Arc)
  start_postgres env none = pure none
  start_postgres env (some pg_url) = do
    starts env deadpool
    answer (env.pg_pool pg_url)
    install (Postgres.new r config) (Postgres.postgres_metrics floats json postgres r config)
    pure (some arc)

  abbrev pub start_redis :
      Environment rt → Option Str → Main (PrometheusMetrics r rt) E (Option Arc)
  start_redis env none = pure none
  start_redis env (some redis_url) = do
    answer (env.redis_config redis_url)
    answer (env.redis_pool redis_url)
    starts env fred
    answer (env.redis_connect redis_url)
    install (Redis.new r config) (Redis.redis_metrics floats redis r config)
    pure (some arc)

  abbrev pub start_mongo :
      Environment rt → Option Str → Main (PrometheusMetrics r rt) E (Option Arc)
  start_mongo env none = pure none
  start_mongo env (some mongo_url) = do
    starts env mongodb
    answer (env.mongo_client mongo_url)
    install (Mongo.new r config) (Mongo.mongo_metrics docs checks mongo r config)
    pure (some arc)

  abbrev pub state_of : Option Arc → Option Arc → Option Arc → AppState
  state_of pg_metrics redis mongo_metrics = record {
    prom = arc;
    pg_metrics = pg_metrics;
    redis_pool = redis;
    redis_metrics = redis;
    mongo_metrics = mongo_metrics;
  }

  -- From the collectors to the state of the application.
  unfoldable pub start : Environment rt → Main (PrometheusMetrics r rt) E AppState
  start env = do
    pg_metrics ← start_postgres env env.pg_url
    redis_metrics ← start_redis env env.redis_url
    mongo_metrics ← start_mongo env env.mongo_url
    pure (state_of pg_metrics redis_metrics mongo_metrics)

  -- A signal stops the collectors before the server ends.
  abbrev pub shutdown_signal : Environment rt → Main (PrometheusMetrics r rt) E (Unit {0})
  shutdown_signal env app = (done tt, if env.signals then shutdown r rt app else app)

  -- From the collectors to the end of the server.
  unfoldable pub run : Environment rt → Main (PrometheusMetrics r rt) E (Unit {0})
  unfolding start
  run env = do
    state ← start env
    answer (env.bind (address env))
    starts env server
    shutdown_signal env
    answer env.serve

  -- Whichever way `main` ends, the last handle of the state is dropped there.
  abbrev pub dropped :
      Ended E (Unit {0}) × PrometheusMetrics r rt
      → Ended E (Unit {0}) × Option (PrometheusMetrics r rt)
  dropped (result, app) = (result, some (shutdown r rt app))

  abbrev pub after_build :
      Environment rt
      → Outcome E (PrometheusMetrics r rt)
      → Ended E (Unit {0}) × Option (PrometheusMetrics r rt)
  after_build env (Exec.ok app) = dropped (run env app)
  after_build env (Exec.err e) = (failed (metrics e), none)
  after_build env Exec.panicked = (panicked, none)

  -- `main`: its result, and the state of the application where one was built
  unfoldable pub main :
      (process : List Opts)
      → Environment rt
      → rt.State
      → Ended E (Unit {0}) × Option (PrometheusMetrics r rt)
  unfolding run
  main process env runtime =
      after_build env
        (build r rt process (with_process_collector (builder (codes "myapp"))) runtime)
