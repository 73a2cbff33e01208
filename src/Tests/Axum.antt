-- ===== src/Tests/Axum.antt =====
-- Tests of the state of an application and of the layer.
use dr_metrix.Prelude.{
  ◌↔◌, inl, length, ◌^◌, ◌%◌, ◌+◌, ◌≡◌, refl, Bool, true, false, [], ◌∷◌, map, some, pos, wrap_i64,
}
use dr_metrix.Std.{codes, str_eq}
use dr_metrix.Core.Exec.{ok}
use dr_metrix.Core.Metrics.{
  Client, Reading, int, counter, samples, memory_client, memory_client-IsLawful,
}
use dr_metrix.Core.Registry.{all_fresh, taken}
use dr_metrix.Core.Collector.{default, MetricsCollector}
use dr_metrix.Redis.Fields as Redis
use dr_metrix.Redis.Fields.{RedisMetric, redis_metric_eq}
use dr_metrix.Redis.Collector as RedisCollector
use dr_metrix.Redis.Collector.{redis_metrics}
use dr_metrix.Redis.Collect.{Poll}
use dr_metrix.Mongo.Fields as Mongo
use dr_metrix.Mongo.Fields.{MongoMetric, mongo_metric_eq}
use dr_metrix.Postgres.Fields as Postgres
use dr_metrix.Postgres.Fields.{PostgresMetric, postgres_metric_eq}
use dr_metrix.Axum.Fields.{HttpMetric, http_metric_eq, arity, requests_in_flight, requests_total}
use dr_metrix.Axum.Layer.{Request, begin}
use dr_metrix.Axum.Layer.Requests.Effects.{captured}
use dr_metrix.Core.Registry.Laws.{register_metrics_iff}
use dr_metrix.Axum.Layer.Requests.{
  System, begins, drops, Reach, here, next, IsConsistent, Reach-IsConsistent,
}
use dr_metrix.Axum.State.{PrometheusMetrics, builder, build, add_collector, shutdown}
use dr_metrix.Axum.State.Shutdown.{shutdown_stops}
use dr_metrix.Axum.State.Handles.{IsKept}
use dr_metrix.Axum.State.Lifecycle as Lifecycle
use dr_metrix.Axum.State.Registering.{add_collectors, collectors_added}
use dr_metrix.Axum.Handler.{health_handler}
use dr_metrix.Axum.Handler.Health.{reported, health_reports}
use dr_metrix.Tests.Fixtures.{
  floats, docs, json, registry, registry-IsRegistry, runtime, runtime-IsRuntime,
}

abbrev redis_client : Client RedisMetric Bool
redis_client = memory_client Redis.arity

abbrev collector : MetricsCollector registry redis_client.State Poll
collector = redis_metrics floats redis_client registry default

abbrev empty_app : PrometheusMetrics registry runtime
empty_app = record { registry = []; handles = []; collector_count = 0; runtime = [] }

-- The same names are in the registry already.
abbrev full_app : PrometheusMetrics registry runtime
full_app = record {
  registry = map (Redis.opts []) Redis.metrics;
  handles = (codes "redis", 0) ∷ [];
  collector_count = 1;
  runtime = true ∷ [];
}

redis_opts_fresh : all_fresh [] (map (Redis.opts []) Redis.metrics) ≡ true
unfolding all_fresh taken str_eq Redis.opts
redis_opts_fresh = refl

registers : (collector.register empty_app.registry).0 ≡ ok tt
unfolding redis_metrics RedisCollector.register
registers =
    (register_metrics_iff registry registry-IsRegistry (map (Redis.opts []) Redis.metrics) []).1
      redis_opts_fresh

shutdown_stops_example :
    let after = shutdown registry runtime full_app in
    ((runtime.live after.runtime 0 ≡ true)
      ↔ ((runtime.live full_app.runtime 0 ≡ true) × (¬ (IsKept full_app.handles 0))))
    × (health_handler registry runtime after ≡ health_handler registry runtime full_app)
    × (shutdown registry runtime after ≡ after)
shutdown_stops_example = shutdown_stops registry runtime runtime-IsRuntime full_app 0

collectors_added_example :
    (app : PrometheusMetrics registry runtime) × (build registry runtime [] (builder []) []
      ≡ ok app)
    × (let done =
          add_collectors {F = Bool} registry registry-IsRegistry runtime floats json docs false
            default
            (memory_client Postgres.arity)
            (memory_client Redis.arity)
            (memory_client Mongo.arity)
            15
            15
            15
            app in
        (done.0 ≡ ok tt)
        × (done.1.collector_count ≡ 3)
        × (map (λ named. named.0) done.1.handles
            ≡ codes "postgres" ∷ codes "redis" ∷ codes "mongo" ∷ []))
collectors_added_example =
    collectors_added registry registry-IsRegistry runtime floats json docs false default
      (memory_client Postgres.arity) (memory_client Redis.arity) (memory_client Mongo.arity)
      (inl refl) 15 15 15 []

abbrev first : Lifecycle.System registry runtime
first = record { app = empty_app; stopped = 0 }

abbrev with_redis : Lifecycle.System registry runtime
with_redis = record first { app = (add_collector registry runtime collector 15 empty_app).1 }

abbrev last : Lifecycle.System registry runtime
last = record {
  app = shutdown registry runtime with_redis.app;
  stopped = 0 + length with_redis.app.handles;
}

lifecycle : Lifecycle.Reach registry runtime first last
lifecycle =
    Lifecycle.next (Lifecycle.next Lifecycle.here (Lifecycle.adds first collector 15 registers))
      (Lifecycle.shuts with_redis)

health_reports_example :
    reported (health_handler registry runtime last.app).body
    ≡ some ((length last.app.handles + last.stopped) % 2 ^ 64)
health_reports_example = health_reports registry runtime runtime-IsRuntime lifecycle refl

abbrev client : Client HttpMetric Bool
client = memory_client arity

-- No request has come yet.
abbrev zero_of : HttpMetric → Reading Bool
zero_of requests_total = counter 0
zero_of requests_in_flight = int (pos 0)
zero_of _ = samples []

abbrev zeros : client.State
zeros s = zero_of s.metric

abbrev start : System (Unit {0}) floats client
start = record { metrics = zeros; pending = []; dropped = 0; finished = []; measured = [] }

start-IsConsistent : IsConsistent Unit floats client start
unfolding wrap_i64
start-IsConsistent = record {
  gauge = refl;
  totals = λ ls. refl;
  durations = λ ls. ([], refl, refl);
  lengths = λ ls. ([], refl, refl);
}

abbrev users : Request
users = record {
  method = codes "GET";
  matched_path = some (codes "/users/:id");
  uri_path = codes "/users/1";
}

-- A request comes, and its client goes away.
abbrev come : System (Unit {0}) floats client
come = record start {
  metrics = (begin {E = Unit {0}} floats client users start.metrics).1;
  pending = captured users ∷ [];
}

abbrev gone : System (Unit {0}) floats client
gone = record come { pending = []; dropped = 1 }

gone-Reach : Reach Unit floats client start gone
gone-Reach = next (next here (begins start users)) (drops come [] [] (captured users) refl)

Reach-IsConsistent_example : IsConsistent Unit floats client gone
Reach-IsConsistent_example =
    Reach-IsConsistent Unit floats client (memory_client-IsLawful arity) gone-Reach
      start-IsConsistent
