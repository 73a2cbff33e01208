-- ===== src/Tests/Startup.antt =====
-- Tests of the start and the end of the example application.
use dr_metrix.Prelude.{
  ℕ, suc, zero, List, Bool, ◌⊎◌, inl, inr, ◌≡◌, refl, true, false, [], ◌∷◌, ◌++◌, none, some,
}
use dr_metrix.Std.{codes, str_eq}
use dr_metrix.Core.Exec.{ok, for_each}
use dr_metrix.Core.Metrics.{memory_client}
use dr_metrix.Core.Registry.{
  all_fresh, taken, register, create_metrics, register_metrics, valid_opts, valid_name, later_chars,
  valid_rest, lacks_colon, valid_labels, increasing, create, add_all,
}
use dr_metrix.Postgres.Pool.{value, failure}
use dr_metrix.Postgres.Fields as Postgres
use dr_metrix.Postgres.Fields.{postgres_metric_eq}
use dr_metrix.Postgres.Collector as PostgresCollector
use dr_metrix.Redis.Fields as Redis
use dr_metrix.Redis.Fields.{RedisMetric, redis_metric_eq}
use dr_metrix.Mongo.Fields as Mongo
use dr_metrix.Mongo.Fields.{mongo_metric_eq}
use dr_metrix.Axum.Fields as Http
use dr_metrix.Axum.State.{
  PrometheusMetrics, build_registry, new_http_metrics, register_http_metrics, shutdown, abort_all,
  add_collector, build, builder, with_process_collector,
}
use dr_metrix.Axum.State.Names.{http_opts, postgres_opts, all_opts, all_opts_fresh}
use dr_metrix.Examples.Startup.{
  done, Library, deadpool, fred, mongodb, server, Environment, start, run, main, ◌>>=◌,
}
use dr_metrix.Examples.Startup.Lifetime.{main_stops_tasks}
use dr_metrix.Examples.Startup.Stages.{names}
use dr_metrix.Examples.Startup.Started.{IsAvailable, configured_state, main_starts}
use dr_metrix.Tests.Fixtures.{
  floats, docs, json, registry, registry-IsRegistry, runtime, runtime-IsRuntime,
}

-- Redis and Postgres are configured, MongoDB is not.
abbrev env : Environment runtime
env = record {
  pg_url = some (codes "postgres://localhost");
  redis_url = some (codes "redis://localhost");
  mongo_url = none;
  listen = none;
  pg_pool = λ url. value tt;
  redis_config = λ url. value tt;
  redis_pool = λ url. value tt;
  redis_connect = λ url. value tt;
  mongo_client = λ url. failure (codes "unused");
  bind = λ address. value tt;
  signals = true;
  serve = value tt;
  starts = λ library s. s;
}

env-IsAvailable : IsAvailable env
env-IsAvailable = record {
  pg_pool = refl;
  redis_config = refl;
  redis_pool = refl;
  redis_connect = refl;
  mongo_client = tt;
  bind = refl;
  serve = refl;
}

names_fresh : all_fresh [] ([] ++ all_opts (codes "myapp")) ≡ true
names_fresh = all_opts_fresh (codes "myapp")

main_starts_example :
    (app app' : PrometheusMetrics registry runtime) × (build registry runtime []
        (with_process_collector (builder (codes "myapp")))
        []
      ≡ ok app)
    × (start registry runtime floats json docs false
          (memory_client Postgres.arity)
          (memory_client Redis.arity)
          (memory_client Mongo.arity)
          env
          app
        ≡ (done (configured_state env), app'))
    × (names registry runtime app' ≡ codes "postgres" ∷ codes "redis" ∷ [])
    × (app'.collector_count ≡ 2)
    × ((main registry runtime floats json docs false
          (memory_client Postgres.arity)
          (memory_client Redis.arity)
          (memory_client Mongo.arity)
          []
          env
          []).0
        ≡ done tt)
main_starts_example =
    main_starts registry runtime registry-IsRegistry floats json docs false
      (memory_client Postgres.arity) (memory_client Redis.arity) (memory_client Mongo.arity) env []
      [] names_fresh env-IsAvailable

-- The connection of fred starts a third task.
abbrev connecting : Library → List Bool → List Bool
connecting fred (a ∷ b ∷ []) = a ∷ b ∷ true ∷ []
connecting _ s = s

connecting-foreign :
    (library : Library) (s : List Bool) (k : ℕ)
    → runtime.live (connecting library s) k ≡ true
    → (runtime.live s k ≡ true) ⊎ (k ≡ 2)
connecting-foreign fred (a ∷ b ∷ []) zero h = inl h
connecting-foreign fred (a ∷ b ∷ []) (suc zero) h = inl h
connecting-foreign fred (a ∷ b ∷ []) (suc (suc zero)) h = inr refl
connecting-foreign fred (a ∷ b ∷ []) (suc (suc (suc k))) h = cc
connecting-foreign fred [] k h = inl h
connecting-foreign fred (a ∷ []) k h = inl h
connecting-foreign fred (a ∷ b ∷ c ∷ s) k h = inl h
connecting-foreign deadpool s k h = inl h
connecting-foreign mongodb s k h = inl h
connecting-foreign server s k h = inl h

-- The server of Redis is out of reach, and another task is live.
abbrev unreachable : Environment runtime
unreachable = record env {
  redis_connect = λ url. failure (codes "out of reach");
  starts = connecting;
}

abbrev built_app : PrometheusMetrics registry runtime
built_app = record {
  registry = add_all [] (http_opts (codes "myapp"));
  handles = [];
  collector_count = 0;
  runtime = true ∷ [];
}

-- The collector of Postgres was stopped.
abbrev last_app : PrometheusMetrics registry runtime
last_app = record {
  registry = add_all built_app.registry (postgres_opts (codes "myapp"));
  handles = [];
  collector_count = 1;
  runtime = true ∷ false ∷ true ∷ [];
}

builds :
    build registry runtime [] (with_process_collector (builder (codes "myapp"))) (true ∷ [])
    ≡ ok built_app
unfolding build build_registry new_http_metrics register_http_metrics register create_metrics
    register_metrics valid_opts all_fresh taken str_eq valid_name later_chars valid_rest lacks_colon
    valid_labels increasing create for_each Http.opts
builds = refl

ends :
    (main registry runtime floats json docs false
      (memory_client Postgres.arity)
      (memory_client Redis.arity)
      (memory_client Mongo.arity)
      []
      unreachable
      (true ∷ [])).1
    ≡ some last_app
unfolding main run start shutdown abort_all ◌>>=◌ PostgresCollector.postgres_metrics
    PostgresCollector.new PostgresCollector.register add_collector register create_metrics
    register_metrics valid_opts all_fresh taken str_eq valid_name later_chars valid_rest lacks_colon
    valid_labels increasing create for_each Http.opts Postgres.opts
ends = rw builds refl

abbrev third : ℕ
third = 2

main_stops_tasks_example : (runtime.live (true ∷ []) third ≡ true) ⊎ (third ≡ 2)
main_stops_tasks_example =
    main_stops_tasks registry runtime runtime-IsRuntime floats json docs false
      (memory_client Postgres.arity) (memory_client Redis.arity) (memory_client Mongo.arity)
      (true ∷ []) unreachable (λ (k : ℕ). k ≡ 2) connecting-foreign [] last_app third ends refl
