-- ===== src/Examples/Startup/Started.antt =====
-- A start with every configured database at hand.
use dr_metrix.Prelude.{
  ◌%◌, ◌^◌, ◌≡◌, refl, ◌∙◌, inr, Bool, true, List, [], ◌++◌, All, All-left, All-right, length,
  append-nil, append_assoc,
}
use dr_metrix.Std.{Str, Floats, codes}
use dr_metrix.Core.Exec.{Exec, Outcome}
use dr_metrix.Core.Exec
use dr_metrix.Core.Metrics.{Client}
use dr_metrix.Core.Registry.{
  Opts, Registry, IsRegistry, all_fresh, valid_opts, valid_name, later_chars,
}
use dr_metrix.Postgres.Pool.{value, Json}
use dr_metrix.Postgres.Fields.{PostgresMetric}
use dr_metrix.Redis.Fields.{RedisMetric}
use dr_metrix.Mongo.Fields.{MongoMetric}
use dr_metrix.Mongo.Collect.{Documents}
use dr_metrix.Axum.State.{
  Runtime, PrometheusMetrics, build, build_registry, new_http_metrics, register_http_metrics,
  builder, with_process_collector,
}
use dr_metrix.Axum.State.Names.{
  http_opts, redis_opts, mongo_opts, postgres_opts, all_opts, all_opts_valid, create_metrics_runs,
  registers_prefix,
}
use dr_metrix.Examples.Routes.{arc, AppState}
use dr_metrix.Examples.Startup.{done, ◌>>=◌, Environment, start, address, run, main}
use dr_metrix.Examples.Startup.Stages.{
  configured, handle_of, IsAnswered, names, IsReady, start_postgres_runs, start_redis_runs,
  start_mongo_runs, register_all,
}

-- Every call for a configured database is answered, and so are those for the server.
pub record IsAvailable {rt : Runtime} (env : Environment rt) : Type 0 where
  pub pg_pool : IsAnswered env.pg_pool env.pg_url
  pub redis_config : IsAnswered env.redis_config env.redis_url
  pub redis_pool : IsAnswered env.redis_pool env.redis_url
  pub redis_connect : IsAnswered env.redis_connect env.redis_url
  pub mongo_client : IsAnswered env.mongo_client env.mongo_url
  pub bind : env.bind (address env) ≡ value tt
  pub serve : env.serve ≡ value tt

abbrev pub configured_names : {rt : Runtime} → Environment rt → List Str
configured_names env =
    configured env.pg_url (codes "postgres")
    ++ (configured env.redis_url (codes "redis") ++ configured env.mongo_url (codes "mongo"))

-- The state that the handlers then have.
abbrev pub configured_state : {rt : Runtime} → Environment rt → AppState
configured_state env = record {
  prom = arc;
  pg_metrics = handle_of env.pg_url;
  redis_pool = handle_of env.redis_url;
  redis_metrics = handle_of env.redis_url;
  mongo_metrics = handle_of env.mongo_url;
}

opts_valid : All (λ o. valid_opts o ≡ true) (all_opts (codes "myapp"))
unfolding valid_name later_chars
opts_valid = all_opts_valid (codes "myapp") (inr refl)

abbrev Valid : List Opts → Type 0
Valid = All (λ o. valid_opts o ≡ true)

abbrev IsValid : Opts → Type 0
IsValid o = valid_opts o ≡ true

http-Valid : Valid (http_opts (codes "myapp"))
http-Valid =
    All-left IsValid (http_opts (codes "myapp"))
      (postgres_opts (codes "myapp") ++ (redis_opts (codes "myapp") ++ mongo_opts (codes "myapp")))
      opts_valid

later-Valid :
    Valid
      (postgres_opts (codes "myapp") ++ (redis_opts (codes "myapp") ++ mongo_opts (codes "myapp")))
later-Valid =
    All-right IsValid (http_opts (codes "myapp"))
      (postgres_opts (codes "myapp") ++ (redis_opts (codes "myapp") ++ mongo_opts (codes "myapp")))
      opts_valid

postgres-Valid : Valid (postgres_opts (codes "myapp"))
postgres-Valid =
    All-left IsValid (postgres_opts (codes "myapp"))
      (redis_opts (codes "myapp") ++ mongo_opts (codes "myapp")) later-Valid

redis_mongo-Valid : Valid (redis_opts (codes "myapp") ++ mongo_opts (codes "myapp"))
redis_mongo-Valid =
    All-right IsValid (postgres_opts (codes "myapp"))
      (redis_opts (codes "myapp") ++ mongo_opts (codes "myapp")) later-Valid

redis-Valid : Valid (redis_opts (codes "myapp"))
redis-Valid =
    All-left IsValid (redis_opts (codes "myapp")) (mongo_opts (codes "myapp")) redis_mongo-Valid

mongo-Valid : Valid (mongo_opts (codes "myapp"))
mongo-Valid =
    All-right IsValid (redis_opts (codes "myapp")) (mongo_opts (codes "myapp")) redis_mongo-Valid

module _ {E F : Type 0} (r : Registry E) (rt : Runtime) (lawful : IsRegistry r) (floats : Floats F)
    (json : Json F) (docs : Documents) (checks : Bool) (postgres : Client PostgresMetric F)
    (redis : Client RedisMetric F) (mongo : Client MongoMetric F) (env : Environment rt) where
  start_runs :
      (app : PrometheusMetrics r rt)
      → IsAvailable env
      → IsReady r rt app [] (
          postgres_opts (codes "myapp")
          ++ (redis_opts (codes "myapp") ++ mongo_opts (codes "myapp")))
      → (app' : PrometheusMetrics r rt) × (start r rt floats json docs checks postgres redis mongo
            env app
          ≡ (done (configured_state env), app'))
        × (names r rt app' ≡ configured_names env)
        × (app'.collector_count ≡ length (configured_names env) % 2 ^ 64)
  unfolding start ◌>>=◌
  start_runs app h ready =
      let (app1, run1, ready1) =
        start_postgres_runs r rt lawful floats json docs checks postgres redis mongo env env.pg_url
          (redis_opts (codes "myapp") ++ mongo_opts (codes "myapp")) [] app h.pg_pool postgres-Valid
          ready in
      let (app2, run2, ready2) =
        start_redis_runs r rt lawful floats json docs checks postgres redis mongo env env.redis_url
          (mongo_opts (codes "myapp")) _ app1 h.redis_config h.redis_pool h.redis_connect
          redis-Valid ready1 in
      let (app3, run3, ready3) =
        start_mongo_runs r rt lawful floats json docs checks postgres redis mongo env env.mongo_url
          [] _ app2 h.mongo_client mongo-Valid
          (rw (append-nil (mongo_opts (codes "myapp"))) ready2) in
      let same =
        append_assoc (configured env.pg_url (codes "postgres"))
          (configured env.redis_url (codes "redis")) (configured env.mongo_url (codes "mongo")) in
      (app3, rw (run1, run2, run3), ready3.named ∙ same, ready3.counted ∙ rw same)

  build_runs :
      (process : List Opts) (runtime : rt.State)
      → all_fresh [] (process ++ all_opts (codes "myapp")) ≡ true
      → (app : PrometheusMetrics r rt) × (build r rt process
            (with_process_collector (builder (codes "myapp")))
            runtime
          ≡ Exec.ok app)
        × IsReady r rt app [] (
            postgres_opts (codes "myapp")
            ++ (redis_opts (codes "myapp") ++ mongo_opts (codes "myapp")))
  unfolding build build_registry new_http_metrics register_http_metrics
  build_runs process runtime fresh =
      let (s1, registers, fresh1) =
        register_all r rt lawful floats json docs checks postgres redis mongo process
          (all_opts (codes "myapp")) r.new (rw lawful.registered-new fresh) in
      let (s2, registers2, fresh2) =
        registers_prefix r lawful (http_opts (codes "myapp"))
          (postgres_opts (codes "myapp")
            ++ (redis_opts (codes "myapp") ++ mongo_opts (codes "myapp")))
          s1 fresh1 in
      (
        record { registry = s2; handles = []; collector_count = 0; runtime = runtime },
        rw (
          registers,
          create_metrics_runs r lawful (http_opts (codes "myapp")) s1 http-Valid,
          registers2,
        ),
        record { named = refl; counted = refl; fresh = fresh2 },
      )

  -- When every configured database answers and the names of the process collector are new, `main` builds the
  -- state, adds exactly the configured collectors in the order of the source, and hands the handlers their
  -- handles; when the server then binds and ends, `main` ends without an error. The registry is assumed
  -- to do what it documents.
  pub main_starts :
      (process : List Opts) (runtime : rt.State)
      → all_fresh [] (process ++ all_opts (codes "myapp")) ≡ true
      → IsAvailable env
      → (app app' : PrometheusMetrics r rt) × (build r rt process
            (with_process_collector (builder (codes "myapp")))
            runtime
          ≡ Exec.ok app)
        × (start r rt floats json docs checks postgres redis mongo env app
            ≡ (done (configured_state env), app'))
        × (names r rt app' ≡ configured_names env)
        × (app'.collector_count ≡ length (configured_names env) % 2 ^ 64)
        × ((main r rt floats json docs checks postgres redis mongo process env runtime).0 ≡ done tt)
  unfolding main run ◌>>=◌
  main_starts process runtime fresh h =
      let (app, builds, ready) = build_runs process runtime fresh in
      let (app', starts, named, counted) = start_runs app h ready in
      (app, app', builds, starts, named, counted, rw (builds, starts, h.bind, h.serve))
