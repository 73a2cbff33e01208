-- ===== src/Examples/Startup/Stages.antt =====
-- The steps of the start: each adds its collector, or leaves it out.
use dr_metrix.Prelude.{
  ◌+◌, ◌%◌, ◌^◌, ◌≡◌, refl, sym, ap, ◌∙◌, Bool, true, Option, none, some, List, [], ◌∷◌, ◌++◌, All,
  map, arith, length, append-nil, length-append,
}
use dr_metrix.Std.{Str, Floats, codes}
use dr_metrix.Core.Exec.{Exec, Outcome}
use dr_metrix.Core.Exec
use dr_metrix.Core.Metrics.{Client}
use dr_metrix.Core.Registry.{
  Opts, Registry, IsRegistry, all_fresh, add_all, valid_opts, register, register_metrics,
  create_metrics,
}
use dr_metrix.Core.Collector.{MetricsCollector}
use dr_metrix.Postgres.Pool.{Answer, value, Json}
use dr_metrix.Postgres.Fields.{PostgresMetric}
use dr_metrix.Postgres.Collector as Postgres
use dr_metrix.Redis.Fields.{RedisMetric}
use dr_metrix.Redis.Collector as Redis
use dr_metrix.Mongo.Fields.{MongoMetric}
use dr_metrix.Mongo.Collect.{Documents}
use dr_metrix.Mongo.Collector as Mongo
use dr_metrix.Axum.State.{Runtime, PrometheusMetrics, add_collector}
use dr_metrix.Axum.State.Names.{
  redis_opts, mongo_opts, postgres_opts, create_metrics_runs, registers_prefix, all_fresh-append,
  all_fresh_of_later,
}
use dr_metrix.Examples.Routes.{Arc, arc}
use dr_metrix.Examples.Startup.{
  done, ◌>>=◌, Environment, Library, deadpool, fred, mongodb, starts, config, install,
  start_postgres, start_redis, start_mongo,
}

abbrev pub configured : Option Str → Str → List Str
configured none name = []
configured (some url) name = name ∷ []

abbrev pub handle_of : Option Str → Option Arc
handle_of none = none
handle_of (some url) = some arc

map-append : {A B : Type 0} (f : A → B) (xs ys : List A) → map f (xs ++ ys) ≡ map f xs ++ map f ys
map-append f [] ys = refl
map-append f (x ∷ xs) ys = ap (λ (zs : List _). f x ∷ zs) (map-append f xs ys)

-- A call is answered for the configured address.
abbrev pub IsAnswered : (Str → Answer (Unit {0})) → Option Str → Type 0
IsAnswered call none = Unit
IsAnswered call (some url) = call url ≡ value tt

module _ {E : Type 0} (r : Registry E) (rt : Runtime) where
  abbrev pub names : PrometheusMetrics r rt → List Str
  names app = map (λ named. named.0) app.handles

  -- The collectors that were added have these names, and the later metrics are new to the registry.
  pub record IsReady (app : PrometheusMetrics r rt) (ns : List Str) (rest : List Opts)
      : Type 0 where
    pub named : names app ≡ ns
    pub counted : app.collector_count ≡ length ns % 2 ^ 64
    pub fresh : all_fresh (r.registered app.registry) rest ≡ true

  with_task : PrometheusMetrics r rt → Str → r.State → PrometheusMetrics r rt
  with_task app name registry =
      let (handle, runtime) = rt.spawn config.collect_interval app.runtime in
      record {
        registry = registry;
        handles = app.handles ++ (name, handle) ∷ [];
        collector_count = (app.collector_count + 1) % 2 ^ 64;
        runtime = runtime;
      }

module _ {E F : Type 0} (r : Registry E) (rt : Runtime) (lawful : IsRegistry r) (floats : Floats F)
    (json : Json F) (docs : Documents) (checks : Bool) (postgres : Client PostgresMetric F)
    (redis : Client RedisMetric F) (mongo : Client MongoMetric F) where
  -- The tasks that a library starts change nothing of it.
  started-IsReady :
      (env : Environment rt) (library : Library) (app : PrometheusMetrics r rt) (ns : List Str)
      (rest : List Opts)
      → IsReady r rt app ns rest
      → IsReady r rt
          (starts r rt floats json docs checks postgres redis mongo env library app).1
          ns
          rest
  started-IsReady env library app ns rest ready = record {
    named = ready.named;
    counted = ready.counted;
    fresh = ready.fresh;
  }

  install_runs :
      {S Input : Type 0} (collector : MetricsCollector r S Input) (os rest : List Opts)
      (ns : List Str) (app : PrometheusMetrics r rt)
      → collector.register ≡ register_metrics r os
      → All (λ o. valid_opts o ≡ true) os
      → IsReady r rt app ns (os ++ rest)
      → (app' : PrometheusMetrics r rt) × (install r rt floats json docs checks postgres redis mongo
            (create_metrics r os)
            collector
            app
          ≡ (done tt, app'))
        × IsReady r rt app' (ns ++ collector.name ∷ []) rest
  unfolding ◌>>=◌ add_collector with_task
  install_runs collector os rest ns app h valid ready =
      let (reg, runs, fresh) = registers_prefix r lawful os rest app.registry ready.fresh in
      let creates = create_metrics_runs r lawful os app.registry valid in
      (
        with_task r rt app collector.name reg,
        rw (creates, h, runs),
        record {
          named = map-append (λ named. named.0) app.handles _ ∙ rw ready.named;
          counted = omega (arith, ready.counted, length-append ns (collector.name ∷ []));
          fresh = fresh;
        },
      )

  -- A database that is not configured is left out.
  skipped :
      (app : PrometheusMetrics r rt) (os rest : List Opts) (ns : List Str)
      → IsReady r rt app ns (os ++ rest)
      → IsReady r rt app (ns ++ []) rest
  skipped app os rest ns ready = record {
    named = ready.named ∙ sym (append-nil ns);
    counted = rw (append-nil ns) ready.counted;
    fresh = all_fresh_of_later (r.registered app.registry) os rest ready.fresh;
  }

  module _ (env : Environment rt) where
    abbrev started : PrometheusMetrics r rt → Library → PrometheusMetrics r rt
    started app library =
        (starts r rt floats json docs checks postgres redis mongo env library app).1

    pub start_postgres_runs :
        (url : Option Str) (rest : List Opts) (ns : List Str) (app : PrometheusMetrics r rt)
        → IsAnswered env.pg_pool url
        → All (λ o. valid_opts o ≡ true) (postgres_opts (codes "myapp"))
        → IsReady r rt app ns (postgres_opts (codes "myapp") ++ rest)
        → (app' : PrometheusMetrics r rt) × (start_postgres r rt floats json docs checks postgres
              redis mongo env url app
            ≡ (done (handle_of url), app'))
          × IsReady r rt app' (ns ++ configured url (codes "postgres")) rest
    unfolding ◌>>=◌ Postgres.postgres_metrics Postgres.new Postgres.register
    start_postgres_runs none rest ns app h0 v ready =
        (app, refl, skipped app (postgres_opts (codes "myapp")) rest ns ready)
    start_postgres_runs (some url) rest ns app h0 v ready =
        let (app', runs, ready') =
          install_runs (Postgres.postgres_metrics floats json postgres r config)
            (postgres_opts (codes "myapp")) rest ns (started app deadpool) refl v
            (started-IsReady env deadpool app ns (postgres_opts (codes "myapp") ++ rest) ready) in
        (app', rw (h0, runs), ready')

    pub start_redis_runs :
        (url : Option Str) (rest : List Opts) (ns : List Str) (app : PrometheusMetrics r rt)
        → IsAnswered env.redis_config url
        → IsAnswered env.redis_pool url
        → IsAnswered env.redis_connect url
        → All (λ o. valid_opts o ≡ true) (redis_opts (codes "myapp"))
        → IsReady r rt app ns (redis_opts (codes "myapp") ++ rest)
        → (app' : PrometheusMetrics r rt) × (start_redis r rt floats json docs checks postgres redis
              mongo env url app
            ≡ (done (handle_of url), app'))
          × IsReady r rt app' (ns ++ configured url (codes "redis")) rest
    unfolding ◌>>=◌ Redis.redis_metrics Redis.new Redis.register
    start_redis_runs none rest ns app h0 h1 h2 v ready =
        (app, refl, skipped app (redis_opts (codes "myapp")) rest ns ready)
    start_redis_runs (some url) rest ns app h0 h1 h2 v ready =
        let (app', runs, ready') =
          install_runs (Redis.redis_metrics floats redis r config) (redis_opts (codes "myapp")) rest
            ns (started app fred) refl v
            (started-IsReady env fred app ns (redis_opts (codes "myapp") ++ rest) ready) in
        (app', rw (h0, h1, h2, runs), ready')

    pub start_mongo_runs :
        (url : Option Str) (rest : List Opts) (ns : List Str) (app : PrometheusMetrics r rt)
        → IsAnswered env.mongo_client url
        → All (λ o. valid_opts o ≡ true) (mongo_opts (codes "myapp"))
        → IsReady r rt app ns (mongo_opts (codes "myapp") ++ rest)
        → (app' : PrometheusMetrics r rt) × (start_mongo r rt floats json docs checks postgres redis
              mongo env url app
            ≡ (done (handle_of url), app'))
          × IsReady r rt app' (ns ++ configured url (codes "mongo")) rest
    unfolding ◌>>=◌ Mongo.mongo_metrics Mongo.new Mongo.register
    start_mongo_runs none rest ns app h0 v ready =
        (app, refl, skipped app (mongo_opts (codes "myapp")) rest ns ready)
    start_mongo_runs (some url) rest ns app h0 v ready =
        let (app', runs, ready') =
          install_runs (Mongo.mongo_metrics docs checks mongo r config) (mongo_opts (codes "myapp"))
            rest ns (started app mongodb) refl v
            (started-IsReady env mongodb app ns (mongo_opts (codes "myapp") ++ rest) ready) in
        (app', rw (h0, runs), ready')

  pub register_all :
      (os rest : List Opts) (s : r.State)
      → all_fresh (r.registered s) (os ++ rest) ≡ true
      → (s' : r.State) × (register r os s ≡ (Exec.ok tt, s'))
        × (all_fresh (r.registered s') rest ≡ true)
  unfolding register
  register_all os rest s h =
      let split = all_fresh-append (r.registered s) os rest in
      let first : all_fresh (r.registered s) os ≡ true = ground arith in
      let later : all_fresh (add_all (r.registered s) os) rest ≡ true = ground arith in
      let (s', taken_in, added) = lawful.register_fresh os s first in
      (s', rw taken_in, rw added later)
