-- ===== src/Axum/State/Registering.antt =====
-- Building the state and adding the collectors of the other crates.
use mathlib.Core.List.{append-nil}
use dr_metrix.Prelude.{All-left, ◌≡◌, refl, ap, Bool, true, [], ◌∷◌, ◌++◌, map, arith}
use dr_metrix.Std.{Floats, codes}
use dr_metrix.Core.Exec.{Exec, ok, ◌>>◌}
use dr_metrix.Core.Registry.{namespaced, valid_opts, all_fresh, Registry, IsRegistry}
use dr_metrix.Core.Collector.{Duration, CollectorConfig}
use dr_metrix.Axum.State.{
  Runtime, PrometheusMetrics, builder, new_http_metrics, register_http_metrics, build_registry,
  build, add_collector,
}
use dr_metrix.Redis.Fields.{RedisMetric}
use dr_metrix.Mongo.Fields.{MongoMetric}
use dr_metrix.Postgres.Fields.{PostgresMetric}
use dr_metrix.Redis.Collector.{redis_metrics}
use dr_metrix.Mongo.Collector.{mongo_metrics}
use dr_metrix.Postgres.Collector.{postgres_metrics}
use dr_metrix.Postgres.Pool.{Json}
use dr_metrix.Mongo.Collect.{Documents}
use dr_metrix.Core.Metrics.{Client}
use dr_metrix.Redis.Collector as RedisCollector
use dr_metrix.Mongo.Collector as MongoCollector
use dr_metrix.Postgres.Collector as PostgresCollector
use dr_metrix.Core.Registry.Validity.{IsNamespace}
use dr_metrix.Axum.State.Names.{
  http_opts, redis_opts, mongo_opts, postgres_opts, all_opts_fresh, all_opts_valid,
  create_metrics_runs, registers_prefix,
}

module _ {E F : Type 0} (r : Registry E) (lawful : IsRegistry r) (rt : Runtime) (floats : Floats F)
    (json : Json F) (docs : Documents) (checks : Bool) (config : CollectorConfig)
    (postgres : Client PostgresMetric F) (redis : Client RedisMetric F)
    (mongo : Client MongoMetric F) where
  -- The three collectors, added one after the other as the example does it.
  abbrev pub add_collectors :
      Duration → Duration → Duration → Exec (PrometheusMetrics r rt) E (Unit {0})
  add_collectors i j k = do
    add_collector r rt (postgres_metrics floats json postgres r config) i
    add_collector r rt (redis_metrics floats redis r config) j
    add_collector r rt (mongo_metrics docs checks mongo r config) k

  -- With no process collector, under any namespace that is absent or a valid metric name, the state is
  -- built and the collectors of the three crates are added without an error under the same namespace: all
  -- options are valid, and no two of their metrics share a name.
  -- The registry is assumed to do what it documents.
  pub collectors_added :
      IsNamespace (namespaced config.namespace)
      → (i j k : Duration) (s : rt.State)
      → (app : PrometheusMetrics r rt) × (build r rt [] (builder config.namespace) s ≡ ok app)
        × (let done = add_collectors i j k app in
            (done.0 ≡ ok tt)
            × (done.1.collector_count ≡ 3)
            × (map (λ named. named.0) done.1.handles
                ≡ codes "postgres" ∷ codes "redis" ∷ codes "mongo" ∷ []))
  unfolding build build_registry new_http_metrics register_http_metrics add_collector
      PostgresCollector.register RedisCollector.register MongoCollector.register postgres_metrics
      redis_metrics mongo_metrics
  collectors_added valid i j k s =
      let ns = config.namespace in
      let (s1, p1, f1) =
        registers_prefix r lawful (http_opts ns)
          (postgres_opts ns ++ (redis_opts ns ++ mongo_opts ns)) r.new
          (rw lawful.registered-new (all_opts_fresh ns)) in
      let (s2, p2, f2) =
        registers_prefix r lawful (postgres_opts ns) (redis_opts ns ++ mongo_opts ns) s1 f1 in
      let (s3, p3, f3) = registers_prefix r lawful (redis_opts ns) (mongo_opts ns) s2 f2 in
      let (s4, p4, f4) =
        registers_prefix r lawful (mongo_opts ns) [] s3
          (ground (arith, ap (all_fresh (r.registered s3)) (append-nil (mongo_opts ns)))) in
      (
        record { registry = s1; handles = []; collector_count = 0; runtime = s },
        rw (
          create_metrics_runs r lawful (http_opts ns) r.new (
              All-left (λ o. valid_opts o ≡ true) (http_opts ns)
                (postgres_opts ns ++ (redis_opts ns ++ mongo_opts ns)) (all_opts_valid ns valid)),
          p1,
        ),
        rw (p2, p3, p4) (refl, refl, refl),
      )
