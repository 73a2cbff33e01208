-- ===== src/Examples/Startup/Lifetime.antt =====
-- When `main` ends, the tasks of the collectors have ended or are scheduled to be cancelled.
use mathlib.Core.Option.{some-injective}
use dr_metrix.Prelude.{
  if◌then◌else◌, ◌≡◌, refl, sym, ap, ◌⊎◌, inl, inr, Bool, true, false, Option, none, some, List,
}
use dr_metrix.Std.{Str, Floats}
use dr_metrix.Core.Exec.{Exec, Outcome}
use dr_metrix.Core.Exec
use dr_metrix.Core.Metrics.{Client}
use dr_metrix.Core.Registry.{Opts, Registry}
use dr_metrix.Core.Collector.{Duration, MetricsCollector}
use dr_metrix.Postgres.Pool.{Answer, value, failure, Json}
use dr_metrix.Postgres.Fields.{PostgresMetric}
use dr_metrix.Redis.Fields.{RedisMetric}
use dr_metrix.Mongo.Fields.{MongoMetric}
use dr_metrix.Mongo.Collect.{Documents}
use dr_metrix.Axum.State.{
  Runtime, IsRuntime, PrometheusMetrics, built, build, add_collector, on_registry, shutdown,
}
use dr_metrix.Axum.State.Handles.{IsKept, IsKept-last, IsKept-append}
use dr_metrix.Axum.State.Shutdown.{shutdown_started, shutdown_kept}
use dr_metrix.Examples.Startup.{
  Ended, Library, starts, Main, continue, after_build, shutdown_signal, done, failed, panicked,
  pure, try, answer, ◌>>=◌, Environment, install, start_postgres, start_redis, start_mongo, start,
  run, main,
}

module _ {E : Type 0} (r : Registry E) (rt : Runtime) (lawful : IsRuntime rt) (before : rt.State)
    (Foreign : rt.JoinHandle → Type 0) where
  -- A task that was live before, or that a library started.
  abbrev Others : rt.JoinHandle → Type 0
  Others k = (rt.live before k ≡ true) ⊎ Foreign k

  -- Each live task is one of the others, or its handle is kept.
  Owns : PrometheusMetrics r rt → Type 0
  Owns app = (k : rt.JoinHandle) → rt.live app.runtime k ≡ true → Others k ⊎ IsKept app.handles k

  -- Code that keeps it so, whichever way it ends.
  abbrev Keeps : {A : Type 0} → Main (PrometheusMetrics r rt) E A → Type 0
  Keeps m = (app : PrometheusMetrics r rt) → Owns app → Owns (m app).1

  Keeps-pure : {A : Type 0} (a : A) → Keeps (pure a)
  Keeps-pure a app h = h

  Keeps-answer : {A : Type 0} (a : Answer A) → Keeps (answer a)
  Keeps-answer (value a) app h = h
  Keeps-answer (failure e) app h = h

  Keeps-continue :
      {A B : Type 0} (f : A → Main (PrometheusMetrics r rt) E B)
      → ((a : A) → Keeps (f a))
      → (d : Ended E A × PrometheusMetrics r rt) → Owns d.1
      → Owns (continue d f).1
  Keeps-continue f hf (done a, app) h = hf a app h
  Keeps-continue f hf (failed e, app) h = h
  Keeps-continue f hf (panicked, app) h = h

  Keeps->>= :
      {A B : Type 0} (m : Main (PrometheusMetrics r rt) E A)
      (f : A → Main (PrometheusMetrics r rt) E B)
      → Keeps m
      → ((a : A) → Keeps (f a))
      → Keeps (m >>= f)
  unfolding ◌>>=◌
  Keeps->>= m f hm hf app h = Keeps-continue f hf (m app) (hm app h)

  Keeps-on_registry : (m : Exec r.State E (Unit {0})) → Keeps (try (on_registry r rt m))
  unfolding Owns
  Keeps-on_registry m app h = h

  spawned :
      {S Input : Type 0} (collector : MetricsCollector r S Input) (interval : Duration)
      (app : PrometheusMetrics r rt) (o : Outcome E (Unit {0}))
      → (collector.register app.registry).0 ≡ o
      → Owns app
      → Owns (add_collector r rt collector interval app).1
  unfolding Owns add_collector
  spawned collector interval app (Exec.err e) p h = rw p h
  spawned collector interval app Exec.panicked p h = rw p h
  spawned collector interval app (Exec.ok a) p h = rw p (λ k runs.
      elim (lawful.spawn_only interval app.runtime k runs) [
        | inl new ↦ inr (rw new (IsKept-last app.handles collector.name _))
        | inr old ↦ elim (h k old) [
          | inl past ↦ inl past
          | inr kept ↦ inr (IsKept-append app.handles _ k kept)
        ]
      ])

  Keeps-add_collector :
      {S Input : Type 0} (collector : MetricsCollector r S Input) (interval : Duration)
      → Keeps (try (add_collector r rt collector interval))
  Keeps-add_collector collector interval app h = spawned collector interval app _ refl h

  -- A shutdown leaves none but the others.
  shutdown-Owns :
      (app : PrometheusMetrics r rt)
      → Owns app
      → (k : rt.JoinHandle) → rt.live (shutdown r rt app).runtime k ≡ true
      → Others k
  unfolding Owns
  shutdown-Owns app h k alive = elim (h k (shutdown_started r rt lawful app k alive)) [
    | inl other ↦ other
    | inr kept ↦ let stopped = shutdown_kept r rt lawful app k kept in cc
  ]

ruleset keeping = (Keeps->>=, Keeps-answer, Keeps-pure, Keeps-on_registry, Keeps-add_collector)

abbrev runtime_or :
    {E : Type 0} {r : Registry E} {rt : Runtime}
    → rt.State
    → Outcome E (PrometheusMetrics r rt)
    → rt.State
runtime_or s (Exec.ok app) = app.runtime
runtime_or s (Exec.err e) = s
runtime_or s Exec.panicked = s

module _ {E F : Type 0} (r : Registry E) (rt : Runtime) (lawful : IsRuntime rt) (floats : Floats F)
    (json : Json F) (docs : Documents) (checks : Bool) (postgres : Client PostgresMetric F)
    (redis : Client RedisMetric F) (mongo : Client MongoMetric F) (before : rt.State)
    (env : Environment rt) (Foreign : rt.JoinHandle → Type 0)
    (foreign : (library : Library) (s : rt.State) (k : rt.JoinHandle)
      → rt.live (env.starts library s) k ≡ true
      → (rt.live s k ≡ true) ⊎ Foreign k) where
  abbrev Safe : {A : Type 0} → Main (PrometheusMetrics r rt) E A → Type 0
  Safe m = Keeps r rt lawful before Foreign m

  Keeps-starts :
      (library : Library)
      → Safe (starts r rt floats json docs checks postgres redis mongo env library)
  unfolding Owns
  Keeps-starts library app h k alive = elim (foreign library app.runtime k alive) [
    | inl old ↦ h k old
    | inr new ↦ inl (inr new)
  ]

  Keeps-install :
      {S Input : Type 0} (new : Exec r.State E (Unit {0})) (collector : MetricsCollector r S Input)
      → Safe (install r rt floats json docs checks postgres redis mongo new collector)
  Keeps-install new collector = search keeping

  Keeps-start_postgres :
      (url : Option Str)
      → Safe (start_postgres r rt floats json docs checks postgres redis mongo env url)
  Keeps-start_postgres none = search keeping
  Keeps-start_postgres (some url) = search (keeping, Keeps-starts, Keeps-install) depth 10

  Keeps-start_redis :
      (url : Option Str)
      → Safe (start_redis r rt floats json docs checks postgres redis mongo env url)
  Keeps-start_redis none = search keeping
  Keeps-start_redis (some url) = search (keeping, Keeps-starts, Keeps-install) depth 12

  Keeps-start_mongo :
      (url : Option Str)
      → Safe (start_mongo r rt floats json docs checks postgres redis mongo env url)
  Keeps-start_mongo none = search keeping
  Keeps-start_mongo (some url) = search (keeping, Keeps-starts, Keeps-install) depth 10

  Keeps-signal : Safe (shutdown_signal r rt floats json docs checks postgres redis mongo env)
  unfolding Owns
  Keeps-signal app h = by_handler env.signals
    where
      by_handler :
          (b : Bool) → Owns r rt lawful before Foreign (if b then shutdown r rt app else app)
      by_handler true k runs = inl (shutdown-Owns r rt lawful before Foreign app h k runs)
      by_handler false k runs = h k runs

  Keeps-run : Safe (run r rt floats json docs checks postgres redis mongo env)
  unfolding run start
  Keeps-run = search (
    keeping, Keeps-start_postgres, Keeps-start_redis, Keeps-start_mongo, Keeps-starts, Keeps-signal,
  )

  runtime-built :
      (app : PrometheusMetrics r rt) (o : Outcome E (Unit {0}) × r.State)
      → built r rt before o ≡ Exec.ok app
      → app.runtime ≡ before
  runtime-built app (Exec.ok a, registry) e =
      ap (λ (o : Outcome E (PrometheusMetrics r rt)). runtime_or app.runtime o) (sym e)
  runtime-built app (Exec.err e', registry) e = cc
  runtime-built app (Exec.panicked, registry) e = cc

  after_build-Owns :
      (o : Outcome E (PrometheusMetrics r rt)) (final : PrometheusMetrics r rt)
      → ((app : PrometheusMetrics r rt) → o ≡ Exec.ok app → app.runtime ≡ before)
      → (after_build r rt floats json docs checks postgres redis mongo env o).1 ≡ some final
      → (k : rt.JoinHandle) → rt.live final.runtime k ≡ true
      → (rt.live before k ≡ true) ⊎ Foreign k
  unfolding Owns
  after_build-Owns (Exec.ok app) final h e k runs =
      shutdown-Owns r rt lawful before Foreign
        (run r rt floats json docs checks postgres redis mongo env app).1
        (Keeps-run app (λ j alive. inl (inl (rw (← h app refl) alive)))) k
        (rw (some-injective _ _ e) runs)
  after_build-Owns (Exec.err e') final h e k runs = cc
  after_build-Owns Exec.panicked final h e k runs = cc

  -- Whichever way `main` ends, at an error, at the end of the server or by a panic, every task that is then
  -- live was live before it or was started by a library: the tasks of the collectors have ended or are scheduled
  -- to be cancelled. The runtime is assumed to do what it documents, and a call of a library to make only
  -- tasks live that it starts.
  pub main_stops_tasks :
      (process : List Opts) (final : PrometheusMetrics r rt) (k : rt.JoinHandle)
      → (main r rt floats json docs checks postgres redis mongo process env before).1 ≡ some final
      → rt.live final.runtime k ≡ true
      → (rt.live before k ≡ true) ⊎ Foreign k
  unfolding main build
  main_stops_tasks process final k e runs =
      after_build-Owns _ final (λ app. runtime-built app _) e k runs
