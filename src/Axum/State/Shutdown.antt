-- ===== src/Axum/State/Shutdown.antt =====
-- Adding collectors and shutting down.
use dr_metrix.Prelude.{
  ◌↔◌, ◌⊎◌, inl, inr, Bool-cases, ◌≡◌, refl, ◌+◌, ◌%◌, ◌^◌, true, false, List, [], ◌∷◌, ◌++◌, All,
}
use dr_metrix.Std.{Str}
use dr_metrix.Core.Error.{MetricsError}
use dr_metrix.Core.Exec.{ok, err}
use dr_metrix.Core.Registry.{Registry}
use dr_metrix.Core.Collector.{Duration, MetricsCollector}
use dr_metrix.Axum.State.{Runtime, IsRuntime, PrometheusMetrics, add_collector, abort_all, shutdown}
use dr_metrix.Axum.State.Handles.{IsKept, All_at}
use dr_metrix.Axum.Handler.{health_handler}

module _ {E S Input : Type 0} (r : Registry E) (rt : Runtime) where
  -- A collector whose registration succeeds is added: a new task is live, its handle is the last one, the
  -- count goes up by one, and the registry is as the registration left it.
  -- The runtime is assumed to do what it documents.
  pub add_collector_succeeds :
      IsRuntime rt
      → (collector : MetricsCollector r S Input) (interval : Duration)
        (app : PrometheusMetrics r rt)
      → (collector.register app.registry).0 ≡ ok tt
      → let done = add_collector r rt collector interval app in
        (done.0 ≡ ok tt)
        × (done.1.registry ≡ (collector.register app.registry).1)
        × ((handle : rt.JoinHandle) × (done.1.handles
              ≡ app.handles ++ (collector.name, handle) ∷ [])
            × (rt.live app.runtime handle ≡ false)
            × (rt.live done.1.runtime handle ≡ true))
        × (done.1.collector_count ≡ (app.collector_count + 1) % 2 ^ 64)
  unfolding add_collector
  add_collector_succeeds lawful collector interval app h = rw h (
    refl,
    refl,
    (
      (rt.spawn interval app.runtime).0,
      refl,
      lawful.spawn_new interval app.runtime,
      lawful.live-spawn interval app.runtime,
    ),
    refl,
  )

  -- A collector whose registration fails is not added, and no task is started; what its registration
  -- wrote to the registry stays.
  pub add_collector_fails :
      (collector : MetricsCollector r S Input) (interval : Duration) (app : PrometheusMetrics r rt)
      (e : MetricsError E)
      → (collector.register app.registry).0 ≡ err e
      → let done = add_collector r rt collector interval app in
        (done.0 ≡ err e)
        × (done.1.registry ≡ (collector.register app.registry).1)
        × (done.1.handles ≡ app.handles)
        × (done.1.collector_count ≡ app.collector_count)
        × (done.1.runtime ≡ app.runtime)
  unfolding add_collector
  add_collector_fails collector interval app e h = rw h (refl, refl, refl, refl, refl)

module _ {E : Type 0} (r : Registry E) (rt : Runtime) (lawful : IsRuntime rt) where
  abort_all_stopped :
      (handles : List (Str × rt.JoinHandle)) (h : rt.JoinHandle) (s : rt.State)
      → rt.live s h ≡ false
      → rt.live (abort_all r rt handles s) h ≡ false
  unfolding abort_all
  abort_all_stopped [] h s stopped = stopped
  abort_all_stopped ((name, k) ∷ rest) h s stopped =
      abort_all_stopped rest h (rt.abort k s) (lawful.abort_stopped h k s stopped)

  abort_all-All :
      (handles : List (Str × rt.JoinHandle)) (s : rt.State)
      → All (λ named. rt.live (abort_all r rt handles s) named.1 ≡ false) handles
  unfolding abort_all
  abort_all-All [] s = tt
  abort_all-All ((name, h) ∷ rest) s = (
    abort_all_stopped rest h (rt.abort h s) (lawful.live-abort h s),
    abort_all-All rest (rt.abort h s),
  )

  abort_all_only :
      (handles : List (Str × rt.JoinHandle)) (k : rt.JoinHandle) (s : rt.State)
      → rt.live s k ≡ true
      → IsKept handles k ⊎ (rt.live (abort_all r rt handles s) k ≡ true)
  unfolding abort_all
  abort_all_only [] k s alive = inr alive
  abort_all_only ((name, h) ∷ rest) k s alive = elim (lawful.abort_only h k s alive) [
    | inl same ↦ inl (inl same)
    | inr still ↦ elim (abort_all_only rest k (rt.abort h s) still) [
      | inl kept ↦ inl (inr kept)
      | inr left ↦ inr left
    ]
  ]

  -- A shutdown starts nothing.
  pub shutdown_started :
      (app : PrometheusMetrics r rt) (k : rt.JoinHandle)
      → rt.live (shutdown r rt app).runtime k ≡ true
      → rt.live app.runtime k ≡ true
  unfolding shutdown
  shutdown_started app k alive = elim (Bool-cases (rt.live app.runtime k)) [
    | inl before ↦ before
    | inr ended ↦ let stopped = abort_all_stopped app.handles k app.runtime ended in cc
  ]

  pub shutdown_kept :
      (app : PrometheusMetrics r rt) (k : rt.JoinHandle)
      → IsKept app.handles k
      → rt.live (shutdown r rt app).runtime k ≡ false
  unfolding shutdown
  shutdown_kept app k kept =
      All_at (λ (j : rt.JoinHandle). rt.live (shutdown r rt app).runtime j ≡ false) app.handles k
        (abort_all-All app.handles app.runtime) kept

  -- The tasks that are live after a shutdown are exactly those that were live before and whose handle was not
  -- kept: each task of a collector has ended or is scheduled to be cancelled, and no other task is touched.
  -- What `/health` answers is as before, and a second shutdown, as `drop` makes one, changes nothing.
  -- The runtime is assumed to do what it documents.
  pub shutdown_stops :
      (app : PrometheusMetrics r rt) (k : rt.JoinHandle)
      → let after = shutdown r rt app in
        ((rt.live after.runtime k ≡ true)
          ↔ ((rt.live app.runtime k ≡ true) × (¬ (IsKept app.handles k))))
        × (health_handler r rt after ≡ health_handler r rt app)
        × (shutdown r rt after ≡ after)
  unfolding shutdown health_handler abort_all
  shutdown_stops app k = (
    (
      λ alive. (shutdown_started app k alive, λ kept. let stopped = shutdown_kept app k kept in cc),
      λ (alive, free). elim (abort_all_only app.handles k app.runtime alive) [
        | inl kept ↦ elim (free kept) [ ]
        | inr still ↦ still
      ],
    ),
    refl,
    refl,
  )
