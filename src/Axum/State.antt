-- ===== src/Axum/State.antt =====
-- dr-metrix-axum/src/state.rs: the state of an application, its builder, the collectors that it runs and
-- their shutdown. The tokio runtime is given by what its calls do.
pub mod Handles
pub mod Shutdown
pub mod Names
pub mod Registering
pub mod Lifecycle
use dr_metrix.Prelude.{
  ◌⊎◌, ℕ, ◌≡◌, ◌+◌, ◌%◌, ◌^◌, Bool, true, false, List, [], ◌∷◌, ◌++◌, map, if◌then◌else◌,
}
use dr_metrix.Std.{Str}
use dr_metrix.Core.Exec.{Exec, Outcome, ok, err, panicked, ◌>>=◌, ◌>>◌, pure, modify}
use dr_metrix.Core.Registry.{Opts, Registry, register, register_metrics, create_metrics}
use dr_metrix.Core.Collector.{Duration, MetricsCollector}
use dr_metrix.Axum.Fields.{opts, metrics}

-- The runtime: `spawn` starts a task that collects at the interval. A task is live from its start until it
-- has ended or is scheduled to be cancelled, which `abort` does: a cancelled task stops at its next await.
pub record Runtime : Type 1 where
  pub State : Type 0
  pub JoinHandle : Type 0
  pub spawn : Duration → State → JoinHandle × State
  pub abort : JoinHandle → State → State
  pub live : State → JoinHandle → Bool

-- What the runtime documents: a started task is new and live, and no other task becomes live with it; an
-- abort schedules its own task to be cancelled and no other, and this is not taken back.
pub record IsRuntime (rt : Runtime) : Type 0 where
  pub live-spawn : (d : Duration) (s : rt.State) → let (h, s') = rt.spawn d s in rt.live s' h ≡ true
  pub spawn_new : (d : Duration) (s : rt.State) → rt.live s (rt.spawn d s).0 ≡ false
  pub spawn_only :
      (d : Duration) (s : rt.State) (k : rt.JoinHandle)
      → let (h, s') = rt.spawn d s in rt.live s' k ≡ true → (k ≡ h) ⊎ (rt.live s k ≡ true)
  pub live-abort : (h : rt.JoinHandle) (s : rt.State) → rt.live (rt.abort h s) h ≡ false
  pub abort_stopped :
      (h k : rt.JoinHandle) (s : rt.State) → rt.live s h ≡ false → rt.live (rt.abort k s) h ≡ false
  pub abort_only :
      (h k : rt.JoinHandle) (s : rt.State)
      → rt.live s k ≡ true
      → (k ≡ h) ⊎ (rt.live (rt.abort h s) k ≡ true)

-- `PrometheusMetrics`, with the state of the runtime that its handles belong to. The values of its
-- `http_metrics` are the state of the layer, in Axum/Layer.
pub record PrometheusMetrics {E : Type 0} (r : Registry E) (rt : Runtime) : Type 0 where
  pub registry : r.State
  pub handles : List (Str × rt.JoinHandle)
  pub collector_count : ℕ
  pub runtime : rt.State

pub record PrometheusMetricsBuilder : Type 0 where
  pub namespace : Str
  pub process_collector : Bool

abbrev pub builder : Str → PrometheusMetricsBuilder
builder namespace = record { namespace = namespace; process_collector = false }

abbrev pub with_process_collector : PrometheusMetricsBuilder → PrometheusMetricsBuilder
with_process_collector b = record { namespace = b.namespace; process_collector = true }

module _ {E : Type 0} (r : Registry E) where
  -- `HttpMetrics::new` and `HttpMetrics::register`
  unfoldable pub new_http_metrics : Str → Exec r.State E (Unit {0})
  new_http_metrics ns = create_metrics r (map (opts ns) metrics)

  unfoldable pub register_http_metrics : Str → Exec r.State E (Unit {0})
  register_http_metrics ns = register_metrics r (map (opts ns) metrics)

  -- `build` up to its result; `process` are the descriptors of the process collector.
  unfoldable pub build_registry : List Opts → PrometheusMetricsBuilder → Exec r.State E (Unit {0})
  build_registry process b = do
    if b.process_collector then register r process else pure tt
    new_http_metrics b.namespace
    register_http_metrics b.namespace

  module _ (rt : Runtime) where
    abbrev pub built :
        rt.State → Outcome E (Unit {0}) × r.State → Outcome E (PrometheusMetrics r rt)
    built runtime (ok _, registry) =
        ok (record { registry = registry; handles = []; collector_count = 0; runtime = runtime })
    built runtime (err e, registry) = err e
    built runtime (panicked, registry) = panicked

    unfoldable pub build :
        List Opts → PrometheusMetricsBuilder → rt.State → Outcome E (PrometheusMetrics r rt)
    build process b runtime = built runtime (build_registry process b r.new)

    abbrev with_registry : PrometheusMetrics r rt → r.State → PrometheusMetrics r rt
    with_registry app registry = record {
      registry = registry;
      handles = app.handles;
      collector_count = app.collector_count;
      runtime = app.runtime;
    }

    -- An operation of the registry, in the whole state.
    abbrev pub on_registry : Exec r.State E (Unit {0}) → Exec (PrometheusMetrics r rt) E (Unit {0})
    on_registry m app =
        let (result, registry) = m app.registry in (result, with_registry app registry)

    -- `arc.spawn_collect_loop(interval)`
    abbrev pub spawn_collect_loop : Duration → Exec (PrometheusMetrics r rt) E rt.JoinHandle
    spawn_collect_loop interval app =
        let (handle, runtime) = rt.spawn interval app.runtime in
        (
          ok handle,
          record {
            registry = app.registry;
            handles = app.handles;
            collector_count = app.collector_count;
            runtime = runtime;
          },
        )

    abbrev push_handle : Str × rt.JoinHandle → PrometheusMetrics r rt → PrometheusMetrics r rt
    push_handle named app = record {
      registry = app.registry;
      handles = app.handles ++ named ∷ [];
      collector_count = app.collector_count;
      runtime = app.runtime;
    }

    -- `fetch_add(1)` wraps around.
    abbrev count_collector : PrometheusMetrics r rt → PrometheusMetrics r rt
    count_collector app = record {
      registry = app.registry;
      handles = app.handles;
      collector_count = (app.collector_count + 1) % 2 ^ 64;
      runtime = app.runtime;
    }

    unfoldable pub add_collector :
        {S Input : Type 0}
        → MetricsCollector r S Input
        → Duration
        → Exec (PrometheusMetrics r rt) E (Unit {0})
    add_collector collector interval = do
      on_registry collector.register
      handle ← spawn_collect_loop interval
      modify (push_handle (collector.name, handle))
      modify count_collector

    -- The loop of `shutdown` over the drained handles.
    unfoldable pub abort_all : List (Str × rt.JoinHandle) → rt.State → rt.State
    abort_all [] s = s
    abort_all ((_, handle) ∷ rest) s = abort_all rest (rt.abort handle s)

    -- `shutdown`, which `drop` also calls
    unfoldable pub shutdown : PrometheusMetrics r rt → PrometheusMetrics r rt
    shutdown app = record {
      registry = app.registry;
      handles = [];
      collector_count = app.collector_count;
      runtime = abort_all app.handles app.runtime;
    }
