-- ===== src/Axum/State/Lifecycle.antt =====
-- Sequences of collectors that are added or refused, and of shutdowns.
use dr_metrix.Prelude.{ℕ, ◌≡◌, ◌∙◌, ◌+◌, ◌%◌, ◌^◌, [], ◌∷◌, arith, length, length-append}
use dr_metrix.Core.Error.{MetricsError}
use dr_metrix.Core.Exec.{ok, err}
use dr_metrix.Core.Registry.{Registry}
use dr_metrix.Core.Collector.{Duration, MetricsCollector}
use dr_metrix.Axum.State.{Runtime, IsRuntime, PrometheusMetrics, add_collector, shutdown}
use dr_metrix.Axum.State.Shutdown.{add_collector_succeeds, add_collector_fails}

module _ {E : Type 0} (r : Registry E) (rt : Runtime) where
  -- The state of an application, and how many of its collectors were stopped.
  pub record System : Type 0 where
    pub app : PrometheusMetrics r rt
    pub stopped : ℕ

  pub data Step : System → System → Type 1 where
    adds :
        {S Input : Type 0} (s : System) (collector : MetricsCollector r S Input)
        (interval : Duration)
        → (collector.register s.app.registry).0 ≡ ok tt
        → Step s (record s { app = (add_collector r rt collector interval s.app).1 })
    refuses :
        {S Input : Type 0} (s : System) (collector : MetricsCollector r S Input)
        (interval : Duration) (e : MetricsError E)
        → (collector.register s.app.registry).0 ≡ err e
        → Step s (record s { app = (add_collector r rt collector interval s.app).1 })
    shuts :
        (s : System)
        → Step s (record { app = shutdown r rt s.app; stopped = s.stopped + length s.app.handles })

  pub data Reach (s : System) : System → Type 1 where
    here : Reach s s
    next : {t u : System} → Reach s t → Step t u → Reach s u

  -- The count is that of the handles that are kept and of the collectors that were stopped.
  abbrev pub Counts : System → Type 0
  Counts s = s.app.collector_count ≡ (length s.app.handles + s.stopped) % 2 ^ 64

module _ {E : Type 0} (r : Registry E) (rt : Runtime) (lawful : IsRuntime rt) where
  Step-Counts : {s t : System r rt} → Step r rt s t → Counts r rt s → Counts r rt t
  unfolding shutdown
  Step-Counts (adds s collector interval h) counts =
      let (_, _, (handle, kept, _, _), count) =
        add_collector_succeeds r rt lawful collector interval s.app h in
      rw (count, kept) (omega (arith, length-append s.app.handles ((collector.name, handle) ∷ [])))
  Step-Counts (refuses s collector interval e h) counts =
      let (_, _, kept, count, _) = add_collector_fails r rt collector interval s.app e h in
      rw (count, kept) counts
  Step-Counts (shuts s) counts = counts ∙ omega arith

  -- Whatever collectors are added, refused or shut down in any order, the collector count is that of the
  -- handles that are kept and of all collectors that were stopped, modulo 2 ^ 64, if it was at the start.
  -- The runtime is assumed to do what it documents.
  pub Reach-Counts : {s t : System r rt} → Reach r rt s t → Counts r rt s → Counts r rt t
  Reach-Counts here counts = counts
  Reach-Counts (next reach step) counts = Step-Counts step (Reach-Counts reach counts)
