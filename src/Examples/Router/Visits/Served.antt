-- ===== src/Examples/Router/Visits/Served.antt =====
-- The application as a whole: its router, the layer, and the handlers behind them.
use dr_metrix.Prelude.{◌≡◌, refl, ◌∙◌, sym, ap, Option, none, some, List, [], ◌∷◌, All}
use dr_metrix.Std.{Str}
use dr_metrix.Core.Exec.{Exec, ok}
use dr_metrix.Core.Metrics.{Series}
use dr_metrix.Axum.Fields.{HttpMetric, http_metric_eq}
use dr_metrix.Axum.Handler.{metrics_handler, health_handler}
use dr_metrix.Axum.Layer.Log.{logged, logged-append}
use dr_metrix.Examples.Routes.{AppState}
use dr_metrix.Examples.Router.{
  Reply, Routed, HttpRequest, Axum, Platform, Shared, Endpoint, users, orders, incr, decr, metrics,
  health, app, respond, respond_all,
}
use dr_metrix.Examples.Router.Dispatch.{
  IsRouting, Call, get_metrics, get_health, get_users, get_orders, post_incr, post_decr,
  template_of, templates, handler_of, dispatch-app,
}
use dr_metrix.Examples.Router.Visits.{
  Visit, visit_to, params_of, request_of, routed, requests_of, metrics_page, IsPlatform, Answered,
  shows_metrics, shows_health, lists_users, lists_orders, increments, decrements, events, log, Runs,
  finished, serves,
}
use dr_metrix.Examples.Router.Visits.Handlers.{
  users_runs, orders_runs, incr_runs, decr_runs, layered_runs,
}

module _ {F E : Type 0} (platform : Platform F E) (laws : IsPlatform platform)
    (encode : Shared platform → Option Str) (state : AppState) where
  -- What the handler of a request does.
  abbrev Handles : Exec (Shared platform) E Reply → Visit F → Shared platform → Type 0
  Handles run v w =
      (r : Reply) × (u : Shared platform) × (run w ≡ (ok r, u))
      × Answered platform encode state laws.store w v.call v.key r u.0
      × ((k : Series HttpMetric)
          → platform.http.read u.1 k
            ≡ logged platform.floats (events platform v v.call r) k (platform.http.read w.1 k))

  metrics_runs :
      (text : Option Str) (w : Shared platform)
      → encode w ≡ text
      → metrics_handler platform.registry platform.runtime (λ _. encode w) w.0.prom
        ≡ metrics_page (encode w)
  unfolding metrics_handler
  metrics_runs none w h = rw h refl
  metrics_runs (some text) w h = rw h refl

  visit_runs :
      (call : Call) (key path : Str) (handler_time elapsed : F) (w : Shared platform)
      → let v = visit_to call key path handler_time elapsed in
        Handles (handler_of platform encode state call (routed v)) v w
  unfolding metrics health health_handler
  visit_runs get_metrics key path t el w =
      (_, w, rw (metrics_runs (encode w) w refl) refl, shows_metrics key, λ k. refl)
  visit_runs get_health key path t el w = (_, w, refl, shows_health key, λ k. refl)
  visit_runs get_users key path t el (b, m) =
      let (s, run) = users_runs platform laws state _ b in
      let (m', all, reads) =
        layered_runs platform laws state (users platform state) (visit_to get_users key path t el) b
          _ m _ run in
      (_, (_, m'), all, lists_users key s, reads)
  visit_runs get_orders key path t el (b, m) =
      let (m', all, reads) =
        layered_runs platform laws state (orders platform state) (visit_to get_orders key path t el)
          b _ m _ (orders_runs platform laws state _ b) in
      (_, (_, m'), all, lists_orders key, reads)
  visit_runs post_incr key path t el (b, m) =
      let (r, s, run, served) = incr_runs platform laws state _ key b refl in
      let (m', all, reads) =
        layered_runs platform laws state (incr platform state) (visit_to post_incr key path t el) b
          _ m _ run in
      (_, (_, m'), all, increments key r s served, reads)
  visit_runs post_decr key path t el (b, m) =
      let (r, s, run, served) = decr_runs platform laws state _ key b refl in
      let (m', all, reads) =
        layered_runs platform laws state (decr platform state) (visit_to post_decr key path t el) b
          _ m _ run in
      (_, (_, m'), all, decrements key r s served, reads)

  module _ (axum : Axum) (routing : IsRouting axum)
      (trace : Endpoint platform (Shared platform) → Endpoint platform (Shared platform))
      (traces : (h : Endpoint platform (Shared platform)) (q : Routed F) (w : Shared platform)
        → trace h q w ≡ h q w)
      (fallback : HttpRequest F → Exec (Shared platform) E Reply) where
    -- The path of a request matches the template of its route.
    abbrev pub Matches : Visit F → Type 0
    Matches v = routing.find templates v.path ≡ some (template_of v.call, params_of v.call v.key)

    -- The requests, sent to the application.
    abbrev pub sent : List (Visit F) → Exec (Shared platform) E (List Reply)
    sent vs =
        respond_all platform axum fallback (app platform axum encode trace state) (requests_of vs)

    respond_runs :
        (v : Visit F) (w : Shared platform)
        → Matches v
        → Handles
            (respond platform axum fallback (app platform axum encode trace state) (request_of v))
            v
            w
    unfolding respond
    respond_runs v w h =
        let (r, u, run, answered, reads) =
          visit_runs v.call v.key v.path v.handler_time v.elapsed w in
        (
          r,
          u,
          rw
              (dispatch-app platform encode state axum routing trace v.call v.path
                (params_of v.call v.key) h)
              (traces _ _ _ ∙ run),
          answered,
          reads,
        )

    -- Any requests that axum routes are answered, one after the other, as the handlers would answer them: the pages
    -- of the metrics and of the health change nothing, the lists change no counter, and the counters are counted
    -- as numbers; and the layer sees the requests to `/api`, and no other. Axum, its tracing, the client
    -- libraries and the pool are assumed to do what they document.
    pub app_serves :
        (vs : List (Visit F)) (w : Shared platform)
        → All Matches vs
        → (rs : List Reply) × (u : Shared platform) × (sent vs w ≡ (ok rs, u))
          × Runs platform encode state laws.store w vs rs u
    unfolding respond_all
    app_serves [] w h = ([], w, refl, finished)
    app_serves (v ∷ vs) w (h, hs) =
        let (r, u, run, answered, reads) = respond_runs v w h in
        let (rs, t, runs, rest) = app_serves vs u hs in
        (r ∷ rs, t, rw (run, runs) refl, serves answered reads rest)

    log_of_Runs :
        {vs : List (Visit F)} {w u : Shared platform} {rs : List Reply} (k : Series HttpMetric)
        → Runs platform encode state laws.store w vs rs u
        → platform.http.read u.1 k
          ≡ logged platform.floats (log platform vs rs) k (platform.http.read w.1 k)
    log_of_Runs k finished = refl
    log_of_Runs k (serves {w} {u} {t} {v} {vs} {r} {rs} answered reads rest) =
        log_of_Runs k rest
        ∙ ap (logged platform.floats (log platform vs rs) k) (reads k)
        ∙ sym (logged-append platform.floats (events platform v v.call r) (log platform vs rs) k _)

    -- After any requests that axum routes, every series of the HTTP metrics reads as the log of the requests to
    -- `/api` says, each with the label of its path, its status and its time; requests for the pages of
    -- the metrics and of the health are in no series. Axum, its tracing, the client libraries and the
    -- pool are assumed to do what they document.
    pub app_logs :
        (vs : List (Visit F)) (w : Shared platform) (k : Series HttpMetric)
        → All Matches vs
        → let done = sent vs w in
          (rs : List Reply) × (done.0 ≡ ok rs)
          × (platform.http.read done.1.1 k
              ≡ logged platform.floats (log platform vs rs) k (platform.http.read w.1 k))
    app_logs vs w k h =
        let (rs, u, run, runs) = app_serves vs w h in
        (
          rs,
          ap (λ done. done.0) run,
          ap (λ done. platform.http.read done.1.1 k) run ∙ log_of_Runs k runs,
        )
