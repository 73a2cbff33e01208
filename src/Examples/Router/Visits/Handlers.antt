-- ===== src/Examples/Router/Visits/Handlers.antt =====
-- The handlers run through, each to an answer that its request may have.
use dr_metrix.Prelude.{◌≡◌, refl, Option, none, some, [], ◌∷◌}
use dr_metrix.Std.{Str, codes}
use dr_metrix.Core.Exec.{ok}
use dr_metrix.Core.Metrics.{Client, IsLawful, Series}
use dr_metrix.Redis.Fields.{redis_metric_eq}
use dr_metrix.Postgres.Fields as Postgres
use dr_metrix.Postgres.Fields.{
  PostgresMetric, postgres_metric_eq, query_duration_seconds, rows_returned,
}
use dr_metrix.Postgres.Collect.{observe_query}
use dr_metrix.Axum.Fields.{HttpMetric, http_metric_eq}
use dr_metrix.Axum.Layer.{in_flight}
use dr_metrix.Axum.Layer.Service.{call}
use dr_metrix.Axum.Layer.Requests.Effects.{captured, begin_runs, finish_runs, finish_state}
use dr_metrix.Axum.Layer.Log.{logged, read-one_request}
use dr_metrix.Examples.Routes.{Arc, AppState, Response, World, list_users, list_orders}
use dr_metrix.Examples.Routes.Counters
use dr_metrix.Examples.Routes.Counters.{Route, Serves, handle}
use dr_metrix.Examples.Routes.Counters.Answers.{handle-Serves}
use dr_metrix.Examples.Router.{
  Reply, json, Routed, Platform, Backend, Endpoint, view, http_layer, users, orders, incr, decr,
  json_ok,
}
use dr_metrix.Examples.Router.Visits.{Visit, routed, users_body, orders_body, IsPlatform, counted}

module _ {F E : Type 0} (c : Client PostgresMetric F) (lawful : IsLawful Postgres.arity c)
    (state : AppState) where
  -- The list of the users is answered, whether or not the query is observed.
  list_users_runs :
      (two elapsed : F) (s : c.State)
      → (t : c.State) × (list_users {E = E} c state two elapsed s ≡ (ok users_body, t))
  unfolding list_users observe_query Postgres.arity
  list_users_runs two elapsed s = by_metrics state.pg_metrics refl
    where
      by_metrics :
          (o : Option Arc)
          → state.pg_metrics ≡ o
          → (t : c.State) × (list_users {E = E} c state two elapsed s ≡ (ok users_body, t))
      by_metrics none e = (s, rw e refl)
      by_metrics (some a) e = (
        c.observe (record { metric = rows_returned; labels = codes "list_users" ∷ [] }) two
            (c.observe
              (record { metric = query_duration_seconds; labels = codes "list_users" ∷ [] }) elapsed
              s),
        rw
            (
              e,
              lawful.accepts_arity query_duration_seconds (codes "list_users" ∷ []) refl,
              lawful.accepts_arity rows_returned (codes "list_users" ∷ []) refl,
            )
            refl,
      )

module _ {F E : Type 0} (platform : Platform F E) (laws : IsPlatform platform)
    (state : AppState) where
  pub users_runs :
      (q : Routed F) (b : Backend platform)
      → (s : platform.postgres.State) × (users platform state q b
          ≡ (ok (json_ok platform users_body), record b { postgres = s }))
  unfolding users
  users_runs q b =
      let (s, run) =
        list_users_runs {E = E} platform.postgres laws.postgres state platform.two
          q.request.handler_time b.postgres in
      (s, rw run refl)

  pub orders_runs :
      (q : Routed F) (b : Backend platform)
      → orders platform state q b ≡ (ok (json_ok platform orders_body), b)
  unfolding orders list_orders
  orders_runs q b = refl

  -- What a counter handler does to a request with the parameter `key`.
  abbrev Counts :
      Route → Endpoint platform (Backend platform) → Routed F → Str → Backend platform → Type 0
  Counts route handler q key b =
      (r : Response) × (s : World platform.pool.State platform.redis.State) × (handler q b
        ≡ (ok (json r), record b { redis = s }))
      × Serves platform.pool laws.store state b.redis.server route key r s.server

  pub incr_runs :
      (q : Routed F) (key : Str) (b : Backend platform)
      → q.params ≡ key ∷ []
      → Counts Counters.incr (incr platform state) q key b
  unfolding incr
  incr_runs q key b h =
      let (r, s, run, served) =
        handle-Serves platform.pool platform.redis laws.redis state laws.store {E = E} Counters.incr
          key q.request.handler_time b.redis in
      (r, s, rw (h, run) refl, served)

  pub decr_runs :
      (q : Routed F) (key : Str) (b : Backend platform)
      → q.params ≡ key ∷ []
      → Counts Counters.decr (decr platform state) q key b
  unfolding decr
  decr_runs q key b h =
      let (r, s, run, served) =
        handle-Serves platform.pool platform.redis laws.redis state laws.store {E = E} Counters.decr
          key q.request.handler_time b.redis in
      (r, s, rw (h, run) refl, served)

  -- A handler of `/api` under the layer: its answer stays, and the layer logs the request.
  pub layered_runs :
      (handler : Endpoint platform (Backend platform)) (v : Visit F) (b b' : Backend platform)
      (m : platform.http.State) (r : Reply)
      → handler (routed v) b ≡ (ok r, b')
      → (m' : platform.http.State) × (http_layer platform handler (routed v) (b, m)
          ≡ (ok r, (b', m')))
        × ((k : Series HttpMetric)
            → platform.http.read m' k
              ≡ logged platform.floats (counted platform v r) k (platform.http.read m k))
  unfolding http_layer call
  layered_runs handler v b b' m r h =
      let req = (view platform).request (routed v) in
      let answer = (view platform).answer r in
      (
        finish_state platform.floats platform.http laws.http (captured req) v.elapsed answer
            (platform.http.inc in_flight m),
        rw
            (
              begin_runs platform.floats platform.http laws.http {E = E} req m,
              h,
              finish_runs platform.floats platform.http laws.http {E = E} (captured req) v.elapsed
                  answer (platform.http.inc in_flight m),
            )
            refl,
        λ k. read-one_request E platform.floats platform.http laws.http req v.elapsed answer m k,
      )
