-- ===== src/Examples/Router.antt =====
-- examples/src/main.rs: the router of the application, and its handlers as axum calls them. The router of axum is
-- given by its operations; HEAD requests, which axum answers as GET ones, are no requests of this model.
pub mod Dispatch
pub mod Visits
use dr_metrix.Prelude.{ℕ, Option, none, some, List, [], ◌∷◌}
use dr_metrix.Std.{Str, codes, Floats}
use dr_metrix.Core.Exec.{Exec, Outcome, ok, err, panicked, ◌>>=◌, ◌>>◌, pure}
use dr_metrix.Core.Metrics.{Client}
use dr_metrix.Core.Registry.{Registry}
use dr_metrix.Redis.Fields.{RedisMetric}
use dr_metrix.Postgres.Fields.{PostgresMetric}
use dr_metrix.Axum.Fields.{HttpMetric}
use dr_metrix.Axum.Layer
use dr_metrix.Axum.Layer.{HeaderValue}
use dr_metrix.Axum.Layer.Service.{ready, Service, View, layer}
use dr_metrix.Axum.State.{PrometheusMetrics, Runtime}
use dr_metrix.Axum.Handler
use dr_metrix.Axum.Handler.{metrics_handler, health_handler}
use dr_metrix.Examples.Routes
use dr_metrix.Examples.Routes.{
  AppState, RedisPool, World, list_users, list_orders, counter_incr, counter_decr,
}

-- What a handler answers: a text of the crate's handlers, or a status and JSON.
pub data Reply : Type 0 where
  page : Handler.Answer → Reply
  json : Routes.Response → Reply

abbrev pub status : Reply → ℕ
status (page a) = a.status
status (json r) = r.status

-- `get(handler)` or `post(handler)`
pub record MethodRouter (A : Type 0) : Type 0 where
  pub method : Str
  pub handler : A

abbrev pub get : {A : Type 0} → A → MethodRouter A
get h = record { method = codes "GET"; handler = h }

abbrev pub post : {A : Type 0} → A → MethodRouter A
post h = record { method = codes "POST"; handler = h }

-- The handler that a request reaches, with the template of its route and the values of its parameters.
pub record Found (A : Type 0) : Type 0 where
  pub handler : A
  pub template : Str
  pub params : List Str

-- The operations of axum's router that the source calls. A layer may change the type of the handlers.
pub record Axum : Type 1 where
  pub Router : Type 0 → Type 0
  pub new : {A : Type 0} → Router A
  pub route : {A : Type 0} → Str → MethodRouter A → Router A → Router A
  pub nest : {A : Type 0} → Str → Router A → Router A → Router A
  pub layer : {A B : Type 0} → (A → B) → Router A → Router B
  pub dispatch : {A : Type 0} → Router A → (method path : Str) → Option (Found A)

-- A request, with the time that its handler and that the layer measure.
pub record HttpRequest (F : Type 0) : Type 0 where
  pub method : Str
  pub path : Str
  pub handler_time : F
  pub elapsed : F

-- A request that has reached a route.
pub record Routed (F : Type 0) : Type 0 where
  pub request : HttpRequest F
  pub template : Str
  pub params : List Str

-- The libraries of the application. What axum tells the layer of a request is `layer_path` and `matched_path`; it
-- answers with `rejection` where the parameters of the path are not one.
pub record Platform (F E : Type 0) : Type 1 where
  pub floats : Floats F
  pub http : Client HttpMetric F
  pub postgres : Client PostgresMetric F
  pub redis : Client RedisMetric F
  pub pool : RedisPool
  pub registry : Registry E
  pub runtime : Runtime
  pub two : F
  pub matched_path : Str → Option Str
  pub layer_path : Routed F → Str
  pub content_length : Reply → Option HeaderValue
  pub rejection : List Str → Reply

module _ {F E : Type 0} (platform : Platform F E) where
  -- What the handlers share, besides the HTTP metrics.
  pub record Backend : Type 0 where
    pub prom : PrometheusMetrics platform.registry platform.runtime
    pub redis : World platform.pool.State platform.redis.State
    pub postgres : platform.postgres.State

  abbrev pub Shared : Type 0
  Shared = Backend × platform.http.State

  -- A handler on a state `S`.
  abbrev pub Endpoint : Type 0 → Type 0
  Endpoint S = Routed F → Exec S E Reply

  abbrev pub on_postgres : {A : Type 0} → Exec platform.postgres.State E A → Exec Backend E A
  on_postgres m b = let (a, s) = m b.postgres in (a, record b { postgres = s })

  abbrev pub on_redis :
      {A : Type 0} → Exec (World platform.pool.State platform.redis.State) E A → Exec Backend E A
  on_redis m b = let (a, s) = m b.redis in (a, record b { redis = s })

  -- The extractor `Path(key): Path<String>`.
  abbrev pub with_key : List Str → (Str → Exec Backend E Reply) → Exec Backend E Reply
  with_key (key ∷ []) f = f key
  with_key [] f = pure (platform.rejection [])
  with_key (key ∷ k ∷ keys) f = pure (platform.rejection (key ∷ k ∷ keys))

  abbrev pub json_ok : Routes.Value → Reply
  json_ok body = json (record { status = 200; body = body })

  -- The handlers of `/api`, as axum calls them.
  module _ (state : AppState) where
    unfoldable pub users : Endpoint Backend
    users q = do
      body ← on_postgres (list_users platform.postgres state platform.two q.request.handler_time)
      pure (json_ok body)

    unfoldable pub orders : Endpoint Backend
    orders q = do body ← on_postgres (list_orders platform.postgres state); pure (json_ok body)

    unfoldable pub incr : Endpoint Backend
    incr q = with_key q.params (λ key. do
      r ← on_redis (counter_incr platform.pool platform.redis state key q.request.handler_time)
      pure (json r))

    unfoldable pub decr : Endpoint Backend
    decr q = with_key q.params (λ key. do
      r ← on_redis (counter_decr platform.pool platform.redis state key q.request.handler_time)
      pure (json r))

  -- What the layer sees of a request and of its answer.
  abbrev pub view : View (Routed F) Reply
  view = record {
    request = λ q. record {
      method = q.request.method;
      matched_path = platform.matched_path q.template;
      uri_path = platform.layer_path q;
    };
    answer = λ r.
        Layer.response (record { status = status r; content_length = platform.content_length r });
  }

  -- A handler as a service: it is always ready, and its handles are all alike.
  abbrev pub service : Endpoint Backend → Service E (Routed F) Reply
  service handler = record {
    Handle = Unit;
    Shared = Backend;
    clone = λ h. h;
    poll_ready = λ w. (ready, w);
    call = λ q w. let (a, b) = handler q w.1 in (a, (w.0, b));
  }

  -- `prom.http_layer()`, put around a handler
  unfoldable pub http_layer : Endpoint Backend → Endpoint Shared
  http_layer handler q w =
      let layered =
        layer platform.floats platform.http view (λ r. r.request.elapsed) (service handler) in
      let (a, (_, w')) = layered.call q (tt, w) in (a, w')

  -- The handlers of the crate. The encoder reads every metric.
  unfoldable pub metrics : (encode : Shared → Option Str) → Endpoint Shared
  metrics encode q w =
      (ok (page (metrics_handler platform.registry platform.runtime (λ _. encode w) w.0.prom)), w)

  unfoldable pub health : Endpoint Shared
  health q w = (ok (page (health_handler platform.registry platform.runtime w.0.prom)), w)

  module _ (axum : Axum) (encode : Shared → Option Str) (trace : Endpoint Shared → Endpoint Shared)
      (state : AppState) where
    -- The router nested at `/api`
    unfoldable pub api : axum.Router (Endpoint Shared)
    api = axum.layer http_layer (
        axum.route (codes "/counter/{key}/decr") (post (decr state)) (
          axum.route (codes "/counter/{key}/incr") (post (incr state)) (
            axum.route (codes "/orders") (get (orders state))
              (axum.route (codes "/users") (get (users state)) axum.new))))

    unfoldable pub app : axum.Router (Endpoint Shared)
    app = axum.layer trace (
        axum.nest (codes "/api") api (
          axum.route (codes "/health") (get health)
            (axum.route (codes "/metrics") (get (metrics encode)) axum.new)))

  -- A request that meets no route is left to axum.
  module _ (axum : Axum) (fallback : HttpRequest F → Exec Shared E Reply) where
    abbrev pub met : HttpRequest F → Option (Found (Endpoint Shared)) → Exec Shared E Reply
    met request none = fallback request
    met request (some found) =
        found.handler
          (record { request = request; template = found.template; params = found.params })

    -- A request to a router.
    unfoldable pub respond : axum.Router (Endpoint Shared) → HttpRequest F → Exec Shared E Reply
    respond router request = met request (axum.dispatch router request.method request.path)

    -- Requests, one after the other.
    unfoldable pub respond_all :
        axum.Router (Endpoint Shared) → List (HttpRequest F) → Exec Shared E (List Reply)
    respond_all router [] = pure []
    respond_all router (q ∷ qs) = do r ← respond router q; rs ← respond_all router qs; pure (r ∷ rs)
