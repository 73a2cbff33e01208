-- ===== src/Examples/Router/Visits.antt =====
-- Requests to the routes of the application, what each may do, and the log that the layer keeps of them.
pub mod Handlers
pub mod Served
use dr_metrix.Prelude.{◌≡◌, ℕ, Option, none, some, List, [], ◌∷◌, ◌++◌, ℤ, pos}
use dr_metrix.Std.{Str, codes, print_nat}
use dr_metrix.Core.Metrics.{Client, IsLawful, Series}
use dr_metrix.Redis.Fields as Redis
use dr_metrix.Postgres.Fields as Postgres
use dr_metrix.Axum.Fields as Http
use dr_metrix.Axum.Fields.{HttpMetric, http_metric_eq}
use dr_metrix.Redis.Fields.{redis_metric_eq}
use dr_metrix.Postgres.Fields.{postgres_metric_eq}
use dr_metrix.Axum.Layer.Log.{Event, begins, answers, logged}
use dr_metrix.Axum.Layer.Requests.Effects.{captured}
use dr_metrix.Axum.Handler
use dr_metrix.Examples.Routes
use dr_metrix.Examples.Routes.{
  AppState, Value, integer, decimal, array, item, end, object, member, close, user,
}
use dr_metrix.Examples.Routes.Counters
use dr_metrix.Examples.Routes.Counters.{Route, IsCounterStore, Serves}
use dr_metrix.Examples.Router.{
  Reply, page, json, HttpRequest, Routed, Platform, Backend, Shared, view, json_ok, status,
}
use dr_metrix.Examples.Router.Dispatch.{
  Call, get_metrics, get_health, get_users, get_orders, post_incr, post_decr, method_of,
  template_of,
}

-- A request for a route, with the key of its counter where it has one.
pub record Visit (F : Type 0) : Type 0 where
  pub call : Call
  pub key : Str
  pub path : Str
  pub handler_time : F
  pub elapsed : F

abbrev pub params_of : Call → Str → List Str
params_of post_incr key = key ∷ []
params_of post_decr key = key ∷ []
params_of _ key = []

module _ {F : Type 0} where
  abbrev pub visit_to : Call → (key path : Str) (handler_time elapsed : F) → Visit F
  visit_to call key path handler_time elapsed = record {
    call = call;
    key = key;
    path = path;
    handler_time = handler_time;
    elapsed = elapsed;
  }

  abbrev pub request_of : Visit F → HttpRequest F
  request_of v = record {
    method = method_of v.call;
    path = v.path;
    handler_time = v.handler_time;
    elapsed = v.elapsed;
  }

  -- The request as it reaches its handler.
  abbrev pub routed : Visit F → Routed F
  routed v = record {
    request = request_of v;
    template = template_of v.call;
    params = params_of v.call v.key;
  }

  abbrev pub requests_of : List (Visit F) → List (HttpRequest F)
  requests_of [] = []
  requests_of (v ∷ vs) = request_of v ∷ requests_of vs

abbrev pub users_body : Value
users_body = object (
    member (codes "users") (array (item (user 1 (codes "Alice")) (item (user 2 (codes "Bob")) end)))
      close)

abbrev order : Value
order =
    object (member (codes "id") (integer (pos 100)) (member (codes "total") (decimal 5999 2) close))

abbrev pub orders_body : Value
orders_body = object (member (codes "orders") (array (item order end)) close)

-- The page of the metrics: the encoder's text, or an empty error.
abbrev pub metrics_page : Option Str → Handler.Answer
metrics_page (some text) = record {
  status = 200;
  content_type = some (codes "text/plain; version=0.0.4; charset=utf-8");
  body = text;
}
metrics_page none = record { status = 500; content_type = none; body = [] }

abbrev pub health_page : ℕ → Handler.Answer
health_page n = record {
  status = 200;
  content_type = none;
  body = codes "{\"status\":\"ok\",\"collectors\":" ++ (print_nat n ++ codes "}");
}

-- The libraries do what they document.
pub record IsPlatform {F E : Type 0} (platform : Platform F E) : Type 0 where
  pub http : IsLawful Http.arity platform.http
  pub redis : IsLawful Redis.arity platform.redis
  pub postgres : IsLawful Postgres.arity platform.postgres
  pub store : IsCounterStore platform.pool

module _ {F E : Type 0} (platform : Platform F E) where
  abbrev pub counted : Visit F → Reply → List (Event F)
  counted v r =
      let req = (view platform).request (routed v) in
      begins req ∷ answers req v.elapsed ((view platform).answer r) ∷ []

  -- What the layer has seen of a request: it stands around the routes of `/api` alone.
  abbrev pub events : Visit F → Call → Reply → List (Event F)
  events v get_metrics r = []
  events v get_health r = []
  events v get_users r = counted v r
  events v get_orders r = counted v r
  events v post_incr r = counted v r
  events v post_decr r = counted v r

  abbrev pub log : List (Visit F) → List Reply → List (Event F)
  log [] rs = []
  log (v ∷ vs) [] = []
  log (v ∷ vs) (r ∷ rs) = events v v.call r ++ log vs rs

module _ {F E : Type 0} (platform : Platform F E) (encode : Shared platform → Option Str)
    (state : AppState) (store : IsCounterStore platform.pool) where
  -- How a request may be answered, and what it does to the state behind the handlers: pages change nothing, and a
  -- counter request does what `Serves` allows.
  pub data Answered (w : Shared platform) : Call → Str → Reply → Backend platform → Type 0 where
    shows_metrics : (key : Str) → Answered w get_metrics key (page (metrics_page (encode w))) w.0
    shows_health :
        (key : Str) → Answered w get_health key (page (health_page w.0.prom.collector_count)) w.0
    lists_users :
        (key : Str) (s : platform.postgres.State)
        → Answered w get_users key (json_ok platform users_body) (record w.0 { postgres = s })
    lists_orders : (key : Str) → Answered w get_orders key (json_ok platform orders_body) w.0
    increments :
        (key : Str) (r : Routes.Response)
        (s : Routes.World platform.pool.State platform.redis.State)
        → Serves platform.pool store state w.0.redis.server Counters.incr key r s.server
        → Answered w post_incr key (json r) (record w.0 { redis = s })
    decrements :
        (key : Str) (r : Routes.Response)
        (s : Routes.World platform.pool.State platform.redis.State)
        → Serves platform.pool store state w.0.redis.server Counters.decr key r s.server
        → Answered w post_decr key (json r) (record w.0 { redis = s })

  -- Requests answered one after the other.
  pub data Runs : Shared platform → List (Visit F) → List Reply → Shared platform → Type 0 where
    finished : {w : Shared platform} → Runs w [] [] w
    serves :
        {w u t : Shared platform} {v : Visit F} {vs : List (Visit F)} {r : Reply} {rs : List Reply}
        → Answered w v.call v.key r u.0
        → ((k : Series HttpMetric)
            → platform.http.read u.1 k
              ≡ logged platform.floats (events platform v v.call r) k (platform.http.read w.1 k))
        → Runs u vs rs t
        → Runs w (v ∷ vs) (r ∷ rs) t
