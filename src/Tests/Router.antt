-- ===== src/Tests/Router.antt =====
-- Tests of the application behind a router that is the list of its routes.
use dr_metrix.Prelude.{
  ◌≡◌, refl, Bool, true, false, Option, none, some, List, [], ◌∷◌, ◌++◌, map, pos, All,
}
use mathlib.Core.Option
use dr_metrix.Std.{Str, codes, str_eq, split, starts_with}
use dr_metrix.Core.Exec.{Exec, ok, pure}
use dr_metrix.Core.Metrics.{int, memory_client, memory_client-IsLawful}
use dr_metrix.Redis.Fields as Redis
use dr_metrix.Redis.Fields.{redis_metric_eq}
use dr_metrix.Postgres.Fields as Postgres
use dr_metrix.Postgres.Fields.{postgres_metric_eq}
use dr_metrix.Axum.Fields as Http
use dr_metrix.Axum.Fields.{http_metric_eq}
use dr_metrix.Axum.Layer.{in_flight}
use dr_metrix.Axum.Layer.Log.{logged}
use dr_metrix.Examples.Router.{
  Found, Reply, json, Axum, HttpRequest, Platform, Shared, app, respond_all,
}
use dr_metrix.Examples.Router.Dispatch.{
  Entry, entry, under, on_entry, paths, handler_at, IsRouting, get_health, get_users, post_incr,
  template_of, templates,
}
use dr_metrix.Examples.Router.Visits.{
  Visit, visit_to, params_of, requests_of, IsPlatform, log, Runs,
}
use dr_metrix.Examples.Router.Visits.Served.{app_serves, app_logs}
use dr_metrix.Examples.Routes.{error_body}
use dr_metrix.Tests.Fixtures.{floats, registry, runtime}
use dr_metrix.Tests.Examples.{pool, pool-IsCounterStore, state, world}

-- The values of the parameters, if the path has the segments of the template.
abbrev captured : Bool → Bool → Str → Option (List Str) → Option (List Str)
captured true same part rest = Option.map (λ ps. part ∷ ps) rest
captured false true part rest = rest
captured false false part rest = none

match_segments : List Str → List Str → Option (List Str)
match_segments [] [] = some []
match_segments (t ∷ ts) (p ∷ ps) =
    captured (starts_with t b'{') (str_eq t p) p (match_segments ts ps)
match_segments _ _ = none

abbrev first : Str → Option (List Str) → Option (Str × List Str) → Option (Str × List Str)
first template (some ps) rest = some (template, ps)
first template none rest = rest

find : List Str → Str → Option (Str × List Str)
find [] path = none
find (t ∷ ts) path = first t (match_segments (split t b'/') (split path b'/')) (find ts path)

abbrev found_at :
    {A : Type 0} → (method : Str) → List (Entry A) → Option (Str × List Str) → Option (Found A)
found_at method es none = none
found_at method es (some (t, ps)) =
    Option.map (λ h. record { handler = h; template = t; params = ps }) (handler_at t method es)

abbrev axum : Axum
axum = record {
  Router = λ A. List (Entry A);
  new = [];
  route = λ path m r. r ++ entry path m ∷ [];
  nest = λ prefix inner r. r ++ map (under prefix) inner;
  layer = λ f r. map (on_entry f) r;
  dispatch = λ r method path. found_at method r (find (paths r) path);
}

axum-IsRouting : IsRouting axum
axum-IsRouting = record {
  routes = λ r. r;
  find = find;
  routes-new = refl;
  routes-route = λ path m r. refl;
  routes-nest = λ prefix inner r h hs. refl;
  routes-layer = λ f r. refl;
  dispatch_found = λ r method path template params h e k. rw (e, k) refl;
}

abbrev platform : Platform Bool (Unit {0})
platform = record {
  floats = floats;
  http = memory_client Http.arity;
  postgres = memory_client Postgres.arity;
  redis = memory_client Redis.arity;
  pool = pool;
  registry = registry;
  runtime = runtime;
  two = true;
  matched_path = some;
  layer_path = λ q. q.request.path;
  content_length = λ r. none;
  rejection = λ keys. json (record { status = 500; body = error_body [] });
}

platform-IsPlatform : IsPlatform platform
platform-IsPlatform = record {
  http = memory_client-IsLawful Http.arity;
  redis = memory_client-IsLawful Redis.arity;
  postgres = memory_client-IsLawful Postgres.arity;
  store = pool-IsCounterStore;
}

abbrev shared : Shared platform
shared = (
  record {
    prom = record { registry = []; handles = []; collector_count = 0; runtime = [] };
    redis = world;
    postgres = λ s. int (pos 0);
  },
  λ s. int (pos 0),
)

abbrev fallback : HttpRequest Bool → Exec (Shared platform) (Unit {0}) Reply
fallback q = pure (json (record { status = 404; body = error_body [] }))

abbrev encode : Shared platform → Option Str
encode w = some (codes "metrics")

-- A counter, a list, and the health.
abbrev visits : List (Visit Bool)
visits =
    visit_to post_incr (codes "hits") (codes "/api/counter/hits/incr") true false
    ∷ visit_to get_users [] (codes "/api/users") true true
    ∷ visit_to get_health [] (codes "/health") false false
    ∷ []

visits_match :
    All
      (λ v.
        axum-IsRouting.find templates v.path ≡ some (template_of v.call, params_of v.call v.key))
      visits
unfolding find match_segments split str_eq axum-IsRouting
visits_match = (refl, (refl, (refl, tt)))

app_serves_example :
    (rs : List Reply) × (u : Shared platform) × (respond_all platform axum fallback
        (app platform axum encode (λ h. h) state)
        (requests_of visits)
        shared
      ≡ (ok rs, u))
    × Runs platform encode state platform-IsPlatform.store shared visits rs u
app_serves_example =
    app_serves platform platform-IsPlatform encode state axum axum-IsRouting (λ h. h)
      (λ h q w. refl) fallback visits shared visits_match

app_logs_example :
    let done =
      respond_all platform axum fallback
        (app platform axum encode (λ h. h) state)
        (requests_of visits)
        shared in
    (rs : List Reply) × (done.0 ≡ ok rs)
    × (platform.http.read done.1.1 in_flight
        ≡ logged platform.floats (log platform visits rs) in_flight (int (pos 0)))
app_logs_example =
    app_logs platform platform-IsPlatform encode state axum axum-IsRouting (λ h. h) (λ h q w. refl)
      fallback visits shared in_flight visits_match
