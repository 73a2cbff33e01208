-- ===== src/Examples/Router/Dispatch.antt =====
-- What axum documents of its router, and where the requests of the application go.
use dr_metrix.Prelude.{
  ap, ◌≡◌, refl, ◌∙◌, Bool, false, Option, none, some, List, [], ◌∷◌, ◌++◌, map, All, ◌&&◌,
  if◌then◌else◌,
}
use dr_metrix.Std.{Str, codes, str_eq}
use dr_metrix.Examples.Routes.{AppState}
use dr_metrix.Examples.Router.{
  MethodRouter, get, post, Axum, Platform, Shared, Endpoint, users, orders, incr, decr, http_layer,
  metrics, health, api, app,
}

-- A route of a router.
pub record Entry (A : Type 0) : Type 0 where
  pub path : Str
  pub method : Str
  pub handler : A

module _ {A : Type 0} where
  abbrev pub entry : Str → MethodRouter A → Entry A
  entry path m = record { path = path; method = m.method; handler = m.handler }

  abbrev pub under : Str → Entry A → Entry A
  under prefix e = record { path = prefix ++ e.path; method = e.method; handler = e.handler }

  abbrev pub paths : List (Entry A) → List Str
  paths [] = []
  paths (e ∷ es) = e.path ∷ paths es

  -- The first handler of a method at a template.
  abbrev pub handler_at : Str → Str → List (Entry A) → Option A
  handler_at path method [] = none
  handler_at path method (e ∷ es) =
      let rest = handler_at path method es in
      if str_eq e.path path && str_eq e.method method then some e.handler else rest

abbrev pub on_entry : {A B : Type 0} → (A → B) → Entry A → Entry B
on_entry f e = record { path = e.path; method = e.method; handler = f e.handler }

abbrev pub ends_with_slash : Str → Bool
ends_with_slash [] = false
ends_with_slash (c ∷ []) = str_eq (c ∷ []) (codes "/")
ends_with_slash (c ∷ d ∷ s) = ends_with_slash (d ∷ s)

-- What axum documents: a router is its routes; a nested one has its routes behind a prefix; a layer is put around
-- the routes that are there; a request goes to the handler of its method at the template that its path matches,
-- which `find` tells.
pub record IsRouting (axum : Axum) : Type 1 where
  pub routes : {A : Type 0} → axum.Router A → List (Entry A)
  pub find : List Str → (path : Str) → Option (Str × List Str)
  pub routes-new : {A : Type 0} → routes (axum.new {A = A}) ≡ []
  pub routes-route :
      {A : Type 0} (path : Str) (m : MethodRouter A) (r : axum.Router A)
      → routes (axum.route path m r) ≡ routes r ++ entry path m ∷ []
  pub routes-nest :
      {A : Type 0} (prefix : Str) (inner r : axum.Router A)
      → ends_with_slash prefix ≡ false
      → All (λ e. str_eq e.path (codes "/") ≡ false) (routes inner)
      → routes (axum.nest prefix inner r) ≡ routes r ++ map (under prefix) (routes inner)
  pub routes-layer :
      {A B : Type 0} (f : A → B) (r : axum.Router A)
      → routes (axum.layer f r) ≡ map (on_entry f) (routes r)
  pub dispatch_found :
      {A : Type 0} (r : axum.Router A) (method path template : Str) (params : List Str) (h : A)
      → find (paths (routes r)) path ≡ some (template, params)
      → handler_at template method (routes r) ≡ some h
      → axum.dispatch r method path
        ≡ some (record { handler = h; template = template; params = params })

-- The requests that the application has a route for.
pub data Call : Type 0 where
  get_metrics : Call
  get_health : Call
  get_users : Call
  get_orders : Call
  post_incr : Call
  post_decr : Call

abbrev pub method_of : Call → Str
method_of get_metrics = codes "GET"
method_of get_health = codes "GET"
method_of get_users = codes "GET"
method_of get_orders = codes "GET"
method_of post_incr = codes "POST"
method_of post_decr = codes "POST"

abbrev pub template_of : Call → Str
template_of get_metrics = codes "/metrics"
template_of get_health = codes "/health"
template_of get_users = codes "/api/users"
template_of get_orders = codes "/api/orders"
template_of post_incr = codes "/api/counter/{key}/incr"
template_of post_decr = codes "/api/counter/{key}/decr"

-- The templates of the application, in the order in which its routes are added.
abbrev pub templates : List Str
templates =
    map template_of (get_metrics ∷ get_health ∷ get_users ∷ get_orders ∷ post_incr ∷ post_decr ∷ [])

module _ {F E : Type 0} (platform : Platform F E) (encode : Shared platform → Option Str)
    (state : AppState) where
  -- The handler of a request: those of `/api` stand under the layer.
  abbrev pub handler_of : Call → Endpoint platform (Shared platform)
  handler_of get_metrics = metrics platform encode
  handler_of get_health = health platform
  handler_of get_users = http_layer platform (users platform state)
  handler_of get_orders = http_layer platform (orders platform state)
  handler_of post_incr = http_layer platform (incr platform state)
  handler_of post_decr = http_layer platform (decr platform state)

  abbrev entry_of : Call → Entry (Endpoint platform (Shared platform))
  entry_of call = record {
    path = template_of call;
    method = method_of call;
    handler = handler_of call;
  }

  abbrev app_entries : List (Entry (Endpoint platform (Shared platform)))
  app_entries =
      entry_of get_metrics
      ∷ entry_of get_health
      ∷ entry_of get_users
      ∷ entry_of get_orders
      ∷ entry_of post_incr
      ∷ entry_of post_decr
      ∷ []

  module _ (axum : Axum) (routing : IsRouting axum)
      (trace : Endpoint platform (Shared platform) → Endpoint platform (Shared platform)) where
    routes-api :
        routing.routes (api platform axum encode trace state)
        ≡ entry (codes "/users") (get (handler_of get_users))
          ∷ entry (codes "/orders") (get (handler_of get_orders))
          ∷ entry (codes "/counter/{key}/incr") (post (handler_of post_incr))
          ∷ entry (codes "/counter/{key}/decr") (post (handler_of post_decr))
          ∷ []
    unfolding api
    routes-api = simp (routing.routes-layer, routing.routes-route, routing.routes-new)

    -- The routes of the application.
    routes-app :
        routing.routes (app platform axum encode trace state) ≡ map (on_entry trace) app_entries
    unfolding app str_eq
    routes-app =
        routing.routes-layer trace _
        ∙ ap (map (on_entry trace)) {y = app_entries} (
            routing.routes-nest (codes "/api") _ _ refl
              (rw routes-api (refl, (refl, (refl, (refl, tt)))))
            ∙ rw routes-api (simp (routing.routes-route, routing.routes-new)))

    handler_at-routes :
        (call : Call)
        → handler_at (template_of call) (method_of call) (map (on_entry trace) app_entries)
          ≡ some (trace (handler_of call))
    unfolding str_eq
    handler_at-routes get_metrics = refl
    handler_at-routes get_health = refl
    handler_at-routes get_users = refl
    handler_at-routes get_orders = refl
    handler_at-routes post_incr = refl
    handler_at-routes post_decr = refl

    -- Where a request goes whose path matches the template of its route.
    pub dispatch-app :
        (call : Call) (path : Str) (params : List Str)
        → routing.find templates path ≡ some (template_of call, params)
        → axum.dispatch (app platform axum encode trace state) (method_of call) path
          ≡ some (record {
            handler = trace (handler_of call);
            template = template_of call;
            params = params;
          })
    dispatch-app call path params h =
        routing.dispatch_found _ (method_of call) path (template_of call) params
          (trace (handler_of call)) (ap (λ es. routing.find (paths es) path) routes-app ∙ h)
          (ap (handler_at (template_of call) (method_of call)) routes-app ∙ handler_at-routes call)
