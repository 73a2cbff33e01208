-- ===== src/Tests/Layer.antt =====
-- Tests of the layer around two services: one whose handles are all alike, and one that panics unless its
-- handle is ready.
use dr_metrix.Prelude.{
  List, ℕ, suc, ◌≡◌, refl, Bool, true, false, [], ◌∷◌, some, none, pos, if◌then◌else◌, ◌==◌,
}
use dr_metrix.Std.{Str, codes}
use dr_metrix.Core.Exec.{Exec, ok, panicked}
use dr_metrix.Core.Metrics.{
  Client, Series, series_eq, incremented, int, memory_client, memory_client-IsLawful,
}
use dr_metrix.Axum.Fields.{
  requests_total, request_duration_seconds, HttpMetric, http_metric_eq, arity,
}
use dr_metrix.Axum.Layer.{begin, Request, Answer, response, error, visible, in_flight}
use dr_metrix.Axum.Layer.Service.{ready, Service, View, poll_ready, call, layer, serve_all}
use dr_metrix.Axum.Layer.Service.Transparent.{IsShared, layer_transparent, inner_panic}
use dr_metrix.Axum.Layer.Log.{Event, begins, answers, logged, happen_all, metrics_follow_log}
use dr_metrix.Axum.Layer.Requests.Effects.{captured, answered_labels}
use dr_metrix.Axum.Layer.Atomic.{Op, incs, decs, observes, apply_all, all_ops, Same}
use dr_metrix.Axum.Layer.Atomic.AnyOrder.{any_order}
use mathlib.Core.List.{Permᴰ}
use dr_metrix.Tests.Fixtures.{floats}

-- A service that numbers its answers.
abbrev numbering : Service (Unit {0}) Request ℕ
numbering = record {
  Handle = Unit;
  Shared = ℕ;
  clone = λ h. h;
  poll_ready = λ w. (ready, w);
  call = λ q w. (ok w.1, (w.0, suc w.1));
}

abbrev when_ready : Bool → ℕ → Exec (Bool × ℕ) (Unit {0}) ℕ
when_ready true n w = (ok n, (false, suc n))
when_ready false n w = (panicked, (false, n))

-- One that panics unless `poll_ready` was called on the same handle.
abbrev strict : Service (Unit {0}) Request ℕ
strict = record {
  Handle = Bool;
  Shared = ℕ;
  clone = λ h. false;
  poll_ready = λ w. (ready, (true, w.1));
  call = λ q w. when_ready w.0 w.1 w;
}

abbrev view : View Request ℕ
view = record {
  request = λ q. q;
  answer = λ n. response (record { status = 200; content_length = none });
}

abbrev client : Client HttpMetric Bool
client = memory_client arity

abbrev zeros : client.State
zeros s = int (pos 0)

abbrev users : Request
users = record {
  method = codes "GET";
  matched_path = some (codes "/users/:id");
  uri_path = codes "/users/1";
}

numbering-IsShared : IsShared numbering
numbering-IsShared = record { answer = λ q g h s. refl; shared = λ q g h s. refl }

layer_transparent_example :
    let layered =
      serve_all
        (layer floats client view (λ q. true) numbering)
        (users ∷ users ∷ [])
        (tt, (3, zeros)) in
    let bare = serve_all numbering (users ∷ users ∷ []) (tt, 3) in
    (layered.0 ≡ bare.0) × (layered.1.1.0 ≡ bare.1.1)
layer_transparent_example =
    layer_transparent floats client (memory_client-IsLawful arity) view (λ q. true) numbering
      numbering-IsShared (users ∷ users ∷ []) tt tt 3 zeros

ready_strict :
    poll_ready floats client view (λ q. true) strict (false, (3, zeros))
    ≡ (ready, (true, (3, zeros)))
unfolding poll_ready
ready_strict = refl

inner_panic_example :
    let after =
      call floats client view
        (λ q. true)
        strict
        users
        (poll_ready floats client view (λ q. true) strict (false, (3, zeros))).1 in
    (after.0 ≡ panicked)
    × ((k : Series HttpMetric)
        → client.read after.1.1.1 k
          ≡ (if in_flight == k then incremented (client.read zeros k) else client.read zeros k))
inner_panic_example =
    inner_panic floats client (memory_client-IsLawful arity) view (λ q. true) strict users false
      true 3 3 zeros ready_strict refl

-- A request begins, another one begins, and the first is answered with a length that parses.
abbrev events : List (Event Bool)
events =
    begins users
    ∷ begins users
    ∷ answers users true
        (response (record { status = 200; content_length = some (visible (codes "1.5")) }))
    ∷ []

metrics_follow_log_example :
    let done = happen_all {E = Unit {0}} floats client events zeros in
    ((req : Request) (t : client.State)
      → (begin {E = Unit {0}} floats client req t).0 ≡ ok (captured req))
    × (done.0 ≡ ok tt)
    × (client.read done.1 in_flight ≡ logged floats events in_flight (int (pos 0)))
metrics_follow_log_example =
    metrics_follow_log Unit floats client (memory_client-IsLawful arity) events zeros in_flight

abbrev failing : Answer
failing = error (codes "gone")

-- Two requests begin, and the first one fails.
abbrev failed_events : List (Event Bool)
failed_events = begins users ∷ begins users ∷ answers users true failing ∷ []

abbrev failed_labels : List Str
failed_labels = answered_labels (captured users) failing

-- The first one fails before the second has begun.
abbrev shuffled : List (Op Bool)
shuffled =
    incs in_flight
    ∷ decs in_flight
    ∷ incs in_flight
    ∷ incs (record { metric = requests_total; labels = failed_labels })
    ∷ observes (record { metric = request_duration_seconds; labels = failed_labels }) true
    ∷ []

any_order_example :
    (happen_all {E = Unit {0}} floats client failed_events zeros
      ≡ (ok tt, apply_all client (all_ops floats failed_events) zeros))
    × Same
        (logged floats failed_events in_flight (int (pos 0)))
        (client.read (apply_all client shuffled zeros) in_flight)
any_order_example =
    any_order Unit floats client (memory_client-IsLawful arity) failed_events shuffled zeros
      in_flight (Permᴰ.cons refl (Permᴰ.swap refl refl))
