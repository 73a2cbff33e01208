-- ===== src/Axum/Layer.antt =====
-- dr-metrix-axum/src/layer.rs: what `call` and the future that it returns do to the metrics.
pub mod Requests
pub mod Log
pub mod Service
pub mod Atomic
use dr_metrix.Prelude.{
  ℕ, ◌≡◌, List, [], ◌∷◌, ◌++◌, Option, none, some, Bool, unwrap_or, length, suc,
}
use dr_metrix.Prelude.Options
use dr_metrix.Std.{Str, codes, print_nat, Floats}
use dr_metrix.Core.Exec.{Exec, pure, modify, ◌>>=◌, ◌>>◌}
use dr_metrix.Core.Metrics.{Client, Series, with_label_values, observe_labelled}
use dr_metrix.Axum.Fields.{
  HttpMetric, requests_total, request_duration_seconds, requests_in_flight, response_size_bytes,
}

-- A request, with the route template of axum where there is one.
pub record Request : Type 0 where
  pub method : Str
  pub matched_path : Option Str
  pub uri_path : Str

-- A header value: a text of visible ASCII characters, or bytes on which `to_str` fails.
pub data HeaderValue : Type 0 where
  visible : Str → HeaderValue
  opaque : HeaderValue

pub record Response : Type 0 where
  pub status : ℕ
  pub content_length : Option HeaderValue

-- What the inner service ends with; an error is given by its text.
pub data Answer : Type 0 where
  response : Response → Answer
  error : Str → Answer

-- What `call` captures in the future.
pub record Pending : Type 0 where
  pub method : Str
  pub path : Str

unfoldable pub path_label : Request → Str
path_label req = unwrap_or req.matched_path req.uri_path

abbrev pub in_flight : Series HttpMetric
in_flight = record { metric = requests_in_flight; labels = [] }

-- The length that the header states, if it parses as an `f64`.
unfoldable pub stated_length : {F : Type 0} → Floats F → Response → Option F
stated_length floats r = elim r.content_length [
  | none ↦ none
  | some v ↦ elim v [ visible text ↦ floats.parse_f64 text | opaque ↦ none ]
]

-- The labels of a request that ended with a status.
abbrev pub status_labels : Pending → Str → List Str
status_labels p status = p.method ∷ p.path ∷ status ∷ []

module _ {F E : Type 0} (floats : Floats F) (c : Client HttpMetric F) where
  -- `call`, up to the future that it returns
  unfoldable pub begin : Request → Exec c.State E Pending
  unfolding path_label
  begin req = do
    modify (c.inc in_flight)
    pure (record { method = req.method; path = path_label req })

  observe_size : Pending → Option F → Exec c.State E (Unit {0})
  observe_size p none = pure tt
  observe_size p (some len) = observe_labelled c response_size_bytes (p.method ∷ p.path ∷ []) len

  unfoldable pub record_answer : Pending → F → Answer → Exec c.State E (Unit {0})
  unfolding observe_size
  record_answer p elapsed (response r) = do
    with_label_values c requests_total (status_labels p (print_nat r.status)) c.inc
    observe_labelled c request_duration_seconds (status_labels p (print_nat r.status)) elapsed
    observe_size p (stated_length floats r)
  record_answer p elapsed (error message) = do
    with_label_values c requests_total (status_labels p (codes "500")) c.inc
    observe_labelled c request_duration_seconds (status_labels p (codes "500")) elapsed

  -- The future, from the answer of the inner service on
  unfoldable pub finish : Pending → F → Answer → Exec c.State E (Unit {0})
  unfolding record_answer
  finish p elapsed answer = do modify (c.dec in_flight); record_answer p elapsed answer
