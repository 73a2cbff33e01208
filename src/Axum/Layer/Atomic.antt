-- ===== src/Axum/Layer/Atomic.antt =====
-- The metrics under threads: the calls of the layer are sequences of operations that the client library carries out
-- one at a time, and the operations of several calls may come in any order.
pub mod Commuting
pub mod AnyOrder
use mathlib.Core.List.{Permᴰ}
use dr_metrix.Prelude.{
  ◌≡◌, refl, sym, ap, ◌∙◌, List, [], ◌∷◌, ◌++◌, Option, none, some, Bool, true, false, Bool-cases,
  inl, inr, if◌then◌else◌, list_beq, nat_eq, list_eq, ◌==◌, wrap_commutes,
}
use dr_metrix.Std.{Str, Floats}
use dr_metrix.Core.Exec.{ok}
use dr_metrix.Core.Metrics.{
  Client, IsLawful, Reading, int, float, counter, samples, incremented, decremented, observed,
  Series, series_eq,
}
use dr_metrix.Axum.Fields.{
  HttpMetric, http_metric_eq, arity, requests_total, request_duration_seconds, requests_in_flight,
  response_size_bytes,
}
use dr_metrix.Axum.Layer.{Request, Answer, response, error, Pending, in_flight, stated_length}
use dr_metrix.Axum.Layer.Requests.Effects.{captured, answered_labels}
use dr_metrix.Axum.Layer.Log.{
  Event, begins, answers, logged, answer_length, happen_all, metrics_follow_log,
}

-- One operation on a series.
pub data Op (F : Type 0) : Type 0 where
  incs : Series HttpMetric → Op F
  decs : Series HttpMetric → Op F
  observes : Series HttpMetric → F → Op F

module _ {F : Type 0} (c : Client HttpMetric F) where
  abbrev pub apply : Op F → c.State → c.State
  apply (incs k) = c.inc k
  apply (decs k) = c.dec k
  apply (observes k x) = c.observe k x

  abbrev pub apply_all : List (Op F) → c.State → c.State
  apply_all [] s = s
  apply_all (op ∷ ops) s = apply_all ops (apply op s)

module _ {F : Type 0} (floats : Floats F) where
  abbrev size_ops : Pending → Option F → List (Op F)
  size_ops p none = []
  size_ops p (some len) =
      observes (record { metric = response_size_bytes; labels = p.method ∷ p.path ∷ [] }) len ∷ []

  -- The operations of an event, in the order of the code.
  abbrev pub ops_of : Event F → List (Op F)
  ops_of (begins req) = incs in_flight ∷ []
  ops_of (answers req elapsed answer) =
      decs in_flight
      ∷ incs (record { metric = requests_total; labels = answered_labels (captured req) answer })
      ∷ observes
          (record {
            metric = request_duration_seconds;
            labels = answered_labels (captured req) answer;
          })
          elapsed
      ∷ size_ops (captured req) (answer_length floats answer)

  abbrev pub all_ops : List (Event F) → List (Op F)
  all_ops [] = []
  all_ops (e ∷ es) = ops_of e ++ all_ops es

module _ {F : Type 0} where
  -- What an operation makes of the reading of a series.
  abbrev pub changed : Op F → Reading F → Reading F
  changed (incs k) r = incremented r
  changed (decs k) r = decremented r
  changed (observes k x) r = observed x r

  abbrev pub series_of : Op F → Series HttpMetric
  series_of (incs k) = k
  series_of (decs k) = k
  series_of (observes k x) = k

  abbrev pub on_match : Bool → Op F → Reading F → Reading F
  on_match true op r = changed op r
  on_match false op r = r

  abbrev pub ops_reading : List (Op F) → Series HttpMetric → Reading F → Reading F
  ops_reading [] k r = r
  ops_reading (op ∷ ops) k r = ops_reading ops k (on_match (series_of op == k) op r)

  -- Two readings that are the same number, or the same observations in another order.
  pub data Same : Reading F → Reading F → Type 0 where
    equal : {r t : Reading F} → r ≡ t → Same r t
    reordered : {xs ys : List F} → Permᴰ xs ys → Same (samples xs) (samples ys)
    chained : {r t u : Reading F} → Same r t → Same t u → Same r u
