-- ===== src/Axum/Fields.antt =====
-- dr-metrix-axum/src/http_metrics.rs: the fields of `HttpMetrics`, and the options that `new` gives them.
use Prim.Native.String.{String}
use dr_metrix.Prelude.{
  ℕ, ◌≡◌, refl, sym, ap, ◌∙◌, ◌↔◌, Bool, true, List, [], ◌∷◌, ◌==ℕ◌, ==ℕ_iff, if◌then◌else◌, Eq,
  length,
}
use dr_metrix.Std.{Str, codes}
use dr_metrix.Core.Collector.{default_query_buckets}
use dr_metrix.Core.Registry.{Opts, opts_of, int_gauge, int_counter_vec, histogram_vec}

-- The handles of `HttpMetrics`.
pub data HttpMetric : Type 0 where
  requests_total request_duration_seconds requests_in_flight response_size_bytes : HttpMetric

abbrev pub index : HttpMetric → ℕ
index requests_total = 0
index request_duration_seconds = 1
index requests_in_flight = 2
index response_size_bytes = 3

abbrev at_index : ℕ → HttpMetric
at_index n =
    if n ==ℕ 0
    then requests_total
    else if n ==ℕ 1
    then request_duration_seconds
    else if n ==ℕ 2
    then requests_in_flight
    else response_size_bytes

at_index-index : (m : HttpMetric) → at_index (index m) ≡ m
at_index-index requests_total = refl
at_index-index request_duration_seconds = refl
at_index-index requests_in_flight = refl
at_index-index response_size_bytes = refl

index-injective : (a b : HttpMetric) → index a ≡ index b → a ≡ b
index-injective a b h = sym (at_index-index a) ∙ ap at_index h ∙ at_index-index b

abbrev pub metric_beq : HttpMetric → HttpMetric → Bool
metric_beq a b = index a ==ℕ index b

pub metric_beq_iff : (a b : HttpMetric) → (metric_beq a b ≡ true) ↔ (a ≡ b)
metric_beq_iff a b =
    (λ h. index-injective a b ((==ℕ_iff _ _).0 h), λ e. (==ℕ_iff _ _).1 (ap index e))

instance abbrev pub http_metric_eq : Eq HttpMetric
http_metric_eq = record { beq = metric_beq; beq_iff = metric_beq_iff }

abbrev pub subsystem : Str
subsystem = codes "http"

-- The options that `new` gives each kind of metric.
abbrev gauge_opts : Str → String → String → Opts
gauge_opts ns name help = opts_of subsystem int_gauge ns name help [] []

abbrev counter_vec_opts : Str → String → String → List Str → Opts
counter_vec_opts ns name help labels = opts_of subsystem int_counter_vec ns name help labels []

abbrev histogram_vec_opts : Str → String → String → List Str → List ℕ → Opts
histogram_vec_opts = opts_of subsystem histogram_vec

unfoldable pub opts : Str → HttpMetric → Opts
opts ns requests_total =
    counter_vec_opts ns "requests_total" "Total HTTP requests"
      (codes "method" ∷ codes "path" ∷ codes "status" ∷ [])
opts ns request_duration_seconds =
    histogram_vec_opts ns "request_duration_seconds" "HTTP request latency in seconds"
      (codes "method" ∷ codes "path" ∷ codes "status" ∷ []) default_query_buckets
opts ns requests_in_flight = gauge_opts ns "requests_in_flight" "Currently in-flight HTTP requests"
opts ns response_size_bytes =
    histogram_vec_opts ns "response_size_bytes" "HTTP response body size in bytes"
      (codes "method" ∷ codes "path" ∷ [])
      (1_000_000 ∷ 10_000_000 ∷ 100_000_000 ∷ 1_000_000_000 ∷ 10_000_000_000 ∷ 100_000_000_000 ∷ [])

-- The handles in the order of `new` and of `register`.
abbrev pub metrics : List HttpMetric
metrics = requests_total ∷ request_duration_seconds ∷ requests_in_flight ∷ response_size_bytes ∷ []

-- The number of label names of a metric.
unfoldable pub arity : HttpMetric → ℕ
unfolding opts
arity m = length (opts [] m).labels
