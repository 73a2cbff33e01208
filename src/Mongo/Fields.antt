-- ===== src/Mongo/Fields.antt =====
-- The metrics of dr-metrix-mongo/src/metrics.rs: the fields of `MongoMetrics` that hold a handle, and the
-- options that `new` gives them.
use Prim.Native.String.{String}
use dr_metrix.Prelude.{
  ℕ, ◌≡◌, refl, sym, ap, ◌∙◌, ◌↔◌, Bool, true, List, [], ◌∷◌, ◌==ℕ◌, ==ℕ_iff, if◌then◌else◌, Eq,
  length,
}
use dr_metrix.Std.{Str, codes}
use dr_metrix.Core.Collector.{default_query_buckets}
use dr_metrix.Core.Registry.{Opts, opts_of, int_gauge, int_gauge_vec, histogram_vec}

-- The handles of `MongoMetrics`, in the order of the struct literal in `new`.
pub data MongoMetric : Type 0 where
  connections_current connections_available connections_total opcounters bytes_in bytes_out
        requests_in resident_memory_bytes virtual_memory_bytes wt_cache_bytes_in_use
        wt_cache_bytes_max wt_cache_dirty_bytes op_duration_seconds :
      MongoMetric

abbrev pub index : MongoMetric → ℕ
index connections_current = 0
index connections_available = 1
index connections_total = 2
index opcounters = 3
index bytes_in = 4
index bytes_out = 5
index requests_in = 6
index resident_memory_bytes = 7
index virtual_memory_bytes = 8
index wt_cache_bytes_in_use = 9
index wt_cache_bytes_max = 10
index wt_cache_dirty_bytes = 11
index op_duration_seconds = 12

abbrev at_index : ℕ → MongoMetric
at_index n =
    if n ==ℕ 0
    then connections_current
    else if n ==ℕ 1
    then connections_available
    else if n ==ℕ 2
    then connections_total
    else if n ==ℕ 3
    then opcounters
    else if n ==ℕ 4
    then bytes_in
    else if n ==ℕ 5
    then bytes_out
    else if n ==ℕ 6
    then requests_in
    else if n ==ℕ 7
    then resident_memory_bytes
    else if n ==ℕ 8
    then virtual_memory_bytes
    else if n ==ℕ 9
    then wt_cache_bytes_in_use
    else if n ==ℕ 10
    then wt_cache_bytes_max
    else if n ==ℕ 11
    then wt_cache_dirty_bytes
    else op_duration_seconds

at_index-index : (m : MongoMetric) → at_index (index m) ≡ m
at_index-index connections_current = refl
at_index-index connections_available = refl
at_index-index connections_total = refl
at_index-index opcounters = refl
at_index-index bytes_in = refl
at_index-index bytes_out = refl
at_index-index requests_in = refl
at_index-index resident_memory_bytes = refl
at_index-index virtual_memory_bytes = refl
at_index-index wt_cache_bytes_in_use = refl
at_index-index wt_cache_bytes_max = refl
at_index-index wt_cache_dirty_bytes = refl
at_index-index op_duration_seconds = refl

index-injective : (a b : MongoMetric) → index a ≡ index b → a ≡ b
index-injective a b h = sym (at_index-index a) ∙ ap at_index h ∙ at_index-index b

abbrev pub metric_beq : MongoMetric → MongoMetric → Bool
metric_beq a b = index a ==ℕ index b

pub metric_beq_iff : (a b : MongoMetric) → (metric_beq a b ≡ true) ↔ (a ≡ b)
metric_beq_iff a b =
    (λ h. index-injective a b ((==ℕ_iff _ _).0 h), λ e. (==ℕ_iff _ _).1 (ap index e))

instance abbrev pub mongo_metric_eq : Eq MongoMetric
mongo_metric_eq = record { beq = metric_beq; beq_iff = metric_beq_iff }

abbrev pub subsystem : Str
subsystem = codes "mongo"

-- The options that `new` gives each kind of metric.
abbrev gauge_opts : Str → String → String → Opts
gauge_opts ns name help = opts_of subsystem int_gauge ns name help [] []

abbrev gauge_vec_opts : Str → String → String → List Str → Opts
gauge_vec_opts ns name help labels = opts_of subsystem int_gauge_vec ns name help labels []

abbrev histogram_vec_opts : Str → String → String → List Str → List ℕ → Opts
histogram_vec_opts = opts_of subsystem histogram_vec

unfoldable pub opts : Str → MongoMetric → Opts
opts ns connections_current = gauge_opts ns "connections_current" "Current MongoDB connections"
opts ns connections_available =
    gauge_opts ns "connections_available" "Available MongoDB connections"
opts ns connections_total = gauge_opts ns "connections_total" "Total MongoDB connections created"
opts ns opcounters =
    gauge_vec_opts ns "opcounters_total" "MongoDB operation counters (snapshot)" (codes "op" ∷ [])
opts ns bytes_in = gauge_opts ns "network_bytes_in_total" "Network bytes received"
opts ns bytes_out = gauge_opts ns "network_bytes_out_total" "Network bytes sent"
opts ns requests_in = gauge_opts ns "network_requests_total" "Network requests received"
opts ns resident_memory_bytes =
    gauge_opts ns "resident_memory_bytes" "Resident memory usage in bytes"
opts ns virtual_memory_bytes = gauge_opts ns "virtual_memory_bytes" "Virtual memory usage in bytes"
opts ns wt_cache_bytes_in_use =
    gauge_opts ns "wt_cache_bytes_in_use" "WiredTiger cache bytes currently in use"
opts ns wt_cache_bytes_max = gauge_opts ns "wt_cache_bytes_max" "WiredTiger cache maximum bytes"
opts ns wt_cache_dirty_bytes = gauge_opts ns "wt_cache_dirty_bytes" "WiredTiger cache dirty bytes"
opts ns op_duration_seconds =
    histogram_vec_opts ns "op_duration_seconds" "Application-level MongoDB operation duration"
      (codes "op" ∷ []) default_query_buckets

-- The handles in the order of `new` and of `register`.
abbrev pub metrics : List MongoMetric
metrics =
    connections_current ∷ connections_available ∷ connections_total ∷ opcounters ∷ bytes_in
    ∷ bytes_out ∷ requests_in ∷ resident_memory_bytes ∷ virtual_memory_bytes ∷ wt_cache_bytes_in_use
    ∷ wt_cache_bytes_max ∷ wt_cache_dirty_bytes ∷ op_duration_seconds ∷ []

-- The number of label names of a metric.
unfoldable pub arity : MongoMetric → ℕ
unfolding opts
arity m = length (opts [] m).labels
