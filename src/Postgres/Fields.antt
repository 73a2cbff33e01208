-- ===== src/Postgres/Fields.antt =====
-- The metrics of dr-metrix-postgres/src/metrics.rs: the fields of `PostgresMetrics` that hold a handle, and
-- the options that `new` gives them.
use Prim.Native.String.{String}
use dr_metrix.Prelude.{
  ℕ, ◌≡◌, refl, sym, ap, ◌∙◌, ◌↔◌, Bool, true, List, [], ◌∷◌, ◌==ℕ◌, ==ℕ_iff, if◌then◌else◌, Eq,
  length,
}
use dr_metrix.Std.{Str, codes}
use dr_metrix.Core.Collector.{default_query_buckets}
use dr_metrix.Core.Registry.{Opts, opts_of, int_gauge, int_gauge_vec, histogram_vec}

-- The handles of `PostgresMetrics`, in the order of the struct literal in `new`.
pub data PostgresMetric : Type 0 where
  pool_active pool_idle pool_max db_numbackends db_xact_commit db_xact_rollback db_blks_hit
        db_blks_read db_size_bytes table_seq_scan table_idx_scan table_live_tup table_dead_tup
        lock_count query_duration_seconds rows_returned :
      PostgresMetric

abbrev pub index : PostgresMetric → ℕ
index pool_active = 0
index pool_idle = 1
index pool_max = 2
index db_numbackends = 3
index db_xact_commit = 4
index db_xact_rollback = 5
index db_blks_hit = 6
index db_blks_read = 7
index db_size_bytes = 8
index table_seq_scan = 9
index table_idx_scan = 10
index table_live_tup = 11
index table_dead_tup = 12
index lock_count = 13
index query_duration_seconds = 14
index rows_returned = 15

abbrev at_index : ℕ → PostgresMetric
at_index n =
    if n ==ℕ 0
    then pool_active
    else if n ==ℕ 1
    then pool_idle
    else if n ==ℕ 2
    then pool_max
    else if n ==ℕ 3
    then db_numbackends
    else if n ==ℕ 4
    then db_xact_commit
    else if n ==ℕ 5
    then db_xact_rollback
    else if n ==ℕ 6
    then db_blks_hit
    else if n ==ℕ 7
    then db_blks_read
    else if n ==ℕ 8
    then db_size_bytes
    else if n ==ℕ 9
    then table_seq_scan
    else if n ==ℕ 10
    then table_idx_scan
    else if n ==ℕ 11
    then table_live_tup
    else if n ==ℕ 12
    then table_dead_tup
    else if n ==ℕ 13
    then lock_count
    else if n ==ℕ 14
    then query_duration_seconds
    else rows_returned

at_index-index : (m : PostgresMetric) → at_index (index m) ≡ m
at_index-index pool_active = refl
at_index-index pool_idle = refl
at_index-index pool_max = refl
at_index-index db_numbackends = refl
at_index-index db_xact_commit = refl
at_index-index db_xact_rollback = refl
at_index-index db_blks_hit = refl
at_index-index db_blks_read = refl
at_index-index db_size_bytes = refl
at_index-index table_seq_scan = refl
at_index-index table_idx_scan = refl
at_index-index table_live_tup = refl
at_index-index table_dead_tup = refl
at_index-index lock_count = refl
at_index-index query_duration_seconds = refl
at_index-index rows_returned = refl

index-injective : (a b : PostgresMetric) → index a ≡ index b → a ≡ b
index-injective a b h = sym (at_index-index a) ∙ ap at_index h ∙ at_index-index b

abbrev pub metric_beq : PostgresMetric → PostgresMetric → Bool
metric_beq a b = index a ==ℕ index b

pub metric_beq_iff : (a b : PostgresMetric) → (metric_beq a b ≡ true) ↔ (a ≡ b)
metric_beq_iff a b =
    (λ h. index-injective a b ((==ℕ_iff _ _).0 h), λ e. (==ℕ_iff _ _).1 (ap index e))

instance abbrev pub postgres_metric_eq : Eq PostgresMetric
postgres_metric_eq = record { beq = metric_beq; beq_iff = metric_beq_iff }

abbrev pub subsystem : Str
subsystem = codes "postgres"

-- The options that `new` gives each kind of metric.
abbrev gauge_opts : Str → String → String → Opts
gauge_opts ns name help = opts_of subsystem int_gauge ns name help [] []

abbrev gauge_vec_opts : Str → String → String → List Str → Opts
gauge_vec_opts ns name help labels = opts_of subsystem int_gauge_vec ns name help labels []

abbrev histogram_vec_opts : Str → String → String → List Str → List ℕ → Opts
histogram_vec_opts = opts_of subsystem histogram_vec

unfoldable pub opts : Str → PostgresMetric → Opts
opts ns pool_active = gauge_opts ns "pool_active" "Active pool connections"
opts ns pool_idle = gauge_opts ns "pool_idle" "Idle pool connections"
opts ns pool_max = gauge_opts ns "pool_max" "Maximum pool size"
opts ns db_numbackends =
    gauge_vec_opts ns "db_numbackends" "Active backends per database" (codes "database" ∷ [])
opts ns db_xact_commit =
    gauge_vec_opts ns "db_xact_commit_total" "Committed transactions (snapshot)"
      (codes "database" ∷ [])
opts ns db_xact_rollback =
    gauge_vec_opts ns "db_xact_rollback_total" "Rolled-back transactions (snapshot)"
      (codes "database" ∷ [])
opts ns db_blks_hit =
    gauge_vec_opts ns "db_blks_hit_total" "Buffer hits (snapshot)" (codes "database" ∷ [])
opts ns db_blks_read =
    gauge_vec_opts ns "db_blks_read_total" "Disk blocks read (snapshot)" (codes "database" ∷ [])
opts ns db_size_bytes =
    gauge_vec_opts ns "db_size_bytes" "Database size in bytes" (codes "database" ∷ [])
opts ns table_seq_scan =
    gauge_vec_opts ns "table_seq_scan_total" "Sequential scans (snapshot)"
      (codes "schema" ∷ codes "table" ∷ [])
opts ns table_idx_scan =
    gauge_vec_opts ns "table_idx_scan_total" "Index scans (snapshot)"
      (codes "schema" ∷ codes "table" ∷ [])
opts ns table_live_tup =
    gauge_vec_opts ns "table_live_tup" "Estimated live rows" (codes "schema" ∷ codes "table" ∷ [])
opts ns table_dead_tup =
    gauge_vec_opts ns "table_dead_tup" "Estimated dead rows" (codes "schema" ∷ codes "table" ∷ [])
opts ns lock_count = gauge_vec_opts ns "lock_count" "Active locks by mode" (codes "mode" ∷ [])
opts ns query_duration_seconds =
    histogram_vec_opts ns "query_duration_seconds" "Application query duration" (codes "query" ∷ [])
      default_query_buckets
opts ns rows_returned =
    histogram_vec_opts ns "rows_returned" "Rows returned per application query" (codes "query" ∷ [])
      (10_000 ∷ 50_000 ∷ 100_000 ∷ 500_000 ∷ 1_000_000 ∷ 5_000_000 ∷ 10_000_000 ∷ 50_000_000 ∷ [])

-- The handles in the order of `new` and of `register`.
abbrev pub metrics : List PostgresMetric
metrics =
    pool_active ∷ pool_idle ∷ pool_max ∷ db_numbackends ∷ db_xact_commit ∷ db_xact_rollback
    ∷ db_blks_hit ∷ db_blks_read ∷ db_size_bytes ∷ table_seq_scan ∷ table_idx_scan ∷ table_live_tup
    ∷ table_dead_tup ∷ lock_count ∷ query_duration_seconds ∷ rows_returned ∷ []

-- The number of label names of a metric.
unfoldable pub arity : PostgresMetric → ℕ
unfolding opts
arity m = length (opts [] m).labels
