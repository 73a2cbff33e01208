-- ===== src/Redis/Fields.antt =====
-- The metrics of dr-metrix-redis/src/metrics.rs: the fields of `RedisMetrics` that hold a handle, and the
-- options that `new` gives them.
use Prim.Native.String.{String}
use dr_metrix.Prelude.{
  ℕ, ◌≡◌, refl, sym, ap, ◌∙◌, ◌↔◌, Bool, true, List, [], ◌∷◌, ◌==ℕ◌, ==ℕ_iff, if◌then◌else◌, Eq,
  length,
}
use dr_metrix.Std.{Str, codes}
use dr_metrix.Core.Collector.{default_query_buckets}
use dr_metrix.Core.Registry.{Opts, opts_of, int_gauge, gauge, int_gauge_vec, histogram_vec}

-- The handles of `RedisMetrics`, in the order of the struct literal in `new`.
pub data RedisMetric : Type 0 where
  pool_connections connected_clients blocked_clients used_memory_bytes used_memory_rss
        mem_fragmentation_ratio keyspace_hits keyspace_misses evicted_keys total_commands_processed
        db_keys db_expires replication_offset connected_slaves command_duration_seconds :
      RedisMetric

abbrev pub index : RedisMetric → ℕ
index pool_connections = 0
index connected_clients = 1
index blocked_clients = 2
index used_memory_bytes = 3
index used_memory_rss = 4
index mem_fragmentation_ratio = 5
index keyspace_hits = 6
index keyspace_misses = 7
index evicted_keys = 8
index total_commands_processed = 9
index db_keys = 10
index db_expires = 11
index replication_offset = 12
index connected_slaves = 13
index command_duration_seconds = 14

abbrev at_index : ℕ → RedisMetric
at_index n =
    if n ==ℕ 0
    then pool_connections
    else if n ==ℕ 1
    then connected_clients
    else if n ==ℕ 2
    then blocked_clients
    else if n ==ℕ 3
    then used_memory_bytes
    else if n ==ℕ 4
    then used_memory_rss
    else if n ==ℕ 5
    then mem_fragmentation_ratio
    else if n ==ℕ 6
    then keyspace_hits
    else if n ==ℕ 7
    then keyspace_misses
    else if n ==ℕ 8
    then evicted_keys
    else if n ==ℕ 9
    then total_commands_processed
    else if n ==ℕ 10
    then db_keys
    else if n ==ℕ 11
    then db_expires
    else if n ==ℕ 12
    then replication_offset
    else if n ==ℕ 13
    then connected_slaves
    else command_duration_seconds

at_index-index : (m : RedisMetric) → at_index (index m) ≡ m
at_index-index pool_connections = refl
at_index-index connected_clients = refl
at_index-index blocked_clients = refl
at_index-index used_memory_bytes = refl
at_index-index used_memory_rss = refl
at_index-index mem_fragmentation_ratio = refl
at_index-index keyspace_hits = refl
at_index-index keyspace_misses = refl
at_index-index evicted_keys = refl
at_index-index total_commands_processed = refl
at_index-index db_keys = refl
at_index-index db_expires = refl
at_index-index replication_offset = refl
at_index-index connected_slaves = refl
at_index-index command_duration_seconds = refl

index-injective : (a b : RedisMetric) → index a ≡ index b → a ≡ b
index-injective a b h = sym (at_index-index a) ∙ ap at_index h ∙ at_index-index b

abbrev pub metric_beq : RedisMetric → RedisMetric → Bool
metric_beq a b = index a ==ℕ index b

pub metric_beq_iff : (a b : RedisMetric) → (metric_beq a b ≡ true) ↔ (a ≡ b)
metric_beq_iff a b =
    (λ h. index-injective a b ((==ℕ_iff _ _).0 h), λ e. (==ℕ_iff _ _).1 (ap index e))

instance abbrev pub redis_metric_eq : Eq RedisMetric
redis_metric_eq = record { beq = metric_beq; beq_iff = metric_beq_iff }

abbrev pub subsystem : Str
subsystem = codes "redis"

-- The macros of `new`.
abbrev gauge_opts : Str → String → String → Opts
gauge_opts ns name help = opts_of subsystem int_gauge ns name help [] []

abbrev fgauge_opts : Str → String → String → Opts
fgauge_opts ns name help = opts_of subsystem gauge ns name help [] []

abbrev gauge_vec_opts : Str → String → String → List Str → Opts
gauge_vec_opts ns name help labels = opts_of subsystem int_gauge_vec ns name help labels []

abbrev histogram_vec_opts : Str → String → String → List Str → List ℕ → Opts
histogram_vec_opts = opts_of subsystem histogram_vec

unfoldable pub opts : Str → RedisMetric → Opts
opts ns pool_connections = gauge_opts ns "pool_connections" "Number of connected pool clients"
opts ns connected_clients = gauge_opts ns "connected_clients" "Number of connected Redis clients"
opts ns blocked_clients = gauge_opts ns "blocked_clients" "Number of blocked Redis clients"
opts ns used_memory_bytes = gauge_opts ns "used_memory_bytes" "Redis used memory in bytes"
opts ns used_memory_rss = gauge_opts ns "used_memory_rss_bytes" "Redis RSS memory in bytes"
opts ns mem_fragmentation_ratio =
    fgauge_opts ns "mem_fragmentation_ratio" "Redis memory fragmentation ratio"
opts ns keyspace_hits = gauge_opts ns "keyspace_hits_total" "Redis keyspace hits (snapshot)"
opts ns keyspace_misses = gauge_opts ns "keyspace_misses_total" "Redis keyspace misses (snapshot)"
opts ns evicted_keys = gauge_opts ns "evicted_keys_total" "Redis evicted keys (snapshot)"
opts ns total_commands_processed =
    gauge_opts ns "commands_processed_total" "Total Redis commands processed (snapshot)"
opts ns db_keys = gauge_vec_opts ns "db_keys" "Number of keys per database" (codes "db" ∷ [])
opts ns db_expires =
    gauge_vec_opts ns "db_expires" "Number of expiring keys per database" (codes "db" ∷ [])
opts ns replication_offset = gauge_opts ns "replication_offset" "Redis master replication offset"
opts ns connected_slaves = gauge_opts ns "connected_slaves" "Number of connected Redis replicas"
opts ns command_duration_seconds =
    histogram_vec_opts ns "command_duration_seconds" "Application-level Redis command duration"
      (codes "cmd" ∷ []) default_query_buckets

-- The handles in the order of `new` and of `register`.
abbrev pub metrics : List RedisMetric
metrics =
    pool_connections ∷ connected_clients ∷ blocked_clients ∷ used_memory_bytes ∷ used_memory_rss
    ∷ mem_fragmentation_ratio ∷ keyspace_hits ∷ keyspace_misses ∷ evicted_keys
    ∷ total_commands_processed ∷ db_keys ∷ db_expires ∷ replication_offset ∷ connected_slaves
    ∷ command_duration_seconds ∷ []

-- The number of label names of a metric.
unfoldable pub arity : RedisMetric → ℕ
unfolding opts
arity m = length (opts [] m).labels
