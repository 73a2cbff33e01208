-- ===== src/Postgres/Collect.antt =====
-- dr-metrix-postgres/src/metrics.rs: the collector.
pub mod Writes
pub mod Readings
pub mod Outcomes
pub mod Order
pub mod Adapters
pub mod Task
use Prim.Native.String.{String}
use dr_metrix.Prelude.{ℕ, ◌≡◌, List, [], ◌∷◌, ◌++◌, Option, none, some, ℤ, pos, unwrap_or}
use dr_metrix.Std.{Str, codes, Floats}
use dr_metrix.Core.Error
use dr_metrix.Core.Error.{Result}
use dr_metrix.Core.Exec.{Exec, ◌>>=◌, ◌>>◌, pure, lift, for_each}
use dr_metrix.Core.Metrics.{Client, set_gauge, set_labelled, observe_labelled}
use dr_metrix.Postgres.Pool.{PoolStatus, Json}
use dr_metrix.Postgres.Fields.{
  PostgresMetric, pool_active, pool_idle, pool_max, db_numbackends, db_xact_commit,
  db_xact_rollback, db_blks_hit, db_blks_read, db_size_bytes, table_seq_scan, table_idx_scan,
  table_live_tup, table_dead_tup, lock_count, query_duration_seconds, rows_returned,
}

-- `Option::and_then`
abbrev pub and_then : {A B : Type 0} → Option A → (A → Option B) → Option B
and_then none f = none
and_then (some a) f = f a

-- The queries, with the line ends of the source.
abbrev pub newline : Str
newline = b'\n' ∷ []

unfoldable pub sql_db_stats : Str
sql_db_stats =
    newline
    ++ (codes "SELECT datname, numbackends, xact_commit, xact_rollback,"
        ++ (newline
            ++ (codes "       blks_hit, blks_read, pg_database_size(datname) AS size_bytes"
                ++ (newline ++ codes "FROM pg_stat_database WHERE datname IS NOT NULL"))))

unfoldable pub sql_table_stats : Str
sql_table_stats =
    newline
    ++ (codes "SELECT schemaname, relname, seq_scan, idx_scan, n_live_tup, n_dead_tup"
        ++ (newline ++ codes "FROM pg_stat_user_tables"))

unfoldable pub sql_locks : Str
sql_locks =
    newline ++ codes "SELECT mode, COUNT(*) AS cnt FROM pg_locks WHERE granted = true GROUP BY mode"

module _ {F : Type 0} (floats : Floats F) (json : Json F) where
  -- `v.as_i64().or_else(|| v.as_f64().map(|f| f as i64))`
  abbrev pub integer_of : Option ℤ → Option F → Option ℤ
  integer_of (some n) f = some n
  integer_of none (some f) = some (floats.as_i64 f)
  integer_of none none = none

  unfoldable pub get_i64 : json.Map → String → ℤ
  get_i64 row key =
      unwrap_or
        (and_then (json.get row (codes key)) (λ v. integer_of (json.as_i64 v) (json.as_f64 v)))
        (pos 0)

  unfoldable pub get_str : json.Map → String → Str
  get_str row key = unwrap_or (and_then (json.get row (codes key)) (λ v. json.as_str v)) []

-- What the pool answers during one `collect`: its status, and each query that is sent.
pub record Poll (E F : Type 0) (json : Json F) : Type 0 where
  pub status : PoolStatus
  pub query_json : Str → Result E (List json.Map)

module _ {F : Type 0} (floats : Floats F) (json : Json F) (c : Client PostgresMetric F) where
  -- The bodies of the three loops.
  unfoldable pub set_db : {E : Type 0} → json.Map → Exec c.State E (Unit {0})
  set_db row = do
    let db = get_str floats json row "datname"
    set_labelled c db_numbackends (db ∷ []) (get_i64 floats json row "numbackends")
    set_labelled c db_xact_commit (db ∷ []) (get_i64 floats json row "xact_commit")
    set_labelled c db_xact_rollback (db ∷ []) (get_i64 floats json row "xact_rollback")
    set_labelled c db_blks_hit (db ∷ []) (get_i64 floats json row "blks_hit")
    set_labelled c db_blks_read (db ∷ []) (get_i64 floats json row "blks_read")
    set_labelled c db_size_bytes (db ∷ []) (get_i64 floats json row "size_bytes")

  unfoldable pub set_table : {E : Type 0} → json.Map → Exec c.State E (Unit {0})
  set_table row = do
    let schema = get_str floats json row "schemaname"
    let table = get_str floats json row "relname"
    set_labelled c table_seq_scan (schema ∷ table ∷ []) (get_i64 floats json row "seq_scan")
    set_labelled c table_idx_scan (schema ∷ table ∷ []) (get_i64 floats json row "idx_scan")
    set_labelled c table_live_tup (schema ∷ table ∷ []) (get_i64 floats json row "n_live_tup")
    set_labelled c table_dead_tup (schema ∷ table ∷ []) (get_i64 floats json row "n_dead_tup")

  unfoldable pub set_lock : {E : Type 0} → json.Map → Exec c.State E (Unit {0})
  set_lock row = do
    let mode = get_str floats json row "mode"
    set_labelled c lock_count (mode ∷ []) (get_i64 floats json row "cnt")

  unfoldable pub set_pool : {E : Type 0} → PoolStatus → Exec c.State E (Unit {0})
  set_pool status = do
    set_gauge c pool_active (pos status.in_use)
    set_gauge c pool_idle (pos status.available)
    set_gauge c pool_max (pos status.max_size)

  unfoldable pub collect : {E : Type 0} → Poll E F json → Exec c.State E (Unit {0})
  collect poll = do
    set_pool poll.status
    db_rows ← lift (poll.query_json sql_db_stats)
    for_each set_db db_rows
    table_rows ← lift (poll.query_json sql_table_stats)
    for_each set_table table_rows
    lock_rows ← lift (poll.query_json sql_locks)
    for_each set_lock lock_rows

module _ {F : Type 0} (c : Client PostgresMetric F) where
  unfoldable pub observe_query : {E : Type 0} → Str → F → F → Exec c.State E (Unit {0})
  observe_query name duration_secs row_count = do
    observe_labelled c query_duration_seconds (name ∷ []) duration_secs
    observe_labelled c rows_returned (name ∷ []) row_count
