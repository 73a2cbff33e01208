-- ===== src/Postgres/Collect/Outcomes.antt =====
-- What a collection shows, whether it runs through or ends at a query that fails.
use dr_metrix.Prelude.{◌≡◌, refl, List, [], nat_eq, list_eq}
use dr_metrix.Std.{Str, Floats}
use dr_metrix.Core.Error
use dr_metrix.Core.Error.{Result, MetricsError}
use dr_metrix.Core.Exec.{ok, err, for_each}
use dr_metrix.Core.Metrics.{Client, IsLawful, series_eq}
use dr_metrix.Core.Metrics.Rows.{change_all, rows_run}
use dr_metrix.Postgres.Pool.{Json}
use dr_metrix.Postgres.Fields.{PostgresMetric, postgres_metric_eq, arity}
use dr_metrix.Postgres.Collect.{
  Poll, set_db, set_table, set_lock, set_pool, collect, sql_db_stats, sql_table_stats, sql_locks,
}
use dr_metrix.Postgres.Collect.Writes.{
  Rows, db_state, table_state, lock_state, set_db_runs, set_table_runs, set_lock_runs,
}
use dr_metrix.Postgres.Collect.Readings.{collected_reading, read-rows_state}

module _ {F E : Type 0} (floats : Floats F) (json : Json F) (c : Client PostgresMetric F) where
  -- What a collection shows at the end, if it came as far as these rows.
  abbrev pub Shows : Poll E F json → Rows json.Map → c.State → c.State → Type 0
  Shows poll rows s after =
      (m : PostgresMetric) (ls : List Str)
      → c.read after (record { metric = m; labels = ls })
        ≡ collected_reading floats json poll.status rows m ls
            (c.read s (record { metric = m; labels = ls }))

-- The query at which a collection ends, the rows that it had read by then, and the error.
module _ {F E : Type 0} (json : Json F) (poll : Poll E F json) where
  pub data StopsAt : Rows json.Map → MetricsError E → Type 0 where
    at_dbs :
        {e : MetricsError E}
        → poll.query_json sql_db_stats ≡ Error.err e
        → StopsAt (record { dbs = []; tables = []; locks = [] }) e
    at_tables :
        {e : MetricsError E} {dbs : List json.Map}
        → poll.query_json sql_db_stats ≡ Error.ok dbs
        → poll.query_json sql_table_stats ≡ Error.err e
        → StopsAt (record { dbs = dbs; tables = []; locks = [] }) e
    at_locks :
        {e : MetricsError E} {dbs tables : List json.Map}
        → poll.query_json sql_db_stats ≡ Error.ok dbs
        → poll.query_json sql_table_stats ≡ Error.ok tables
        → poll.query_json sql_locks ≡ Error.err e
        → StopsAt (record { dbs = dbs; tables = tables; locks = [] }) e

module _ {F : Type 0} (E : Type 0) (floats : Floats F) (json : Json F) (c : Client PostgresMetric F)
    (lawful : IsLawful arity c) where
  dbs_run :
      (rows : List json.Map) (s : c.State)
      → for_each (set_db floats json c {E = E}) rows s
        ≡ (ok tt, change_all (db_state floats json c) rows s)
  dbs_run =
      rows_run (set_db floats json c) (db_state floats json c) (set_db_runs floats json c lawful)

  tables_run :
      (rows : List json.Map) (s : c.State)
      → for_each (set_table floats json c {E = E}) rows s
        ≡ (ok tt, change_all (table_state floats json c) rows s)
  tables_run =
      rows_run (set_table floats json c) (table_state floats json c)
        (set_table_runs floats json c lawful)

  locks_run :
      (rows : List json.Map) (s : c.State)
      → for_each (set_lock floats json c {E = E}) rows s
        ≡ (ok tt, change_all (lock_state floats json c) rows s)
  locks_run =
      rows_run (set_lock floats json c) (lock_state floats json c)
        (set_lock_runs floats json c lawful)

  module _ (poll : Poll E F json) (s : c.State) where
    -- When the three queries are answered, the collection succeeds, the gauges of the pool hold its
    -- figures, and a series of a query holds what the last row with its labels says, or its old value
    -- where there is no such row. Every other series is as it was.
    -- The client library is assumed to do what it documents.
    pub collect_answered :
        (dbs tables locks : List json.Map)
        → poll.query_json sql_db_stats ≡ Error.ok dbs
        → poll.query_json sql_table_stats ≡ Error.ok tables
        → poll.query_json sql_locks ≡ Error.ok locks
        → let done = collect floats json c poll s in
          (done.0 ≡ ok tt)
          × Shows floats json c poll (record { dbs = dbs; tables = tables; locks = locks }) s done.1
    unfolding collect set_pool
    collect_answered dbs tables locks p q r =
        rw (p, dbs_run dbs _, q, tables_run tables _, r, locks_run locks _)
          (refl, λ m ls. read-rows_state floats json c lawful poll.status _ m ls s)

    -- When a query fails, the collection fails with its error, and shows what it had read before: of
    -- the later queries nothing has changed.
    -- The client library is assumed to do what it documents.
    pub collect_stops :
        {rows : Rows json.Map} {e : MetricsError E}
        → StopsAt json poll rows e
        → let done = collect floats json c poll s in
          (done.0 ≡ err e) × Shows floats json c poll rows s done.1
    unfolding collect set_pool change_all
    collect_stops (at_dbs p) =
        rw p (refl, λ m ls. read-rows_state floats json c lawful poll.status _ m ls s)
    collect_stops (at_tables {dbs} p q) =
        rw (p, dbs_run dbs _, q)
          (refl, λ m ls. read-rows_state floats json c lawful poll.status _ m ls s)
    collect_stops (at_locks {dbs} {tables} p q r) =
        rw (p, dbs_run dbs _, q, tables_run tables _, r)
          (refl, λ m ls. read-rows_state floats json c lawful poll.status _ m ls s)
