-- ===== src/Postgres/Collect/Readings.antt =====
-- What the writes of a collection leave in every series.
mod Loops
use Prim.Native.String.{String}
use dr_metrix.Prelude.{
  ◌≡◌, refl, ap, ◌∙◌, List, [], ◌∷◌, pos, if◌then◌else◌, nat_eq, list_eq, list_beq,
}
use dr_metrix.Std.{Str, Floats}
use dr_metrix.Core.Metrics.{Client, IsLawful, Reading, int, Series, series_eq}
use dr_metrix.Core.Metrics.Rows.{last_match, row_reading, read-change_all, read-change_all_other}
use dr_metrix.Postgres.Pool.{PoolStatus, Json}
use dr_metrix.Postgres.Fields.{
  PostgresMetric, postgres_metric_eq, arity, pool_active, pool_idle, pool_max, db_numbackends,
  db_xact_commit, db_xact_rollback, db_blks_hit, db_blks_read, db_size_bytes, table_seq_scan,
  table_idx_scan, table_live_tup, table_dead_tup, lock_count,
}
use dr_metrix.Postgres.Collect.Writes.{
  column, db_labels, table_labels, lock_labels, Rows, pool_state, db_state, table_state, lock_state,
  rows_state,
}
use Loops.{db_column, table_column, lock_column, loop_reading, read-dbs, read-tables, read-locks}

module _ {F : Type 0} (floats : Floats F) (json : Json F) (status : PoolStatus)
    (rows : Rows json.Map) where
  abbrev db_reading : String → List Str → Reading F → Reading F
  db_reading key ls =
      row_reading (column floats json key) (last_match (db_labels floats json) ls rows.dbs)

  abbrev table_reading : String → List Str → Reading F → Reading F
  table_reading key ls =
      row_reading (column floats json key) (last_match (table_labels floats json) ls rows.tables)

  -- A gauge of the pool holds its figure; a series of a query holds what the last row with its labels
  -- says in the column of the metric; any other series is as it was.
  unfoldable pub collected_reading : PostgresMetric → List Str → Reading F → Reading F
  collected_reading pool_active [] old = int (pos status.in_use)
  collected_reading pool_idle [] old = int (pos status.available)
  collected_reading pool_max [] old = int (pos status.max_size)
  collected_reading db_numbackends ls old = db_reading "numbackends" ls old
  collected_reading db_xact_commit ls old = db_reading "xact_commit" ls old
  collected_reading db_xact_rollback ls old = db_reading "xact_rollback" ls old
  collected_reading db_blks_hit ls old = db_reading "blks_hit" ls old
  collected_reading db_blks_read ls old = db_reading "blks_read" ls old
  collected_reading db_size_bytes ls old = db_reading "size_bytes" ls old
  collected_reading table_seq_scan ls old = table_reading "seq_scan" ls old
  collected_reading table_idx_scan ls old = table_reading "idx_scan" ls old
  collected_reading table_live_tup ls old = table_reading "n_live_tup" ls old
  collected_reading table_dead_tup ls old = table_reading "n_dead_tup" ls old
  collected_reading lock_count ls old =
      row_reading (column floats json "cnt") (last_match (lock_labels floats json) ls rows.locks)
        old
  collected_reading m ls old = old

module _ {F : Type 0} (floats : Floats F) (json : Json F) (c : Client PostgresMetric F)
    (lawful : IsLawful arity c) where
  read-pool_state :
      (status : PoolStatus) (m : PostgresMetric) (ls : List Str) (s : c.State)
      → c.read (pool_state floats json c status s) (record { metric = m; labels = ls })
        ≡ collected_reading floats json status
            (record { dbs = []; tables = []; locks = [] })
            m
            ls
            (c.read s (record { metric = m; labels = ls }))
  unfolding collected_reading row_reading last_match list_beq
  read-pool_state status pool_active [] s = simp lawful.read-set
  read-pool_state status pool_idle [] s = simp lawful.read-set
  read-pool_state status pool_max [] s = simp lawful.read-set
  read-pool_state status m (l ∷ ls) s = simp lawful.read-set
  read-pool_state status m ls s = simp lawful.read-set

module _ {F : Type 0} (floats : Floats F) (json : Json F) (status : PoolStatus)
    (rows : Rows json.Map) where
  -- The three loops, one after the other.
  abbrev loops_reading : PostgresMetric → List Str → Reading F → Reading F
  loops_reading m ls old =
      loop_reading floats json (lock_column m) (lock_labels floats json) rows.locks ls (
        loop_reading floats json (table_column m) (table_labels floats json) rows.tables ls
          (loop_reading floats json (db_column m) (db_labels floats json) rows.dbs ls old))

  loops_reading-collected :
      (m : PostgresMetric) (ls : List Str) (old : Reading F)
      → loops_reading m ls (
          collected_reading floats json status
            (record { dbs = []; tables = []; locks = [] })
            m
            ls
            old)
        ≡ collected_reading floats json status rows m ls old
  unfolding collected_reading row_reading last_match
  loops_reading-collected pool_active [] old = refl
  loops_reading-collected pool_idle [] old = refl
  loops_reading-collected pool_max [] old = refl
  loops_reading-collected m (l ∷ ls) old = refl
  loops_reading-collected m ls old = refl

module _ {F : Type 0} (floats : Floats F) (json : Json F) (c : Client PostgresMetric F)
    (lawful : IsLawful arity c) where
  pub read-rows_state :
      (status : PoolStatus) (rows : Rows json.Map) (m : PostgresMetric) (ls : List Str)
      (s : c.State)
      → c.read (rows_state floats json c status rows s) (record { metric = m; labels = ls })
        ≡ collected_reading floats json status rows m ls
            (c.read s (record { metric = m; labels = ls }))
  read-rows_state status rows m ls s =
      read-locks floats json c lawful m rows.locks ls _
      ∙ ap (loop_reading floats json (lock_column m) (lock_labels floats json) rows.locks ls) (
          read-tables floats json c lawful m rows.tables ls _
          ∙ ap (loop_reading floats json (table_column m) (table_labels floats json) rows.tables ls)
              (read-dbs floats json c lawful m rows.dbs ls _
                ∙ ap (loop_reading floats json (db_column m) (db_labels floats json) rows.dbs ls)
                    (read-pool_state floats json c lawful status m ls s)))
      ∙ loops_reading-collected floats json status rows m ls _
