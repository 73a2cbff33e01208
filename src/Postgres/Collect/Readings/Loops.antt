-- ===== src/Postgres/Collect/Readings/Loops.antt =====
-- What each of the three loops makes of a reading: the column that it sets the metric from, if it does.
use Prim.Native.String.{String}
use dr_metrix.Prelude.{
  ◌≡◌, Bool, Option, none, some, List, if◌then◌else◌, nat_eq, list_eq, list_beq,
}
use dr_metrix.Std.{Str, Floats}
use dr_metrix.Core.Metrics.{Client, IsLawful, Reading, int, series_eq}
use dr_metrix.Core.Metrics.Rows.{
  last_match, row_reading, change_all, read-change_all, read-change_all_other,
}
use dr_metrix.Postgres.Pool.{Json}
use dr_metrix.Postgres.Fields.{
  PostgresMetric, postgres_metric_eq, arity, db_numbackends, db_xact_commit, db_xact_rollback,
  db_blks_hit, db_blks_read, db_size_bytes, table_seq_scan, table_idx_scan, table_live_tup,
  table_dead_tup, lock_count,
}
use dr_metrix.Postgres.Collect.Writes.{
  column, db_labels, table_labels, lock_labels, db_state, table_state, lock_state,
}

abbrev pub db_column : PostgresMetric → Option String
db_column db_numbackends = some "numbackends"
db_column db_xact_commit = some "xact_commit"
db_column db_xact_rollback = some "xact_rollback"
db_column db_blks_hit = some "blks_hit"
db_column db_blks_read = some "blks_read"
db_column db_size_bytes = some "size_bytes"
db_column m = none

abbrev pub table_column : PostgresMetric → Option String
table_column table_seq_scan = some "seq_scan"
table_column table_idx_scan = some "idx_scan"
table_column table_live_tup = some "n_live_tup"
table_column table_dead_tup = some "n_dead_tup"
table_column m = none

abbrev pub lock_column : PostgresMetric → Option String
lock_column lock_count = some "cnt"
lock_column m = none

module _ {F : Type 0} (floats : Floats F) (json : Json F) where
  -- One row, whose labels are those of the series or not.
  abbrev row_cell : Option String → Bool → json.Map → Reading F → Reading F
  row_cell none mine row old = old
  row_cell (some key) mine row old = if mine then int (column floats json key row) else old

  -- All rows.
  abbrev pub loop_reading :
      Option String → (json.Map → List Str) → List json.Map → List Str → Reading F → Reading F
  loop_reading none label rows ls old = old
  loop_reading (some key) label rows ls old =
      row_reading (column floats json key) (last_match label ls rows) old

module _ {F : Type 0} (floats : Floats F) (json : Json F) (c : Client PostgresMetric F)
    (label : json.Map → List Str) (change : json.Map → c.State → c.State) (m : PostgresMetric) where
  read-loop :
      (key : Option String)
      → ((row : json.Map) (ls : List Str) (s : c.State)
          → c.read (change row s) (record { metric = m; labels = ls })
            ≡ row_cell floats json key
                (list_beq (label row) ls)
                row
                (c.read s (record { metric = m; labels = ls })))
      → (rows : List json.Map) (ls : List Str) (s : c.State)
      → c.read (change_all change rows s) (record { metric = m; labels = ls })
        ≡ loop_reading floats json key label rows ls (c.read s (record { metric = m; labels = ls }))
  read-loop none h = read-change_all_other c label change m h
  read-loop (some key) h = read-change_all c label change m (column floats json key) h

module _ {F : Type 0} (floats : Floats F) (json : Json F) (c : Client PostgresMetric F)
    (lawful : IsLawful arity c) where
  read-db_state :
      (m : PostgresMetric) (row : json.Map) (ls : List Str) (s : c.State)
      → c.read (db_state floats json c row s) (record { metric = m; labels = ls })
        ≡ row_cell floats json
            (db_column m)
            (list_beq (db_labels floats json row) ls)
            row
            (c.read s (record { metric = m; labels = ls }))
  read-db_state db_numbackends row ls s = simp lawful.read-set
  read-db_state m row ls s = simp lawful.read-set

  read-table_state :
      (m : PostgresMetric) (row : json.Map) (ls : List Str) (s : c.State)
      → c.read (table_state floats json c row s) (record { metric = m; labels = ls })
        ≡ row_cell floats json
            (table_column m)
            (list_beq (table_labels floats json row) ls)
            row
            (c.read s (record { metric = m; labels = ls }))
  read-table_state table_seq_scan row ls s = simp lawful.read-set
  read-table_state m row ls s = simp lawful.read-set

  read-lock_state :
      (m : PostgresMetric) (row : json.Map) (ls : List Str) (s : c.State)
      → c.read (lock_state floats json c row s) (record { metric = m; labels = ls })
        ≡ row_cell floats json
            (lock_column m)
            (list_beq (lock_labels floats json row) ls)
            row
            (c.read s (record { metric = m; labels = ls }))
  read-lock_state lock_count row ls s = simp lawful.read-set
  read-lock_state m row ls s = simp lawful.read-set

  module _ (m : PostgresMetric) where
    pub read-dbs :
        (rows : List json.Map) (ls : List Str) (s : c.State)
        → c.read (change_all (db_state floats json c) rows s) (record { metric = m; labels = ls })
          ≡ loop_reading floats json
              (db_column m)
              (db_labels floats json)
              rows
              ls
              (c.read s (record { metric = m; labels = ls }))
    read-dbs =
        read-loop floats json c (db_labels floats json) (db_state floats json c) m (db_column m)
          (read-db_state m)

    pub read-tables :
        (rows : List json.Map) (ls : List Str) (s : c.State)
        → c.read
            (change_all (table_state floats json c) rows s)
            (record { metric = m; labels = ls })
          ≡ loop_reading floats json
              (table_column m)
              (table_labels floats json)
              rows
              ls
              (c.read s (record { metric = m; labels = ls }))
    read-tables =
        read-loop floats json c (table_labels floats json) (table_state floats json c) m
          (table_column m) (read-table_state m)

    pub read-locks :
        (rows : List json.Map) (ls : List Str) (s : c.State)
        → c.read (change_all (lock_state floats json c) rows s) (record { metric = m; labels = ls })
          ≡ loop_reading floats json
              (lock_column m)
              (lock_labels floats json)
              rows
              ls
              (c.read s (record { metric = m; labels = ls }))
    read-locks =
        read-loop floats json c (lock_labels floats json) (lock_state floats json c) m
          (lock_column m) (read-lock_state m)
