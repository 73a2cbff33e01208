-- ===== src/Postgres/Collect/Writes.antt =====
-- What the loops of a collection write, as changes of the state.
use Prim.Native.String.{String}
use dr_metrix.Prelude.{◌≡◌, refl, List, [], ◌∷◌, ℤ, pos, nat_eq, list_eq}
use dr_metrix.Std.{Str, Floats}
use dr_metrix.Core.Exec.{ok}
use dr_metrix.Core.Metrics.{Client, IsLawful, int, series_eq}
use dr_metrix.Core.Metrics.Rows.{change_all}
use dr_metrix.Postgres.Pool.{PoolStatus, Json}
use dr_metrix.Postgres.Fields.{
  PostgresMetric, postgres_metric_eq, arity, pool_active, pool_idle, pool_max, db_numbackends,
  db_xact_commit, db_xact_rollback, db_blks_hit, db_blks_read, db_size_bytes, table_seq_scan,
  table_idx_scan, table_live_tup, table_dead_tup, lock_count,
}
use dr_metrix.Postgres.Collect.{get_i64, get_str, set_db, set_table, set_lock}

module _ {F : Type 0} (floats : Floats F) (json : Json F) where
  -- The label values that a row of each query gives.
  abbrev pub db_labels : json.Map → List Str
  db_labels row = get_str floats json row "datname" ∷ []

  abbrev pub table_labels : json.Map → List Str
  table_labels row = get_str floats json row "schemaname" ∷ get_str floats json row "relname" ∷ []

  abbrev pub lock_labels : json.Map → List Str
  lock_labels row = get_str floats json row "mode" ∷ []

  abbrev pub column : String → json.Map → ℤ
  column key row = get_i64 floats json row key

-- The rows that the three queries answered, as far as the collection came.
pub record Rows (Row : Type 0) : Type 0 where
  pub dbs : List Row
  pub tables : List Row
  pub locks : List Row

module _ {F : Type 0} (floats : Floats F) (json : Json F) (c : Client PostgresMetric F) where
  abbrev pub set_at : PostgresMetric → List Str → ℤ → c.State → c.State
  set_at m ls v = c.set (record { metric = m; labels = ls }) (int v)

  -- Sets the gauge of a column.
  abbrev pub set_cell : List Str → json.Map → PostgresMetric → String → c.State → c.State
  set_cell ls row m key = set_at m ls (column floats json key row)

  abbrev pub pool_state : PoolStatus → c.State → c.State
  pool_state status s =
      set_at pool_max [] (pos status.max_size)
        (set_at pool_idle [] (pos status.available) (set_at pool_active [] (pos status.in_use) s))

  abbrev pub db_state : json.Map → c.State → c.State
  db_state row s =
      let at = set_cell (db_labels floats json row) row in
      at db_size_bytes "size_bytes" (
        at db_blks_read "blks_read" (
          at db_blks_hit "blks_hit" (
            at db_xact_rollback "xact_rollback"
              (at db_xact_commit "xact_commit" (at db_numbackends "numbackends" s)))))

  abbrev pub table_state : json.Map → c.State → c.State
  table_state row s =
      let at = set_cell (table_labels floats json row) row in
      at table_dead_tup "n_dead_tup" (
        at table_live_tup "n_live_tup"
          (at table_idx_scan "idx_scan" (at table_seq_scan "seq_scan" s)))

  abbrev pub lock_state : json.Map → c.State → c.State
  lock_state row = set_at lock_count (lock_labels floats json row) (column floats json "cnt" row)

  abbrev pub rows_state : PoolStatus → Rows json.Map → c.State → c.State
  rows_state status rows s =
      change_all lock_state rows.locks
        (change_all table_state rows.tables (change_all db_state rows.dbs (pool_state status s)))

module _ {F E : Type 0} (floats : Floats F) (json : Json F) (c : Client PostgresMetric F)
    (lawful : IsLawful arity c) where
  pub set_db_runs :
      (row : json.Map) (s : c.State)
      → set_db floats json c {E = E} row s ≡ (ok tt, db_state floats json c row s)
  unfolding set_db arity
  set_db_runs row s =
      let ls = db_labels floats json row in
      rw (
        lawful.accepts_arity db_numbackends ls refl,
        lawful.accepts_arity db_xact_commit ls refl,
        lawful.accepts_arity db_xact_rollback ls refl,
        lawful.accepts_arity db_blks_hit ls refl,
        lawful.accepts_arity db_blks_read ls refl,
        lawful.accepts_arity db_size_bytes ls refl,
      )

  pub set_table_runs :
      (row : json.Map) (s : c.State)
      → set_table floats json c {E = E} row s ≡ (ok tt, table_state floats json c row s)
  unfolding set_table arity
  set_table_runs row s =
      let ls = table_labels floats json row in
      rw (
        lawful.accepts_arity table_seq_scan ls refl,
        lawful.accepts_arity table_idx_scan ls refl,
        lawful.accepts_arity table_live_tup ls refl,
        lawful.accepts_arity table_dead_tup ls refl,
      )

  pub set_lock_runs :
      (row : json.Map) (s : c.State)
      → set_lock floats json c {E = E} row s ≡ (ok tt, lock_state floats json c row s)
  unfolding set_lock arity
  set_lock_runs row s = rw (lawful.accepts_arity lock_count (lock_labels floats json row) refl)
