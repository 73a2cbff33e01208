-- ===== src/Postgres/Collect/Order.antt =====
-- The order in which a query lists its rows: SQL leaves it open, and it does not matter.
use mathlib.Core.List.{Permᴰ}
use dr_metrix.Prelude.{◌≡◌, refl, sym, ap, ◌∙◌, List, [], ◌∷◌, nat_eq, list_eq}
use dr_metrix.Std.{Str, Floats}
use dr_metrix.Core.Error
use dr_metrix.Core.Exec.{ok}
use dr_metrix.Core.Metrics.{Client, IsLawful, Reading, Series}
use dr_metrix.Core.Metrics.Rows.{last_match}
use dr_metrix.Core.Metrics.Order.{AreDistinct, last_match-Permᴰ}
use dr_metrix.Postgres.Pool.{PoolStatus, Json}
use dr_metrix.Postgres.Fields.{
  PostgresMetric, postgres_metric_eq, arity, pool_active, pool_idle, pool_max,
  query_duration_seconds, rows_returned,
}
use dr_metrix.Postgres.Collect.{Poll, collect, sql_db_stats, sql_table_stats, sql_locks}
use dr_metrix.Postgres.Collect.Writes.{Rows, db_labels, table_labels, lock_labels}
use dr_metrix.Postgres.Collect.Readings.{collected_reading}
use dr_metrix.Postgres.Collect.Outcomes.{collect_answered}

-- The three queries are answered with these rows.
pub record Answers {E F : Type 0} (json : Json F) (poll : Poll E F json) (rows : Rows json.Map)
    : Type 0 where
  pub dbs : poll.query_json sql_db_stats ≡ Error.ok rows.dbs
  pub tables : poll.query_json sql_table_stats ≡ Error.ok rows.tables
  pub locks : poll.query_json sql_locks ≡ Error.ok rows.locks

-- The same rows in another order.
pub record IsReordered {Map : Type 0} (rows rows' : Rows Map) : Type 0 where
  pub dbs : Permᴰ rows.dbs rows'.dbs
  pub tables : Permᴰ rows.tables rows'.tables
  pub locks : Permᴰ rows.locks rows'.locks

-- No two rows of a query have the same labels.
pub record HasDistinctLabels {F : Type 0} (floats : Floats F) (json : Json F) (rows : Rows json.Map)
    : Type 0 where
  pub dbs : AreDistinct (db_labels floats json) rows.dbs
  pub tables : AreDistinct (table_labels floats json) rows.tables
  pub locks : AreDistinct (lock_labels floats json) rows.locks

module _ {F : Type 0} (floats : Floats F) (json : Json F) (status : PoolStatus)
    (rows rows' : Rows json.Map) (same : IsReordered rows rows')
    (distinct : HasDistinctLabels floats json rows) where
  collected_reading-reordered :
      (m : PostgresMetric) (ls : List Str) (old : Reading F)
      → collected_reading floats json status rows m ls old
        ≡ collected_reading floats json status rows' m ls old
  unfolding collected_reading
  collected_reading-reordered m ls old =
      let dbs = last_match-Permᴰ (db_labels floats json) ls same.dbs distinct.dbs in
      let tables = last_match-Permᴰ (table_labels floats json) ls same.tables distinct.tables in
      let locks = last_match-Permᴰ (lock_labels floats json) ls same.locks distinct.locks in
      by_metric m ls dbs tables locks
    where
      by_metric :
          (m : PostgresMetric) (ls : List Str)
          → last_match (db_labels floats json) ls rows.dbs
            ≡ last_match (db_labels floats json) ls rows'.dbs
          → last_match (table_labels floats json) ls rows.tables
            ≡ last_match (table_labels floats json) ls rows'.tables
          → last_match (lock_labels floats json) ls rows.locks
            ≡ last_match (lock_labels floats json) ls rows'.locks
          → collected_reading floats json status rows m ls old
            ≡ collected_reading floats json status rows' m ls old
      by_metric pool_active [] d t l = refl
      by_metric pool_active (_ ∷ _) d t l = refl
      by_metric pool_idle [] d t l = refl
      by_metric pool_idle (_ ∷ _) d t l = refl
      by_metric pool_max [] d t l = refl
      by_metric pool_max (_ ∷ _) d t l = refl
      by_metric query_duration_seconds ls d t l = refl
      by_metric rows_returned ls d t l = refl
      by_metric m ls d t l = simp (d, t, l)

module _ {F : Type 0} (E : Type 0) (floats : Floats F) (json : Json F) (c : Client PostgresMetric F)
    (lawful : IsLawful arity c) where
  -- If two polls answer the three queries with the same rows in different orders, no two of which have the same
  -- labels, and with the same status of the pool, both collections succeed, and every series shows the same.
  -- The client library is assumed to do what it documents.
  pub collect-reordered :
      (poll poll' : Poll E F json) (rows rows' : Rows json.Map)
      → poll.status ≡ poll'.status
      → Answers json poll rows
      → Answers json poll' rows'
      → IsReordered rows rows'
      → HasDistinctLabels floats json rows
      → (s : c.State) (k : Series PostgresMetric)
      → let done = collect floats json c poll s in
        let done' = collect floats json c poll' s in
        (done.0 ≡ ok tt) × (done'.0 ≡ ok tt) × (c.read done.1 k ≡ c.read done'.1 k)
  collect-reordered poll poll' rows rows' e h h' same distinct s k =
      let (runs, shows) =
        collect_answered E floats json c lawful poll s _ _ _ h.dbs h.tables h.locks in
      let (runs', shows') =
        collect_answered E floats json c lawful poll' s _ _ _ h'.dbs h'.tables h'.locks in
      (
        runs,
        runs',
        shows k.metric k.labels
            ∙ collected_reading-reordered floats json poll.status rows rows' same distinct k.metric
                k.labels _
            ∙ ap (λ st. collected_reading floats json st rows' k.metric k.labels (c.read s k)) e
            ∙ sym (shows' k.metric k.labels),
      )
