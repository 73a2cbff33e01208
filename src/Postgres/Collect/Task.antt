-- ===== src/Postgres/Collect/Task.antt =====
-- The background task of the Postgres collector.
use dr_metrix.Prelude.{ℕ, ◌≡◌, ◌≢◌, refl, Bool, true, List, [], nat_eq, list_eq}
use dr_metrix.Std.{Floats}
use dr_metrix.Core.Error
use dr_metrix.Core.Error.{Result, MetricsError}
use dr_metrix.Core.Exec.{panicked, ok_ne_panicked, err_ne_panicked}
use dr_metrix.Core.Metrics.{Client, IsLawful, Reading, Series}
use dr_metrix.Core.Collector.Loop.{
  waiting, collect_loop, collect_loop_survives, replayed, read-collected,
}
use dr_metrix.Postgres.Pool.{Json}
use dr_metrix.Postgres.Fields.{PostgresMetric, postgres_metric_eq, arity}
use dr_metrix.Postgres.Collect.{Poll, collect, sql_db_stats, sql_table_stats, sql_locks}
use dr_metrix.Postgres.Collect.Writes.{Rows}
use dr_metrix.Postgres.Collect.Readings.{collected_reading}
use dr_metrix.Postgres.Collect.Outcomes.{
  Shows, StopsAt, at_dbs, at_tables, at_locks, collect_answered, collect_stops,
}

-- The rows up to the first query that fails.
abbrev rows_until :
    {E Row : Type 0} → Result E (List Row) → Result E (List Row) → Result E (List Row) → Rows Row
rows_until (Error.err e) tables locks = record { dbs = []; tables = []; locks = [] }
rows_until (Error.ok dbs) (Error.err e) locks = record { dbs = dbs; tables = []; locks = [] }
rows_until (Error.ok dbs) (Error.ok tables) (Error.err e) = record {
  dbs = dbs;
  tables = tables;
  locks = [];
}
rows_until (Error.ok dbs) (Error.ok tables) (Error.ok locks) = record {
  dbs = dbs;
  tables = tables;
  locks = locks;
}

module _ {F E : Type 0} (floats : Floats F) (json : Json F) where
  abbrev answered_rows : Poll E F json → Rows json.Map
  answered_rows poll =
      rows_until (poll.query_json sql_db_stats) (poll.query_json sql_table_stats)
        (poll.query_json sql_locks)

  -- What one round makes of a reading.
  abbrev pub round_reading : Poll E F json → Series PostgresMetric → Reading F → Reading F
  round_reading poll k old =
      collected_reading floats json poll.status (answered_rows poll) k.metric k.labels old

module _ {F : Type 0} (E : Type 0) (floats : Floats F) (json : Json F) (c : Client PostgresMetric F)
    (lawful : IsLawful arity c) where
  -- Whichever queries are answered, a collection does not panic, and shows the rows up to the first that fails.
  collect_round :
      (poll : Poll E F json) (s : c.State)
      → let done = collect floats json c poll s in
        (done.0 ≢ panicked) × Shows floats json c poll (answered_rows floats json poll) s done.1
  collect_round poll s =
      by_results (poll.query_json sql_db_stats) (poll.query_json sql_table_stats)
        (poll.query_json sql_locks) refl refl refl
    where
      stops :
          {rows : Rows json.Map} {e : MetricsError E}
          → StopsAt json poll rows e
          → ((collect floats json c poll s).0 ≢ panicked)
            × Shows floats json c poll rows s (collect floats json c poll s).1
      stops at =
          let (fails, shows) = collect_stops E floats json c lawful poll s at in
          (err_ne_panicked fails, shows)

      by_results :
          (a b d : Result E (List json.Map))
          → poll.query_json sql_db_stats ≡ a
          → poll.query_json sql_table_stats ≡ b
          → poll.query_json sql_locks ≡ d
          → ((collect floats json c poll s).0 ≢ panicked)
            × Shows floats json c poll (rows_until a b d) s (collect floats json c poll s).1
      by_results (Error.err e) b d p q r = stops (at_dbs p)
      by_results (Error.ok dbs) (Error.err e) d p q r = stops (at_tables p q)
      by_results (Error.ok dbs) (Error.ok tables) (Error.err e) p q r = stops (at_locks p q r)
      by_results (Error.ok dbs) (Error.ok tables) (Error.ok locks) p q r =
          let (runs, shows) =
            collect_answered E floats json c lawful poll s dbs tables locks p q r in
          (ok_ne_panicked runs, shows)

  -- The task of the Postgres collector never ends, whichever queries fail, if the period is accepted: after
  -- any number of ticks every series shows what the polls say of it, one after the other, each up to its
  -- first query that fails.
  -- The client library is assumed to do what it documents.
  pub polls_replayed :
      (accepts_period : ℕ → Bool) (interval : ℕ) (polls : List (Poll E F json)) (s : c.State)
      → accepts_period interval ≡ true
      → let done = collect_loop (collect floats json c {E = E}) accepts_period interval polls s in
        (done.0 ≡ waiting)
        × ((k : Series PostgresMetric)
            → c.read done.1 k ≡ replayed (round_reading floats json) polls k (c.read s k))
  polls_replayed accepts_period interval polls s e =
      rw
        (collect_loop_survives (collect floats json c {E = E}) accepts_period interval e
          (λ poll t. (collect_round poll t).0) polls s)
        (
          refl,
          read-collected (collect floats json c {E = E}) c.read (round_reading floats json)
              (λ poll t k. (collect_round poll t).1 k.metric k.labels) polls s,
        )
