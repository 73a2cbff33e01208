-- ===== src/Tests/Postgres.antt =====
-- Tests of the Postgres collector.
use mathlib.Core.List.{Permᴰ}
use dr_metrix.Prelude.{◌≡◌, ◌≢◌, refl, Bool, true, List, [], ◌∷◌, pos, if◌then◌else◌}
use dr_metrix.Std.{codes, str_eq}
use dr_metrix.Core.Error
use dr_metrix.Core.Error.{Result, MetricsError, database}
use dr_metrix.Core.Exec.{ok, err}
use dr_metrix.Core.Metrics.{Client, Series, int, memory_client, memory_client-IsLawful}
use dr_metrix.Postgres.Fields.{PostgresMetric, postgres_metric_eq, arity, db_numbackends}
use dr_metrix.Postgres.Collect.{Poll, sql_db_stats, sql_table_stats, sql_locks, collect}
use dr_metrix.Postgres.Collect.Outcomes.{Shows, at_tables, collect_answered, collect_stops}
use dr_metrix.Postgres.Collect.{get_str}
use dr_metrix.Postgres.Collect.Writes.{Rows}
use dr_metrix.Postgres.Collect.Order.{Answers, IsReordered, HasDistinctLabels, collect-reordered}
use dr_metrix.Postgres.Collect.Task.{round_reading, polls_replayed}
use dr_metrix.Core.Collector.Loop.{waiting, collect_loop, replayed}
use dr_metrix.Tests.Fixtures.{number, text, floats, json}

abbrev client : Client PostgresMetric Bool
client = memory_client arity

abbrev nothing : client.State
nothing s = int (pos 0)

abbrev databases : List json.Map
databases =
    ((codes "datname", text (codes "app")) ∷ (codes "numbackends", number (pos 4)) ∷ []) ∷ []

-- The server answers the queries for the databases and the locks, and the tables unless they fail.
abbrev answered : Poll (Unit {0}) Bool json
answered = record {
  status = record { max_size = 10; available = 3; in_use = 5 };
  query_json = λ sql. Error.ok databases;
}

abbrev broken : Poll (Unit {0}) Bool json
broken = record {
  status = record { max_size = 10; available = 3; in_use = 5 };
  query_json = λ sql.
      if str_eq sql sql_db_stats then Error.ok databases else Error.err (database (codes "gone"));
}

broken_tables : broken.query_json sql_table_stats ≡ Error.err (database (codes "gone"))
unfolding sql_db_stats sql_table_stats str_eq
broken_tables = refl

collect_answered_example :
    let done = collect floats json client answered nothing in
    (done.0 ≡ ok tt)
    × Shows floats json client answered
        (record { dbs = databases; tables = databases; locks = databases })
        nothing
        done.1
collect_answered_example =
    collect_answered Unit floats json client (memory_client-IsLawful arity) answered nothing
      databases databases databases refl refl refl

collect_stops_example :
    let done = collect floats json client broken nothing in
    (done.0 ≡ err (database (codes "gone")))
    × Shows floats json client broken
        (record { dbs = databases; tables = []; locks = [] })
        nothing
        done.1
unfolding str_eq sql_db_stats
collect_stops_example =
    collect_stops Unit floats json client (memory_client-IsLawful arity) broken nothing
      (at_tables refl broken_tables)

abbrev app : json.Map
app = (codes "datname", text (codes "app")) ∷ (codes "numbackends", number (pos 4)) ∷ []

abbrev other : json.Map
other = (codes "datname", text (codes "other")) ∷ (codes "numbackends", number (pos 1)) ∷ []

abbrev listed : Rows json.Map
listed = record { dbs = app ∷ other ∷ []; tables = []; locks = [] }

abbrev relisted : Rows json.Map
relisted = record { dbs = other ∷ app ∷ []; tables = []; locks = [] }

abbrev answering : Rows json.Map → Poll (Unit {0}) Bool json
answering rows = record {
  status = record { max_size = 10; available = 3; in_use = 5 };
  query_json = λ sql. Error.ok (if str_eq sql sql_db_stats then rows.dbs else []);
}

listed-Answers : Answers json (answering listed) listed
unfolding str_eq sql_db_stats sql_table_stats sql_locks
listed-Answers = record { dbs = refl; tables = refl; locks = refl }

relisted-Answers : Answers json (answering relisted) relisted
unfolding str_eq sql_db_stats sql_table_stats sql_locks
relisted-Answers = record { dbs = refl; tables = refl; locks = refl }

listed-IsReordered : IsReordered listed relisted
listed-IsReordered = record { dbs = Permᴰ.swap refl refl; tables = Permᴰ.nil; locks = Permᴰ.nil }

names_differ : get_str floats json app "datname" ∷ [] ≢ get_str floats json other "datname" ∷ []
unfolding get_str str_eq
names_differ e = cc

listed-HasDistinctLabels : HasDistinctLabels floats json listed
listed-HasDistinctLabels = record { dbs = ((names_differ, tt), (tt, tt)); tables = tt; locks = tt }

collect-reordered_example :
    let done = collect floats json client (answering listed) nothing in
    let done' = collect floats json client (answering relisted) nothing in
    let k : Series PostgresMetric = record { metric = db_numbackends; labels = codes "app" ∷ [] } in
    (done.0 ≡ ok tt) × (done'.0 ≡ ok tt) × (client.read done.1 k ≡ client.read done'.1 k)
collect-reordered_example =
    collect-reordered Unit floats json client (memory_client-IsLawful arity) (answering listed)
      (answering relisted) listed relisted refl listed-Answers relisted-Answers listed-IsReordered
      listed-HasDistinctLabels nothing
      (record { metric = db_numbackends; labels = codes "app" ∷ [] })

polls_replayed_example :
    let polls = answering listed ∷ broken ∷ [] in
    let done =
      collect_loop
        (collect floats json client {E = Unit {0}})
        (λ interval. true)
        15
        polls
        nothing in
    (done.0 ≡ waiting)
    × ((k : Series PostgresMetric)
        → client.read done.1 k ≡ replayed (round_reading floats json) polls k (int (pos 0)))
polls_replayed_example =
    polls_replayed Unit floats json client (memory_client-IsLawful arity) (λ interval. true) 15
      (answering listed ∷ broken ∷ []) nothing refl
