-- ===== src/Tests/Pool.antt =====
-- Tests of the pool adapters, with connections that are what the server answers.
use dr_metrix.Prelude.{Bool, pos, ◌≡◌, refl, List, [], ◌∷◌, map, arith}
use dr_metrix.Std.{Str, codes}
use dr_metrix.Core.Error
use dr_metrix.Core.Error.{Result, MetricsError, database}
use dr_metrix.Postgres.Pool.{
  value, failure, map_err, deadpool_query_json, r2d2_query_json, seaorm_query_json,
}
use dr_metrix.Postgres.Pool.{Answer, Diesel, JsonRow}
use dr_metrix.Postgres.Pool.Rows.{objects, adapters_agree, missing_column_fails}
use dr_metrix.Postgres.Pool.Rows.Columns.{IsLoading, FirstBroken, here, there, all_built, row_of}
use dr_metrix.Postgres.Collect.{collect}
use dr_metrix.Postgres.Collect.Adapters.{Sizes, deadpool, r2d2, collect-deadpool}
use dr_metrix.Core.Metrics.{Client, int, memory_client}
use dr_metrix.Postgres.Fields.{PostgresMetric, arity}
use dr_metrix.Postgres.Fields.{postgres_metric_eq}
use dr_metrix.Tests.Fixtures.{json, floats}

abbrev texts : List Str
texts = codes "{}" ∷ codes "7" ∷ codes "{x" ∷ []

abbrev json_rows : List JsonRow
json_rows = map row_of texts

-- A row is what reading its column answers.
abbrev loaded :
    {A : Type 0} → (Answer Str → Answer A) → Answer (List (Answer Str)) → Answer (List A)
loaded f (value rows) = all_built f rows
loaded f (failure e) = failure e

abbrev diesel : Diesel
diesel = record {
  Conn = Answer (List (Answer Str));
  Row = Answer Str;
  get = λ row column. row;
  load = λ f conn sql. loaded f conn;
}

abbrev diesel-IsLoading : IsLoading diesel
diesel-IsLoading = record {
  fetch = λ conn sql. conn;
  load_rows = λ f conn sql rows e. rw e;
  load_failed = λ f conn sql message e. rw e;
}

abbrev interact : Unit {0} → (diesel.Conn → Answer (List JsonRow)) → Answer (Answer (List JsonRow))
interact object task = value (task (value (map value texts)))

abbrev query : Str
query = codes "SELECT 1"

adapters_agree_example :
    let decoded : Result (Unit {0}) (List json.Map) = map_err (objects json texts) in
    (deadpool_query_json json diesel (value tt) interact query ≡ decoded)
    × (r2d2_query_json json diesel (λ task. value task) (value (value (map value texts))) query
        ≡ decoded)
    × (seaorm_query_json json (λ row prefix column. row) (λ sql. value (map value texts)) query
        ≡ decoded)
adapters_agree_example =
    adapters_agree {E = Unit {0}} json diesel diesel-IsLoading tt (value (map value texts)) interact
      (λ task. refl) (λ row prefix column. row) (λ sql. value (map value texts)) query
      (map value texts) (map value texts) texts refl refl (refl, (refl, (refl, tt)))
      (refl, (refl, (refl, tt)))

-- The second row lacks the column, which the two libraries say in their own words; sea-orm first meets a row that is
-- no JSON.
abbrev gap : List (Answer Str)
gap = value (codes "{}") ∷ failure (codes "Column `row_json` was not present") ∷ []

abbrev orm_gap : List (Answer Str)
orm_gap = value [] ∷ failure (codes "column not found") ∷ []

missing_column_fails_example :
    let failed : Result (Unit {0}) (List json.Map) =
      Error.err (database (codes "Column `row_json` was not present")) in
    (deadpool_query_json json diesel (value tt) (λ o task. value (task (value gap))) query ≡ failed)
    × (r2d2_query_json json diesel (λ task. value task) (value (value gap)) query ≡ failed)
    × ((m : Str) × FirstBroken json (λ row prefix column. row) m orm_gap
        × (seaorm_query_json {E = Unit {0}} json
              (λ row prefix column. row)
              (λ sql. value orm_gap)
              query
            ≡ Error.err (database m)))
missing_column_fails_example =
    missing_column_fails {E = Unit {0}} json diesel diesel-IsLoading (tt {0}) (value gap)
      (λ o task. value (task (value gap))) (λ task. refl) (λ row prefix column. row)
      (λ sql. value orm_gap) query (codes "Column `row_json` was not present")
      (codes "column not found") gap orm_gap refl refl (there refl (here refl))
      (there refl (here refl))

abbrev sizes : Sizes
sizes = record { max_size = 10; size = 8; idle = 3 }

abbrev client : Client PostgresMetric Bool
client = memory_client arity

collect-deadpool_example :
    collect floats json client
      (deadpool {E = Unit {0}} json diesel (value tt) (λ o task. value (task (value gap))) sizes)
      (λ s. int (pos 0))
    ≡ collect floats json client
        (r2d2 json diesel (λ task. value task) (value (value gap)) sizes)
        (λ s. int (pos 0))
collect-deadpool_example =
    collect-deadpool json diesel (tt {0}) (value gap) (λ o task. value (task (value gap)))
      (λ task. refl) floats client sizes (λ s. int (pos 0)) (omega arith) (omega arith)
      (omega arith)
