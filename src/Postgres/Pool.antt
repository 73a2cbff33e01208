-- ===== src/Postgres/Pool.antt =====
-- dr-metrix-postgres/src/pool: the adapter trait and its three implementations. The pools and the JSON
-- library are given by what they answer; an error is given by its text.
pub mod Rows
pub mod Status
use dr_metrix.Prelude.{ℕ, ◌-◌, ◌%◌, ◌^◌, Bool, Option, none, some, List, [], ◌∷◌, ◌++◌, ℤ, IsI64}
use dr_metrix.Std.{Str, codes}
use dr_metrix.Core.Error.{Result, ok, err, database, ◌>>=◌}

pub record PoolStatus : Type 0 where
  pub max_size : ℕ
  pub available : ℕ
  pub in_use : ℕ

-- An answer of a library, or the text of its error.
pub data Answer (A : Type 0) : Type 0 where
  value : A → Answer A
  failure : Str → Answer A

-- `.map_err(MetricsError::database)`
abbrev pub map_err : {E A : Type 0} → Answer A → Result E A
map_err (value a) = ok a
map_err (failure e) = err (database e)

-- The calls of serde_json that the source makes, over the type `F` of `f64`.
pub record Json (F : Type 0) : Type 1 where
  pub Value : Type 0
  pub Map : Type 0
  pub from_str : Str → Answer Value
  pub as_object : Value → Option Map
  pub get : Map → Str → Option Value
  pub as_i64 : Value → Option ℤ
  pub as_f64 : Value → Option F
  pub as_str : Value → Option Str

-- The calls of diesel: a column of a row, read as a text, and `sql_query(…).load::<A>(…)`, where the rows are
-- built as `QueryableByName` says.
pub record Diesel : Type 1 where
  pub Conn : Type 0
  pub Row : Type 0
  pub get : Row → Str → Answer Str
  pub load : {A : Type 0} → (Row → Answer A) → Conn → Str → Answer (List A)

pub record JsonRow : Type 0 where
  pub row_json : Str

abbrev pub as_row : Answer Str → Answer JsonRow
as_row (value row_json) = value (record { row_json = row_json })
as_row (failure e) = failure e

-- `QueryableByName::build` for `JsonRow`
unfoldable pub build : (diesel : Diesel) → diesel.Row → Answer JsonRow
build diesel row = as_row (diesel.get row (codes "row_json"))

-- The query that `query_json` sends for `sql`.
unfoldable pub wrapped : Str → Str
wrapped sql = codes "SELECT row_to_json(t)::text AS row_json FROM (" ++ (sql ++ codes ") t")

module _ {F : Type 0} (json : Json F) where
  -- `if let Value::Object(map) = val { result.push(map); }`
  abbrev pub push_object : Option json.Map → List json.Map → List json.Map
  push_object none result = result
  push_object (some map) result = result ++ map ∷ []

module _ {F E : Type 0} (json : Json F) where
  -- The loop over the rows of the r2d2 and deadpool adapters.
  unfoldable pub decode_rows : List json.Map → List JsonRow → Result E (List json.Map)
  decode_rows result [] = ok result
  decode_rows result (row ∷ rows) = do
    val ← map_err (json.from_str row.row_json)
    decode_rows (push_object json (json.as_object val) result) rows

  -- `query_json` of deadpool: the connection, the call of `interact`, and the query in it
  unfoldable pub deadpool_query_json :
      {Object : Type 0} (diesel : Diesel) (get : Answer Object)
      (interact : Object → (diesel.Conn → Answer (List JsonRow)) → Answer (Answer (List JsonRow)))
      → Str
      → Result E (List json.Map)
  unfolding build
  deadpool_query_json diesel get interact sql = do
    object ← map_err get
    ran ← map_err (interact object (λ conn. diesel.load (build diesel) conn (wrapped sql)))
    rows ← map_err ran
    decode_rows [] rows

  abbrev blocking : (diesel : Diesel) → Answer diesel.Conn → Str → Result E (List JsonRow)
  blocking diesel get sql = do conn ← map_err get; map_err (diesel.load (build diesel) conn sql)

  abbrev joined : Answer (Result E (List JsonRow)) → Result E (List JsonRow)
  joined (value r) = r
  joined (failure e) = err (database e)

  -- `query_json` of r2d2: both calls run in a blocking task, which may fail to join
  unfoldable pub r2d2_query_json :
      (diesel : Diesel)
      (spawn_blocking : Result E (List JsonRow) → Answer (Result E (List JsonRow)))
      (get : Answer diesel.Conn)
      → Str
      → Result E (List json.Map)
  unfolding build
  r2d2_query_json diesel spawn_blocking get sql = do
    rows ← joined (spawn_blocking (blocking diesel get (wrapped sql)))
    decode_rows [] rows

module _ {F E Row : Type 0} (json : Json F)
    (try_get : Row → (prefix column : Str) → Answer Str) where
  -- The loop of the sea-orm adapter, where the column of a row may be missing.
  unfoldable pub decode_query_results : List json.Map → List Row → Result E (List json.Map)
  decode_query_results out [] = ok out
  decode_query_results out (row ∷ rows) = do
    json_str ← map_err (try_get row [] (codes "row_json"))
    val ← map_err (json.from_str json_str)
    decode_query_results (push_object json (json.as_object val) out) rows

  -- `query_json` of sea-orm
  unfoldable pub seaorm_query_json :
      (query_all : Str → Answer (List Row)) → Str → Result E (List json.Map)
  seaorm_query_json query_all sql = do
    rows ← map_err (query_all (wrapped sql))
    decode_query_results [] rows

-- `n as u32` wraps around.
abbrev pub as_u32 : ℕ → ℕ
as_u32 n = n % 2 ^ 32

-- `pool_status` of the three adapters. `saturating_sub` stops at 0, as `-` does here.
unfoldable pub deadpool_status : (max_size size available : ℕ) → PoolStatus
deadpool_status max_size size available = record {
  max_size = as_u32 max_size;
  available = as_u32 available;
  in_use = as_u32 (size - available);
}

unfoldable pub r2d2_status : (max_size connections idle_connections : ℕ) → PoolStatus
r2d2_status max_size connections idle_connections = record {
  max_size = max_size;
  available = idle_connections;
  in_use = connections - idle_connections;
}

unfoldable pub seaorm_status : PoolStatus
seaorm_status = record { max_size = 0; available = 0; in_use = 0 }
