-- ===== src/Postgres/Pool/Rows.antt =====
-- Decoding rows: all objects in order, or the first text that is no JSON.
pub mod Columns
use mathlib.Core.List.{append_assoc, append-nil}
use dr_metrix.Prelude.{◌≡◌, refl, ap, ◌∙◌, Option, none, some, List, [], ◌∷◌, ◌++◌, map}
use dr_metrix.Std.{Str}
use dr_metrix.Core.Error.{Result, ok, err, database, ◌>>=◌}
use dr_metrix.Postgres.Pool.{
  Answer, value, failure, map_err, Json, push_object, JsonRow, decode_rows,
}
use dr_metrix.Postgres.Pool.{
  Diesel, build, deadpool_query_json, r2d2_query_json, seaorm_query_json, wrapped,
}
use Columns.{
  IsLoading, HaveTexts, FirstMissing, FirstBroken, column, orm_column, texts_of, row_of,
  texts_of-row_of, all_built-texts, all_built-missing, decode_query_results-texts,
  decode_query_results-missing,
}

-- An accumulated prefix in front of an answer.
abbrev behind : {E M : Type 0} → List M → Answer (List M) → Result E (List M)
behind result (value ms) = ok (result ++ ms)
behind result (failure e) = err (database e)

module _ {F : Type 0} (json : Json F) where
  abbrev cons_object : Option json.Map → Answer (List json.Map) → Answer (List json.Map)
  cons_object none rest = rest
  cons_object (some m) (value ms) = value (m ∷ ms)
  cons_object (some m) (failure e) = failure e

  abbrev decoded : Answer json.Value → Answer (List json.Map) → Answer (List json.Map)
  decoded (failure e) rest = failure e
  decoded (value v) rest = cons_object (json.as_object v) rest

  -- The objects among the rows, or the error of the first text that is no JSON.
  unfoldable pub objects : List Str → Answer (List json.Map)
  objects [] = value []
  objects (row ∷ rows) = decoded (json.from_str row) (objects rows)

  push_behind :
      {E : Type 0} (o : Option json.Map) (result : List json.Map) (rest : Answer (List json.Map))
      → behind {E = E} (push_object json o result) rest ≡ behind result (cons_object o rest)
  push_behind none result rest = refl
  push_behind (some m) result (value ms) = rw (append_assoc result (m ∷ []) ms)
  push_behind (some m) result (failure e) = refl

  decode_rows-behind :
      {E : Type 0} (result : List json.Map) (rows : List JsonRow)
      → decode_rows {E = E} json result rows ≡ behind result (objects (texts_of rows))
  unfolding decode_rows objects
  decode_rows-behind result [] = rw append-nil
  decode_rows-behind {E} result (row ∷ rows) =
      step (λ res. decode_rows-behind res rows) (json.from_str row.row_json)
    where
      step :
          (ih : (res : List json.Map)
            → decode_rows {E = E} json res rows ≡ behind res (objects (texts_of rows)))
          (a : Answer json.Value)
          → (map_err a >>= λ val.
              decode_rows {E = E} json (push_object json (json.as_object val) result) rows)
            ≡ behind result (decoded a (objects (texts_of rows)))
      step ih (failure e) = refl
      step ih (value v) =
          ih (push_object json (json.as_object v) result)
          ∙ push_behind (json.as_object v) result (objects (texts_of rows))

  -- Decoding answers the objects among the rows in their order; a row that is JSON but no object is
  -- left out, and the first row that is no JSON fails it with its error.
  pub decode_rows-objects :
      {E : Type 0} (rows : List JsonRow)
      → decode_rows {E = E} json [] rows ≡ map_err (objects (texts_of rows))
  decode_rows-objects {E} rows = decode_rows-behind [] rows ∙ from_nil (objects (texts_of rows))
    where
      from_nil : (a : Answer (List json.Map)) → behind {E = E} [] a ≡ map_err a
      from_nil (value ms) = refl
      from_nil (failure e) = refl

module _ {F E Object Row : Type 0} (json : Json F) (diesel : Diesel) (loads : IsLoading diesel)
    (object : Object) (conn : diesel.Conn)
    (interact : Object → (diesel.Conn → Answer (List JsonRow)) → Answer (Answer (List JsonRow)))
    (runs : (task : diesel.Conn → Answer (List JsonRow)) → interact object task ≡ value (task conn))
    (try_get : Row → (prefix column : Str) → Answer Str) (query_all : Str → Answer (List Row)) where
  -- When the connections are given, their tasks run, and the server answers the wrapped query with rows that
  -- have the column, with the same texts, the three adapters give the same result: the objects among the texts,
  -- or the error of the first text that is no JSON.
  -- Diesel is assumed to do what it documents.
  pub adapters_agree :
      (sql : Str) (rows : List diesel.Row) (orm_rows : List Row) (texts : List Str)
      → loads.fetch conn (wrapped sql) ≡ value rows
      → query_all (wrapped sql) ≡ value orm_rows
      → HaveTexts (column diesel) rows texts
      → HaveTexts (orm_column try_get) orm_rows texts
      → let decoded : Result E (List json.Map) = map_err (objects json texts) in
        (deadpool_query_json json diesel (value object) interact sql ≡ decoded)
        × (r2d2_query_json json diesel (λ task. value task) (value conn) sql ≡ decoded)
        × (seaorm_query_json json try_get query_all sql ≡ decoded)
  unfolding deadpool_query_json r2d2_query_json seaorm_query_json
  adapters_agree sql rows orm_rows texts h k l l' =
      let built =
        loads.load_rows (build diesel) conn (wrapped sql) rows h
        ∙ all_built-texts diesel rows texts l in
      let decode =
        decode_rows-objects json {E = E} (map row_of texts)
        ∙ ap (λ (ts : List Str). map_err (objects json ts)) (texts_of-row_of texts) in
      (
        rw (runs (λ c. diesel.load (build diesel) c (wrapped sql)), built) decode,
        rw built decode,
        rw k (decode_query_results-texts json try_get orm_rows texts [] l' ∙ decode),
      )

  -- When the server answers with rows of which one lacks the column, every adapter fails with a database error: those
  -- of diesel with what diesel says of the first row that lacks it; that of sea-orm with the error of the first
  -- row that lacks it, as sea-orm says, or is no JSON. Diesel is assumed to do what it documents.
  pub missing_column_fails :
      (sql message orm_message : Str) (rows : List diesel.Row) (orm_rows : List Row)
      → loads.fetch conn (wrapped sql) ≡ value rows
      → query_all (wrapped sql) ≡ value orm_rows
      → FirstMissing (column diesel) message rows
      → FirstMissing (orm_column try_get) orm_message orm_rows
      → let failed : Result E (List json.Map) = err (database message) in
        (deadpool_query_json json diesel (value object) interact sql ≡ failed)
        × (r2d2_query_json json diesel (λ task. value task) (value conn) sql ≡ failed)
        × ((m : Str) × FirstBroken json try_get m orm_rows
            × (seaorm_query_json {E = E} json try_get query_all sql ≡ err (database m)))
  unfolding deadpool_query_json r2d2_query_json seaorm_query_json
  missing_column_fails sql message orm_message rows orm_rows h k l l' =
      let built =
        loads.load_rows (build diesel) conn (wrapped sql) rows h
        ∙ all_built-missing diesel rows l in
      let (m, broken, run) = decode_query_results-missing {E = E} json try_get orm_rows [] l' in
      (
        rw (runs (λ c. diesel.load (build diesel) c (wrapped sql)), built) refl,
        rw built refl,
        (m, broken, rw k run),
      )
