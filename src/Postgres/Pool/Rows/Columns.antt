-- ===== src/Postgres/Pool/Rows/Columns.antt =====
-- The column `row_json` of the rows that a server answers with: there in each of them, or not.
use dr_metrix.Prelude.{◌≡◌, refl, ap, List, [], ◌∷◌, map}
use dr_metrix.Std.{Str, codes}
use dr_metrix.Core.Error.{Result, err, database, ◌>>=◌}
use dr_metrix.Postgres.Pool.{
  Answer, value, failure, map_err, Json, Diesel, JsonRow, build, push_object, decode_rows,
  decode_query_results,
}

abbrev cons_built : {A : Type 0} → Answer A → Answer (List A) → Answer (List A)
cons_built (failure e) rest = failure e
cons_built (value a) (failure e) = failure e
cons_built (value a) (value bs) = value (a ∷ bs)

-- Every row is built, or the first one fails that does.
abbrev pub all_built : {Row A : Type 0} → (Row → Answer A) → List Row → Answer (List A)
all_built f [] = value []
all_built f (row ∷ rows) = cons_built (f row) (all_built f rows)

-- What diesel documents of `load`: the server answers the query with rows, and each of them is built.
pub record IsLoading (diesel : Diesel) : Type 1 where
  pub fetch : diesel.Conn → Str → Answer (List diesel.Row)
  pub load_rows :
      {A : Type 0} (f : diesel.Row → Answer A) (conn : diesel.Conn) (sql : Str)
      (rows : List diesel.Row)
      → fetch conn sql ≡ value rows
      → diesel.load f conn sql ≡ all_built f rows
  pub load_failed :
      {A : Type 0} (f : diesel.Row → Answer A) (conn : diesel.Conn) (sql message : Str)
      → fetch conn sql ≡ failure message
      → diesel.load f conn sql ≡ failure message

-- The column of every row is there, with these texts.
abbrev pub HaveTexts : {Row : Type 0} → (Row → Answer Str) → List Row → List Str → Type 0
HaveTexts get [] [] = Unit
HaveTexts get (row ∷ rows) (t ∷ ts) = (get row ≡ value t) × HaveTexts get rows ts
HaveTexts get _ _ = ⊥

-- The first row without the column, and the error of reading it there.
pub data FirstMissing {Row : Type 0} (get : Row → Answer Str) (message : Str)
    : List Row → Type 0 where
  here :
      {row : Row} {rows : List Row}
      → get row ≡ failure message
      → FirstMissing get message (row ∷ rows)
  there :
      {row : Row} {rows : List Row} {text : Str}
      → get row ≡ value text
      → FirstMissing get message rows
      → FirstMissing get message (row ∷ rows)

abbrev pub texts_of : List JsonRow → List Str
texts_of = map (λ row. row.row_json)

abbrev pub row_of : Str → JsonRow
row_of text = record { row_json = text }

pub texts_of-row_of : (ts : List Str) → texts_of (map row_of ts) ≡ ts
texts_of-row_of [] = refl
texts_of-row_of (t ∷ ts) = ap (λ (us : List Str). t ∷ us) (texts_of-row_of ts)

module _ (diesel : Diesel) where
  abbrev pub column : diesel.Row → Answer Str
  column row = diesel.get row (codes "row_json")

  pub all_built-texts :
      (rows : List diesel.Row) (ts : List Str)
      → HaveTexts column rows ts
      → all_built (build diesel) rows ≡ value (map row_of ts)
  unfolding build
  all_built-texts [] [] h = refl
  all_built-texts [] (t ∷ ts) h = elim h [ ]
  all_built-texts (row ∷ rows) [] h = elim h [ ]
  all_built-texts (row ∷ rows) (t ∷ ts) (e, h) = rw (e, all_built-texts rows ts h) refl

  pub all_built-missing :
      {message : Str} (rows : List diesel.Row)
      → FirstMissing column message rows
      → all_built (build diesel) rows ≡ failure message
  unfolding build
  all_built-missing [] h = elim h [ ]
  all_built-missing (row ∷ rows) (here e) = rw e refl
  all_built-missing (row ∷ rows) (there e h) = rw (e, all_built-missing rows h) refl

module _ {E A B : Type 0} where
  >>=-same :
      (a : Answer A) (f g : A → Result E B)
      → ((v : A) → f v ≡ g v)
      → (map_err a >>= f) ≡ (map_err a >>= g)
  >>=-same (value v) f g h = h v
  >>=-same (failure m) f g h = refl

module _ {Row : Type 0} (try_get : Row → (prefix column : Str) → Answer Str) where
  abbrev pub orm_column : Row → Answer Str
  orm_column row = try_get row [] (codes "row_json")

module _ {F Row : Type 0} (json : Json F) (try_get : Row → (prefix column : Str) → Answer Str) where
  -- The error of the first row that lacks the column or is no JSON.
  pub data FirstBroken (message : Str) : List Row → Type 0 where
    missing :
        {row : Row} {rows : List Row}
        → orm_column try_get row ≡ failure message
        → FirstBroken message (row ∷ rows)
    malformed :
        {row : Row} {rows : List Row} {text : Str}
        → orm_column try_get row ≡ value text
        → json.from_str text ≡ failure message
        → FirstBroken message (row ∷ rows)
    later :
        {row : Row} {rows : List Row} {text : Str} {v : json.Value}
        → orm_column try_get row ≡ value text
        → json.from_str text ≡ value v
        → FirstBroken message rows
        → FirstBroken message (row ∷ rows)

module _ {F E Row : Type 0} (json : Json F)
    (try_get : Row → (prefix column : Str) → Answer Str) where
  -- The loop of the sea-orm adapter does the same to rows that have their column.
  pub decode_query_results-texts :
      (rows : List Row) (ts : List Str) (result : List json.Map)
      → HaveTexts (orm_column try_get) rows ts
      → decode_query_results {E = E} json try_get result rows
        ≡ decode_rows json result (map row_of ts)
  unfolding decode_query_results decode_rows
  decode_query_results-texts [] [] result h = refl
  decode_query_results-texts [] (t ∷ ts) result h = elim h [ ]
  decode_query_results-texts (row ∷ rows) [] result h = elim h [ ]
  decode_query_results-texts (row ∷ rows) (t ∷ ts) result (e, h) = rw e (
      >>=-same (json.from_str t) _ _
        λ v. decode_query_results-texts rows ts (push_object json (json.as_object v) result) h)

  -- A missing column fails the loop, at the first row that is broken.
  pub decode_query_results-missing :
      {message : Str} (rows : List Row) (result : List json.Map)
      → FirstMissing (orm_column try_get) message rows
      → (m : Str) × FirstBroken json try_get m rows
        × (decode_query_results {E = E} json try_get result rows ≡ err (database m))
  unfolding decode_query_results
  decode_query_results-missing [] result h = elim h [ ]
  decode_query_results-missing {message} (row ∷ rows) result (here e) =
      (message, missing e, rw e refl)
  decode_query_results-missing {message} (row ∷ rows) result (there {text = text} e h) =
      by_text (json.from_str text) refl (λ out. decode_query_results-missing rows out h)
    where
      by_text :
          (a : Answer json.Value)
          → json.from_str text ≡ a
          → ((out : List json.Map)
              → (m : Str) × FirstBroken json try_get m rows
                × (decode_query_results {E = E} json try_get out rows ≡ err (database m)))
          → (m : Str) × FirstBroken json try_get m (row ∷ rows)
            × (decode_query_results {E = E} json try_get result (row ∷ rows) ≡ err (database m))
      by_text (failure m) p rest = (m, malformed e p, rw (e, p) refl)
      by_text (value v) p rest =
          let (m, broken, run) = rest (push_object json (json.as_object v) result) in
          (m, later e p broken, rw (e, p) run)
