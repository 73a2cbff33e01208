-- ===== src/Postgres/Collect/Adapters.antt =====
-- A collection over the adapters of dr-metrix-postgres/src/pool: deadpool and r2d2 export the same.
use mathlib.Core.Path.{fun_ext}
use dr_metrix.Prelude.{ℕ, ◌≡◌, refl, ◌^◌, ◌<◌, List}
use dr_metrix.Std.{Str, Floats}
use dr_metrix.Core.Error.{Result}
use dr_metrix.Core.Metrics.{Client}
use dr_metrix.Postgres.Pool.{
  Answer, value, failure, Json, Diesel, JsonRow, build, wrapped, deadpool_query_json,
  r2d2_query_json, deadpool_status, r2d2_status,
}
use dr_metrix.Postgres.Pool.Status.{deadpool_status-eq-r2d2_status}
use dr_metrix.Postgres.Fields.{PostgresMetric}
use dr_metrix.Postgres.Collect.{Poll, collect}

-- A pool as its library counts it.
pub record Sizes : Type 0 where
  pub max_size : ℕ
  pub size : ℕ
  pub idle : ℕ

module _ {F E : Type 0} (json : Json F) (diesel : Diesel) where
  -- The adapters, as the collector sees them.
  unfoldable pub deadpool :
      {Object : Type 0} (get : Answer Object)
      (interact : Object → (diesel.Conn → Answer (List JsonRow)) → Answer (Answer (List JsonRow)))
      → Sizes
      → Poll E F json
  deadpool get interact sizes = record {
    status = deadpool_status sizes.max_size sizes.size sizes.idle;
    query_json = deadpool_query_json json diesel get interact;
  }

  unfoldable pub r2d2 :
      (spawn_blocking : Result E (List JsonRow) → Answer (Result E (List JsonRow)))
      (get : Answer diesel.Conn)
      → Sizes
      → Poll E F json
  r2d2 spawn_blocking get sizes = record {
    status = r2d2_status sizes.max_size sizes.size sizes.idle;
    query_json = r2d2_query_json json diesel spawn_blocking get;
  }

module _ {F E Object : Type 0} (json : Json F) (diesel : Diesel) (object : Object)
    (conn : diesel.Conn)
    (interact : Object → (diesel.Conn → Answer (List JsonRow)) → Answer (Answer (List JsonRow)))
    (runs : (task : diesel.Conn → Answer (List JsonRow))
      → interact object task ≡ value (task conn)) where
  -- On a connection that is given, both adapters run the query and decode its rows alike.
  query_json-same :
      (sql : Str)
      → deadpool_query_json {E = E} json diesel (value object) interact sql
        ≡ r2d2_query_json json diesel (λ task. value task) (value conn) sql
  unfolding deadpool_query_json r2d2_query_json
  query_json-same sql = by_load (diesel.load (build diesel) conn (wrapped sql)) refl
    where
      by_load :
          (a : Answer (List JsonRow))
          → diesel.load (build diesel) conn (wrapped sql) ≡ a
          → deadpool_query_json {E = E} json diesel (value object) interact sql
            ≡ r2d2_query_json json diesel (λ task. value task) (value conn) sql
      by_load (value rows) e = rw (runs (λ c. diesel.load (build diesel) c (wrapped sql)), e) refl
      by_load (failure m) e = rw (runs (λ c. diesel.load (build diesel) c (wrapped sql)), e) refl

  module _ (floats : Floats F) (c : Client PostgresMetric F) where
    -- Over pools that give a connection to the same server, run their tasks, and count the same sizes, each below
    -- 2 ^ 32, a collection with the deadpool adapter has the same outcome and leaves the same metrics as one
    -- with the r2d2 adapter, whatever the server answers or fails with.
    pub collect-deadpool :
        (sizes : Sizes) (s : c.State)
        → sizes.max_size < 2 ^ 32
        → sizes.size < 2 ^ 32
        → sizes.idle < 2 ^ 32
        → collect floats json c (deadpool {E = E} json diesel (value object) interact sizes) s
          ≡ collect floats json c (r2d2 json diesel (λ task. value task) (value conn) sizes) s
    unfolding deadpool r2d2
    collect-deadpool sizes s h k l =
        rw
          (
            deadpool_status-eq-r2d2_status sizes.max_size sizes.size sizes.idle h k l,
            fun_ext query_json-same,
          )
          refl
