-- ===== src/Examples/Routes.antt =====
-- examples/src/main.rs: the state of the application and its route handlers. The Redis pool is given by
-- what its commands do; a pause has no effect but the time that the clock then shows.
pub mod Counters
use dr_metrix.Prelude.{ℕ, Option, none, some, ℤ, List, [], ◌∷◌, pos, if◌then◌else◌}
use dr_metrix.Std.{Str, codes, str_eq}
use dr_metrix.Core.Exec.{Exec, Outcome, ok, err, panicked, ◌>>=◌, ◌>>◌, pure}
use dr_metrix.Core.Metrics.{Client}
use dr_metrix.Postgres.Pool.{Answer, value, failure}
use dr_metrix.Postgres.Fields.{PostgresMetric}
use dr_metrix.Postgres.Collect.{observe_query}
use dr_metrix.Redis.Fields.{RedisMetric}
use dr_metrix.Redis.Collect.{observe_command}

-- A shared handle; what it refers to is a part of the state that the handlers run on.
pub data Arc : Type 0 where
  arc : Arc

pub record AppState : Type 0 where
  pub prom : Arc
  pub pg_metrics : Option Arc
  pub redis_pool : Option Arc
  pub redis_metrics : Option Arc
  pub mongo_metrics : Option Arc

mutual
  -- What `json!` builds in the handlers. A number with a decimal point is its digits and their count behind
  -- the point.
  pub data Value : Type 0 where
    integer : ℤ → Value
    decimal : (digits places : ℕ) → Value
    text : Str → Value
    array : Values → Value
    object : Members → Value

  pub data Values : Type 0 where
    end : Values
    item : Value → Values → Values

  pub data Members : Type 0 where
    close : Members
    member : Str → Value → Members → Members

-- A status code and a JSON body.
pub record Response : Type 0 where
  pub status : ℕ
  pub body : Value

abbrev pub error_body : Str → Value
error_body message = object (member (codes "error") (text message) close)

abbrev pub counter_body : Str → ℤ → Value
counter_body key v =
    object (member (codes "key") (text key) (member (codes "value") (integer v) close))

-- The commands of the pool that the source calls.
pub record RedisPool : Type 1 where
  pub State : Type 0
  pub incr : Str → State → Answer ℤ × State
  pub decr : Str → State → Answer ℤ × State

-- What the counter routes change: the server behind the pool, and the Redis metrics.
pub record World (S M : Type 0) : Type 0 where
  pub server : S
  pub metrics : M

module _ {E S M A : Type 0} where
  -- A command, whose answer is a value.
  abbrev pub on_server : (S → A × S) → Exec (World S M) E A
  on_server command w = let (a, server) = command w.server in (ok a, record w { server = server })

  abbrev pub on_metrics : Exec M E A → Exec (World S M) E A
  on_metrics m w = let (a, metrics) = m w.metrics in (a, record w { metrics = metrics })

abbrev pub user : (id : ℕ) (name : Str) → Value
user id name =
    object (member (codes "id") (integer (pos id)) (member (codes "name") (text name) close))

module _ {F E : Type 0} (c : Client PostgresMetric F) where
  abbrev observe_users : Option Arc → F → (two : F) → Exec c.State E (Unit {0})
  observe_users none elapsed two = pure tt
  observe_users (some m) elapsed two = observe_query c (codes "list_users") elapsed two

  -- `list_users`; `two` is the constant `2.0`.
  unfoldable pub list_users : AppState → (two elapsed : F) → Exec c.State E Value
  list_users state two elapsed = do
    observe_users state.pg_metrics elapsed two
    pure (
        object (
          member (codes "users")
            (array (item (user 1 (codes "Alice")) (item (user 2 (codes "Bob")) end))) close))

  unfoldable pub list_orders : AppState → Exec c.State E Value
  list_orders state = pure (
      object (
        member (codes "orders")
          (array (
            item
              (object (
                member (codes "id") (integer (pos 100))
                  (member (codes "total") (decimal 5999 2) close)))
              end))
          close))

-- `match result { … }`
abbrev pub answered : Str → Answer ℤ → Response
answered key (value v) = record { status = 200; body = counter_body key v }
answered key (failure e) = record { status = 500; body = error_body e }

abbrev pub command : (redis : RedisPool) → Str → Str → redis.State → Answer ℤ × redis.State
command redis op key = if str_eq op (codes "incr") then redis.incr key else redis.decr key

module _ {F E : Type 0} (redis : RedisPool) (c : Client RedisMetric F) where
  abbrev pub observe_op : Option Arc → Str → F → Exec c.State E (Unit {0})
  observe_op none op elapsed = pure tt
  observe_op (some m) op elapsed = observe_command c op elapsed

  abbrev pub with_pool :
      Option Arc → AppState → Str → Str → F → Exec (World redis.State c.State) E Response
  with_pool none state key op elapsed =
      pure (record { status = 503; body = error_body (codes "Redis not configured") })
  with_pool (some pool) state key op elapsed = do
    result ← on_server (command redis op key)
    on_metrics (observe_op state.redis_metrics op elapsed)
    pure (answered key result)

  unfoldable pub counter_op : AppState → Str → Str → F → Exec (World redis.State c.State) E Response
  counter_op state key op elapsed = with_pool state.redis_pool state key op elapsed

  unfoldable pub counter_incr : AppState → Str → F → Exec (World redis.State c.State) E Response
  counter_incr state key elapsed = counter_op state key (codes "incr") elapsed

  unfoldable pub counter_decr : AppState → Str → F → Exec (World redis.State c.State) E Response
  counter_decr state key elapsed = counter_op state key (codes "decr") elapsed
