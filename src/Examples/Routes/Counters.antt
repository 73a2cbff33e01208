-- ===== src/Examples/Routes/Counters.antt =====
-- Sequences of requests to the counter routes, and counters that are numbers to compare them with.
pub mod Effects
pub mod Answers
use mathlib.Core.Path.{fun_ext}
use dr_metrix.Prelude.{
  ℕ, ◌≡◌, ◌≢◌, refl, sym, ap, ◌∙◌, ◌⊎◌, inl, inr, Bool, true, false, Option, none, some, ℤ, List,
  [], ◌∷◌, arith, All, if◌then◌else◌, add_one, sub_one, list_beq, nat_eq, list_eq,
}
use dr_metrix.Std.{Str, codes, str_eq}
use dr_metrix.Core.Exec.{Exec, Outcome, ok, err, panicked, ◌>>=◌, ◌>>◌, pure}
use dr_metrix.Core.Metrics.{Client, IsLawful, Reading, observed, Series, series_eq}
use dr_metrix.Postgres.Pool.{Answer, value, failure}
use dr_metrix.Redis.Fields.{RedisMetric, redis_metric_eq, arity, command_duration_seconds}
use dr_metrix.Redis.Collect.{observe_command}
use dr_metrix.Examples.Routes.{
  Arc, arc, AppState, Response, error_body, counter_body, RedisPool, World, on_server, on_metrics,
  answered, observe_op, command, counter_op, counter_incr, counter_decr, with_pool,
}

pub data Route : Type 0 where
  incr : Route
  decr : Route

abbrev pub apply : Route → ℤ → ℤ
apply incr = add_one
apply decr = sub_one

abbrev pub update : (Str → ℤ) → Str → ℤ → Str → ℤ
update f key v other = if str_eq key other then v else f other

abbrev pub sent : (redis : RedisPool) → Route → Str → redis.State → Answer ℤ × redis.State
sent redis incr = redis.incr
sent redis decr = redis.decr

-- What Redis documents of the two commands: the answer is the new value of the counter, and no other
-- counter changes. A command that fails may have been carried out, when its answer was lost.
pub record IsCounterStore (redis : RedisPool) : Type 0 where
  pub counter : redis.State → Str → ℤ
  pub counted :
      (route : Route) (key : Str) (s : redis.State) (v : ℤ)
      → (sent redis route key s).0 ≡ value v
      → (v ≡ apply route (counter s key))
        × (counter (sent redis route key s).1 ≡ update (counter s) key v)
  pub failed :
      (route : Route) (key message : Str) (s : redis.State)
      → (sent redis route key s).0 ≡ failure message
      → (counter (sent redis route key s).1 ≡ counter s)
        ⊎ (counter (sent redis route key s).1
            ≡ update (counter s) key (apply route (counter s key)))

-- How one request is answered, and what it does to the server: refused where there is no pool; else its command is
-- sent, once, and its answer decides, the new value of the counter or the message of the error. A command that
-- failed was carried out or not.
module _ (redis : RedisPool) (store : IsCounterStore redis) (state : AppState) where
  pub data Serves (s : redis.State) (route : Route) (key : Str) (r : Response) (t : redis.State)
      : Type 0 where
    unconfigured :
        state.redis_pool ≡ none
        → r ≡ record { status = 503; body = error_body (codes "Redis not configured") }
        → t ≡ s
        → Serves s route key r t
    counts :
        state.redis_pool ≡ some arc
        → sent redis route key s ≡ (value (apply route (store.counter s key)), t)
        → r ≡ record { status = 200; body = counter_body key (apply route (store.counter s key)) }
        → store.counter t ≡ update (store.counter s) key (apply route (store.counter s key))
        → Serves s route key r t
    fails :
        (message : Str)
        → state.redis_pool ≡ some arc
        → sent redis route key s ≡ (failure message, t)
        → r ≡ record { status = 500; body = error_body message }
        → store.counter t ≡ store.counter s
        → Serves s route key r t
    loses :
        (message : Str)
        → state.redis_pool ≡ some arc
        → sent redis route key s ≡ (failure message, t)
        → r ≡ record { status = 500; body = error_body message }
        → store.counter t ≡ update (store.counter s) key (apply route (store.counter s key))
        → Serves s route key r t

-- A request, with the time that its command took.
pub record Request (F : Type 0) : Type 0 where
  pub route : Route
  pub key : Str
  pub elapsed : F

module _ {F : Type 0} (redis : RedisPool) (store : IsCounterStore redis) (state : AppState) where
  pub data Runs : redis.State → List (Request F) → List Response → redis.State → Type 0 where
    finished : {s : redis.State} → Runs s [] [] s
    serves :
        {s t u : redis.State} {q : Request F} {qs : List (Request F)} {r : Response}
        {rs : List Response}
        → Serves redis store state s q.route q.key r u
        → Runs u qs rs t
        → Runs s (q ∷ qs) (r ∷ rs) t

module _ {F E : Type 0} (redis : RedisPool) (c : Client RedisMetric F) (state : AppState) where
  abbrev pub handle : Route → Str → F → Exec (World redis.State c.State) E Response
  handle incr = counter_incr redis c state
  handle decr = counter_decr redis c state

  -- The requests, one after the other.
  unfoldable pub handle_all : List (Request F) → Exec (World redis.State c.State) E (List Response)
  handle_all [] = pure []
  handle_all (q ∷ qs) = do r ← handle q.route q.key q.elapsed; rs ← handle_all qs; pure (r ∷ rs)

abbrev pub route_name : Route → Str
route_name incr = codes "incr"
route_name decr = codes "decr"
