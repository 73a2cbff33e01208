-- ===== src/Tests/Examples.antt =====
-- Tests of the counter routes, with a Redis server that fails for one key.
use dr_metrix.Prelude.{
  ◌≡◌, refl, sym, ap, ◌⊎◌, inl, Bool, true, false, [], ◌∷◌, none, some, ℤ, pos, List,
}
use dr_metrix.Std.{Str, codes, str_eq}
use dr_metrix.Core.Exec.{ok}
use dr_metrix.Core.Metrics.{Client, samples, memory_client, memory_client-IsLawful}
use dr_metrix.Postgres.Pool.{Answer, value, failure}
use dr_metrix.Postgres.Fields.{postgres_metric_eq}
use dr_metrix.Redis.Fields as Redis
use dr_metrix.Redis.Fields.{RedisMetric, redis_metric_eq}
use dr_metrix.Redis.Collect.{observe_command}
use dr_metrix.Mongo.Fields.{mongo_metric_eq}
use dr_metrix.Examples.Routes.{
  arc, AppState, Response, RedisPool, World, counter_op, counter_incr, counter_decr, counter_body,
}
use dr_metrix.Examples.Routes.Counters.{
  Route, incr, decr, apply, update, sent, IsCounterStore, Request, Runs, handle_all,
}
use dr_metrix.Examples.Routes.Counters.Answers.{handle_all_refines, replay, counters_add_up}

abbrev reply : Bool → Route → Str → (Str → ℤ) → Answer ℤ × (Str → ℤ)
reply true route key f = (failure (codes "connection lost"), f)
reply false route key f = (value (apply route (f key)), update f key (apply route (f key)))

abbrev pub pool : RedisPool
pool = record {
  State = Str → ℤ;
  incr = λ key f. reply (str_eq key (codes "down")) incr key f;
  decr = λ key f. reply (str_eq key (codes "down")) decr key f;
}

sent_as :
    (route : Route) (key : Str) (f : Str → ℤ)
    → sent pool route key f ≡ reply (str_eq key (codes "down")) route key f
sent_as incr key f = refl
sent_as decr key f = refl

abbrev value_or : ℤ → Answer ℤ → ℤ
value_or v (value n) = n
value_or v (failure message) = v

reply_counted :
    (b : Bool) (route : Route) (key : Str) (f : Str → ℤ) (v : ℤ)
    → (reply b route key f).0 ≡ value v
    → (v ≡ apply route (f key)) × ((reply b route key f).1 ≡ update f key v)
reply_counted true route key f v e = cc
reply_counted false route key f v e =
    (ap (value_or v) (sym e), ap (λ n. update f key n) (ap (value_or v) e))

reply_failed :
    (b : Bool) (route : Route) (key message : Str) (f : Str → ℤ)
    → (reply b route key f).0 ≡ failure message
    → ((reply b route key f).1 ≡ f) ⊎ ((reply b route key f).1 ≡ update f key (apply route (f key)))
reply_failed true route key message f e = inl refl
reply_failed false route key message f e = cc

pub pool-IsCounterStore : IsCounterStore pool
pool-IsCounterStore = record {
  counter = λ f. f;
  counted = λ route key f v. rw (sent_as route key f) (reply_counted _ route key f v);
  failed = λ route key message f. rw (sent_as route key f) (reply_failed _ route key message f);
}

abbrev pub metrics : Client RedisMetric Bool
metrics = memory_client Redis.arity

abbrev pub state : AppState
state = record {
  prom = arc;
  pg_metrics = none;
  redis_pool = some arc;
  redis_metrics = some arc;
  mongo_metrics = none;
}

abbrev pub world : World (Str → ℤ) metrics.State
world = record { server = λ key. pos 0; metrics = λ s. samples [] }

-- Two requests for the counter `hits`.
abbrev requests : List (Request Bool)
requests =
    record { route = incr; key = codes "hits"; elapsed = true }
    ∷ record { route = incr; key = codes "hits"; elapsed = false }
    ∷ []

handle_all_refines_example :
    (rs : List Response) × (w' : World pool.State metrics.State) × (handle_all {E = Unit {0}} pool
        metrics state requests world
      ≡ (ok rs, w'))
    × Runs pool pool-IsCounterStore state world.server requests rs w'.server
handle_all_refines_example =
    handle_all_refines pool metrics (memory_client-IsLawful Redis.arity) state pool-IsCounterStore
      {E = Unit {0}} requests world

abbrev counted_world : World (Str → ℤ) metrics.State
counted_world = (handle_all {E = Unit {0}} pool metrics state requests world).1

abbrev two_answers : List Response
two_answers =
    record { status = 200; body = counter_body (codes "hits") (pos 1) }
    ∷ record { status = 200; body = counter_body (codes "hits") (pos 2) }
    ∷ []

two_answers_run :
    handle_all {E = Unit {0}} pool metrics state requests world ≡ (ok two_answers, counted_world)
unfolding handle_all counter_incr counter_decr counter_op str_eq observe_command Redis.arity
two_answers_run = refl

counters_add_up_example :
    pool-IsCounterStore.counter counted_world.server
    ≡ replay requests (pool-IsCounterStore.counter world.server)
counters_add_up_example =
    counters_add_up pool metrics (memory_client-IsLawful Redis.arity) state pool-IsCounterStore
      requests world counted_world two_answers two_answers_run (refl, (refl, tt))
