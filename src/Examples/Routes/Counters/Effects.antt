-- ===== src/Examples/Routes/Counters/Effects.antt =====
-- What one counter request does: its response, and the state behind it.
use dr_metrix.Prelude.{◌≡◌, refl, Option, none, some, [], ◌∷◌, nat_eq, list_eq}
use dr_metrix.Std.{Str, codes, str_eq}
use dr_metrix.Core.Exec.{ok}
use dr_metrix.Core.Metrics.{Client, IsLawful, series_eq}
use dr_metrix.Redis.Fields.{RedisMetric, redis_metric_eq, arity, command_duration_seconds}
use dr_metrix.Redis.Collect.{observe_command}
use dr_metrix.Examples.Routes.{
  Arc, arc, AppState, Response, error_body, RedisPool, World, answered, observe_op, counter_op,
  counter_incr, counter_decr,
}
use dr_metrix.Examples.Routes.Counters.{Route, incr, decr, sent, handle, route_name}

module _ {F : Type 0} (redis : RedisPool) (c : Client RedisMetric F) (lawful : IsLawful arity c)
    (state : AppState) where
  -- The state of the metrics behind a command.
  unfoldable pub noted : Option Arc → Route → F → c.State → c.State
  noted none route elapsed m = m
  noted (some a) route elapsed m =
      c.observe (record { metric = command_duration_seconds; labels = route_name route ∷ [] })
        elapsed m

  pub observe_op_runs :
      {E : Type 0} (o : Option Arc) (route : Route) (elapsed : F) (m : c.State)
      → observe_op {E = E} redis c o (route_name route) elapsed m ≡ (ok tt, noted o route elapsed m)
  unfolding observe_command noted arity
  observe_op_runs none route elapsed m = refl
  observe_op_runs (some a) route elapsed m =
      rw (lawful.accepts_arity command_duration_seconds (route_name route ∷ []) refl)

  -- What a request does where there is a pool.
  abbrev pub handled :
      Route → Str → F → World redis.State c.State → Response × World redis.State c.State
  handled route key elapsed w =
      let (result, server) = sent redis route key w.server in
      (
        answered key result,
        record { server = server; metrics = noted state.redis_metrics route elapsed w.metrics },
      )

  pub handle_runs :
      {E : Type 0} (route : Route) (key : Str) (elapsed : F) (w : World redis.State c.State)
      → state.redis_pool ≡ some arc
      → handle {E = E} redis c state route key elapsed w
        ≡ (ok (handled route key elapsed w).0, (handled route key elapsed w).1)
  unfolding counter_incr counter_decr counter_op str_eq noted
  handle_runs incr key elapsed w h = rw (h, observe_op_runs state.redis_metrics incr elapsed)
  handle_runs decr key elapsed w h = rw (h, observe_op_runs state.redis_metrics decr elapsed)

  pub handle_unconfigured :
      {E : Type 0} (route : Route) (key : Str) (elapsed : F) (w : World redis.State c.State)
      → state.redis_pool ≡ none
      → handle {E = E} redis c state route key elapsed w
        ≡ (ok (record { status = 503; body = error_body (codes "Redis not configured") }), w)
  unfolding counter_incr counter_decr counter_op
  handle_unconfigured incr key elapsed w h = rw h
  handle_unconfigured decr key elapsed w h = rw h
