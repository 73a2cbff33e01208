-- ===== src/Examples/Interleaved/Shuffled.antt =====
-- The two users of the Redis metrics under threads: their writes to single series come in any order that keeps that
-- of each of them.
pub mod Elsewhere
use dr_metrix.Prelude.{
  ℕ, ◌≡◌, ◌≢◌, refl, sym, ap, ◌∙◌, Bool, true, false, Option, none, some, List, [], ◌∷◌, ◌++◌, All,
  if◌then◌else◌, ◌==◌, list_beq, nat_eq, list_eq,
}
use dr_metrix.Std.{Str, Floats}
use dr_metrix.Core.Exec.{ok, state-pure}
use dr_metrix.Core.Metrics.{Client, IsLawful, Reading, samples, Series, series_eq}
use dr_metrix.Core.Collector.Loop.{collected, replayed, read-collected}
use dr_metrix.Redis.Info.{RedisInfo, KeyspaceEntry, parse_info}
use dr_metrix.Redis.Fields.{RedisMetric, redis_metric_eq, arity, command_duration_seconds}
use dr_metrix.Redis.Collect.{Reply, text, failure, Poll, collect}
use dr_metrix.Redis.Collect.Task.{round_reading, read-collect}
use dr_metrix.Redis.Collect.Writes.{
  Write, sets, observes, apply_all, db_writes, info_writes, reply_writes, poll_writes, polls_writes,
  series_of, write_reading, writes_reading, apply_all-append, read-apply_all, collect-writes,
}
use dr_metrix.Examples.Routes.{arc, AppState, RedisPool, World}
use dr_metrix.Examples.Routes.Counters.{Route, incr, decr, Request, handle_all}
use dr_metrix.Examples.Routes.Counters.Effects.{noted, handled, handle_runs}
use dr_metrix.Examples.Routes.Counters.Answers.{command_series, timings, same_route}
use Elsewhere.{
  Shuffle, requests_writes, left_only, right_only, polls_writes-Elsewhere,
  requests_writes-Elsewhere, requests-timings,
}

module _ {F : Type 0} (E : Type 0) (floats : Floats F) (redis : RedisPool)
    (c : Client RedisMetric F) (lawful : IsLawful arity c) (state : AppState) where
  collected-writes :
      (polls : List Poll) (s : c.State)
      → collected (collect {E = E} floats c) polls s ≡ apply_all c (polls_writes floats polls) s
  unfolding collected
  collected-writes [] s = refl
  collected-writes (poll ∷ polls) s =
      collected-writes polls _
      ∙ ap (apply_all c (polls_writes floats polls)) (collect-writes E floats c lawful poll s)
      ∙ sym (apply_all-append c (poll_writes floats poll) (polls_writes floats polls) s)

  handled-writes :
      (qs : List (Request F)) (w : World redis.State c.State)
      → state.redis_pool ≡ some arc
      → state.redis_metrics ≡ some arc
      → (handle_all {E = E} redis c state qs w).1.metrics
        ≡ apply_all c (requests_writes qs) w.metrics
  unfolding handle_all noted
  handled-writes [] w p m = refl
  handled-writes (q ∷ qs) w p m =
      rw (handle_runs redis c lawful state {E = E} q.route q.key q.elapsed w p) (
        ap (λ done. done.metrics) (state-pure _ (handle_all {E = E} redis c state qs) _)
        ∙ handled-writes qs _ p m
        ∙ rw m refl)

  -- The polls and the counter requests are sequences of writes to single series, where the pool and the metrics are
  -- configured; and when these are carried out in any order that keeps the order of the polls' and that of the
  -- requests' writes, as threads may have them, every series of another metric than the durations shows what the
  -- polls say, one after the other, and the durations are those of the requests.
  -- The client library is assumed to do what it documents.
  pub any_interleaving :
      (polls : List Poll) (qs : List (Request F)) (ws : List (Write F))
      (w : World redis.State c.State) (m : RedisMetric) (ls : List Str) (route : Route)
      (xs : List F)
      → state.redis_pool ≡ some arc
      → state.redis_metrics ≡ some arc
      → Shuffle (polls_writes floats polls) (requests_writes qs) ws
      → m ≢ command_duration_seconds
      → c.read w.metrics (command_series route) ≡ samples xs
      → let k : Series RedisMetric = record { metric = m; labels = ls } in
        (collected (collect {E = E} floats c) polls w.metrics
          ≡ apply_all c (polls_writes floats polls) w.metrics)
        × ((handle_all {E = E} redis c state qs w).1.metrics
            ≡ apply_all c (requests_writes qs) w.metrics)
        × (c.read (apply_all c ws w.metrics) k
            ≡ replayed (round_reading floats) polls k (c.read w.metrics k))
        × (c.read (apply_all c ws w.metrics) (command_series route) ≡ samples (timings route qs xs))
  any_interleaving polls qs ws w m ls route xs pool configured p h start =
      let k : Series RedisMetric = record { metric = m; labels = ls } in
      let polled = collected-writes polls w.metrics in
      (
        polled,
        handled-writes qs w pool configured,
        read-apply_all c lawful ws k w.metrics
            ∙ left_only k _ p (requests_writes-Elsewhere m ls qs h)
            ∙ sym (read-apply_all c lawful (polls_writes floats polls) k w.metrics)
            ∙ ap (λ s. c.read s k) (sym polled)
            ∙ read-collected (collect {E = E} floats c) c.read (round_reading floats)
                (read-collect E floats c lawful) polls w.metrics k,
        read-apply_all c lawful ws (command_series route) w.metrics
            ∙ right_only (command_series route) _ p (polls_writes-Elsewhere F floats route polls)
            ∙ ap (writes_reading (requests_writes qs) (command_series route)) start
            ∙ requests-timings route qs xs,
      )
