-- ===== src/Examples/Interleaved.antt =====
-- examples/src/main.rs: the Redis metrics have two users at once. The background task of the collector sets them at
-- every tick, and the counter routes, which hold a clone of the same handles, observe their commands in them. Ticks
-- and requests come in any order.
pub mod Shuffled
use dr_metrix.Prelude.{
  ℕ, ◌≡◌, ◌≢◌, refl, ap, ◌∙◌, Option, none, some, List, [], ◌∷◌, nat_eq, list_eq,
}
use dr_metrix.Std.{Str, Floats}
use dr_metrix.Core.Metrics.{Client, IsLawful, Reading, samples, Series, series_eq}
use dr_metrix.Core.Collector.Loop.{Task, waiting, ended, rounds, rounds_next, replayed}
use dr_metrix.Redis.Info.{RedisInfo, parse_info}
use dr_metrix.Redis.Fields.{RedisMetric, redis_metric_eq, arity, command_duration_seconds}
use dr_metrix.Redis.Collect.{Reply, text, failure, Poll, collect}
use dr_metrix.Redis.Collect.Readings.{
  collected_reading, db_reading, last_entry, figure, collect_no_panic,
}
use dr_metrix.Redis.Collect.Task.{round_reading, read-collect}
use dr_metrix.Examples.Routes.{Arc, arc, AppState, RedisPool, World}
use dr_metrix.Examples.Routes.Counters.{Route, Request, sent, handle, route_name}
use dr_metrix.Examples.Routes.Counters.Effects.{noted, handled, handle_runs}
use dr_metrix.Examples.Routes.Counters.Answers.{command_series, timings, read-noted}

-- A tick of the task, with what the pool then answers, or a request for a counter.
pub data Event (F : Type 0) : Type 0 where
  ticks : Poll → Event F
  asks : Request F → Event F

module _ {F : Type 0} where
  abbrev pub polls : List (Event F) → List Poll
  polls [] = []
  polls (ticks poll ∷ es) = poll ∷ polls es
  polls (asks q ∷ es) = polls es

  abbrev pub requests : List (Event F) → List (Request F)
  requests [] = []
  requests (ticks poll ∷ es) = requests es
  requests (asks q ∷ es) = q ∷ requests es

-- The server behind requests that are sent to it one after the other.
pub server_after : {F : Type 0} (redis : RedisPool) → List (Request F) → redis.State → redis.State
server_after redis [] s = s
server_after redis (q ∷ qs) s = server_after redis qs (sent redis q.route q.key s).1

-- The task, and the server and the metrics that it shares with the routes.
abbrev pub System : {F : Type 0} → RedisPool → Client RedisMetric F → Type 0
System redis c = Task × World redis.State c.State

module _ {F : Type 0} (E : Type 0) (floats : Floats F) (redis : RedisPool)
    (c : Client RedisMetric F) (state : AppState) where
  -- A tick is one round of the loop, unless a panic has ended it.
  unfoldable pub tick : Poll → System redis c → System redis c
  tick poll (waiting, w) =
      let (task, metrics) = rounds (collect {E = E} floats c) (poll ∷ []) w.metrics in
      (task, record w { metrics = metrics })
  tick poll (ended, w) = (ended, w)

  unfoldable pub happens : Event F → System redis c → System redis c
  happens (ticks poll) s = tick poll s
  happens (asks q) (task, w) = (task, (handle {E = E} redis c state q.route q.key q.elapsed w).1)

  unfoldable pub happen_all : List (Event F) → System redis c → System redis c
  happen_all [] s = s
  happen_all (e ∷ es) s = happen_all es (happens e s)

collected_reading-duration :
    {F : Type 0} (size : ℕ) (info : RedisInfo F) (ls : List Str) (old : Reading F)
    → collected_reading size info command_duration_seconds ls old ≡ old
unfolding collected_reading db_reading last_entry figure
collected_reading-duration size info [] old = refl
collected_reading-duration size info (l ∷ ls) old = refl

round_reading-duration :
    {F : Type 0} (floats : Floats F) (poll : Poll) (ls : List Str) (old : Reading F)
    → round_reading floats poll (record { metric = command_duration_seconds; labels = ls }) old
      ≡ old
round_reading-duration floats poll ls old = by_reply poll.size poll.info
  where
    by_info :
        (size : ℕ) (raw : Str) (info : Option (RedisInfo _))
        → parse_info floats raw ≡ info
        → round_reading floats
            (record { size = size; info = text raw })
            (record { metric = command_duration_seconds; labels = ls })
            old
          ≡ old
    by_info size raw none e = rw e refl
    by_info size raw (some info) e = rw e (collected_reading-duration size info ls old)

    by_reply :
        (size : ℕ) (reply : Reply)
        → round_reading floats
            (record { size = size; info = reply })
            (record { metric = command_duration_seconds; labels = ls })
            old
          ≡ old
    by_reply size (text raw) = by_info size raw (parse_info floats raw) refl
    by_reply size (failure message) = refl

module _ {F : Type 0} (E : Type 0) (floats : Floats F) (redis : RedisPool)
    (c : Client RedisMetric F) (lawful : IsLawful arity c) (state : AppState) where
  read-noted_other :
      (o : Option Arc) (route : Route) (elapsed : F) (m : RedisMetric) (ls : List Str) (s : c.State)
      → m ≢ command_duration_seconds
      → c.read (noted redis c lawful state o route elapsed s) (record { metric = m; labels = ls })
        ≡ c.read s (record { metric = m; labels = ls })
  unfolding noted
  read-noted_other none route elapsed m ls s h = refl
  read-noted_other (some a) route elapsed command_duration_seconds ls s h = absurd (h refl)
  read-noted_other (some a) route elapsed _ ls s h = simp lawful.read-observe

  tick_runs :
      (poll : Poll) (w : World redis.State c.State)
      → tick E floats redis c state poll (waiting, w)
        ≡ (waiting, record w { metrics = (collect {E = E} floats c poll w.metrics).1 })
  unfolding tick rounds
  tick_runs poll w =
      rw
        (rounds_next (collect {E = E} floats c) poll [] w.metrics
          (collect_no_panic E floats c lawful poll w.metrics))
        refl

  -- Where the pool is configured.
  asks_runs :
      (q : Request F) (task : Task) (w : World redis.State c.State)
      → state.redis_pool ≡ some arc
      → happens E floats redis c state (asks q) (task, w)
        ≡ (task, (handled redis c lawful state q.route q.key q.elapsed w).1)
  unfolding happens
  asks_runs q task w p =
      rw (handle_runs redis c lawful state {E = E} q.route q.key q.elapsed w p) refl

  -- Whatever ticks and counter requests come, in whatever order, where the pool and the metrics are configured: the
  -- task goes on; every series of another metric than the durations of the commands shows what the polls
  -- say, as if there had been no requests; the durations are those of the requests, as if there had been
  -- no ticks; and the server behind the pool is as the requests alone leave it.
  -- The client library is assumed to do what it documents.
  pub users_do_not_interfere :
      (es : List (Event F)) (w : World redis.State c.State) (m : RedisMetric) (ls : List Str)
      (route : Route) (xs : List F)
      → state.redis_pool ≡ some arc
      → state.redis_metrics ≡ some arc
      → m ≢ command_duration_seconds
      → c.read w.metrics (command_series route) ≡ samples xs
      → let (task, u) = happen_all E floats redis c state es (waiting, w) in
        let k : Series RedisMetric = record { metric = m; labels = ls } in
        (task ≡ waiting)
        × (c.read u.metrics k ≡ replayed (round_reading floats) (polls es) k (c.read w.metrics k))
        × (c.read u.metrics (command_series route) ≡ samples (timings route (requests es) xs))
        × (u.server ≡ server_after redis (requests es) w.server)
  unfolding happen_all happens server_after timings
  users_do_not_interfere [] w m ls route xs p r ne h = (refl, refl, h, refl)
  users_do_not_interfere (ticks poll ∷ es) w m ls route xs p r ne h =
      let k : Series RedisMetric = record { metric = m; labels = ls } in
      let metrics = (collect {E = E} floats c poll w.metrics).1 in
      let kept =
        read-collect E floats c lawful poll w.metrics (command_series route)
        ∙ round_reading-duration floats poll (route_name route ∷ []) _
        ∙ h in
      let (goes_on, reads, times, server) =
        users_do_not_interfere es (record w { metrics = metrics }) m ls route xs p r ne kept in
      rw (happen_all, tick_runs poll w)
        (
          goes_on,
          reads
              ∙ ap (replayed (round_reading floats) (polls es) k)
                  (read-collect E floats c lawful poll w.metrics k),
          times,
          server,
        )
  users_do_not_interfere (asks q ∷ es) w m ls route xs p r ne h =
      let k : Series RedisMetric = record { metric = m; labels = ls } in
      let noted_times =
        read-noted E redis c lawful state state.redis_metrics q.route route q.elapsed xs w.metrics r
          h in
      let (goes_on, reads, times, server) =
        users_do_not_interfere es (handled redis c lawful state q.route q.key q.elapsed w).1 m ls
          route _ p r ne noted_times in
      rw (happen_all, asks_runs q waiting w p)
        (
          goes_on,
          reads
              ∙ ap (replayed (round_reading floats) (polls es) k)
                  (read-noted_other state.redis_metrics q.route q.elapsed m ls w.metrics ne),
          times,
          server,
        )
