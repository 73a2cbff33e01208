-- ===== src/Redis/Collect/Task.antt =====
-- The background task of the Redis collector.
use dr_metrix.Prelude.{
  ℕ, ◌≡◌, refl, Bool, true, List, Option, none, some, pos, wrap_i64, if◌then◌else◌, ◌==◌,
}
use dr_metrix.Std.{Floats}
use dr_metrix.Core.Metrics.{Client, IsLawful, Reading, int, Series, series_eq}
use dr_metrix.Core.Collector.Loop.{
  waiting, collect_loop, collect_loop_survives, replayed, read-collected,
}
use dr_metrix.Redis.Info.{RedisInfo, parse_info}
use dr_metrix.Redis.Fields.{RedisMetric, redis_metric_eq, arity}
use dr_metrix.Redis.Collect.{Reply, text, failure, Poll, collect}
use dr_metrix.Redis.Collect.Readings.{
  collected_reading, pool_series, collect-text, collect-failure, collect_no_panic,
}

-- What one round makes of a reading.
abbrev parsed_reading :
    {F : Type 0} → ℕ → Option (RedisInfo F) → Series RedisMetric → Reading F → Reading F
parsed_reading size none k old = old
parsed_reading size (some info) k old = collected_reading size info k.metric k.labels old

abbrev reply_reading :
    {F : Type 0} → Floats F → ℕ → Reply → Series RedisMetric → Reading F → Reading F
reply_reading floats size (text raw) k old = parsed_reading size (parse_info floats raw) k old
reply_reading floats size (failure message) k old =
    if pool_series == k then int (wrap_i64 (pos size)) else old

abbrev pub round_reading :
    {F : Type 0} → Floats F → Poll → Series RedisMetric → Reading F → Reading F
round_reading floats poll k old = reply_reading floats poll.size poll.info k old

module _ {F : Type 0} (E : Type 0) (floats : Floats F) (c : Client RedisMetric F)
    (lawful : IsLawful arity c) where
  pub read-collect :
      (poll : Poll) (s : c.State) (k : Series RedisMetric)
      → c.read (collect {E = E} floats c poll s).1 k ≡ round_reading floats poll k (c.read s k)
  read-collect poll s k = by_reply poll.size poll.info
    where
      by_reply :
          (size : ℕ) (reply : Reply)
          → c.read (collect {E = E} floats c (record { size = size; info = reply }) s).1 k
            ≡ reply_reading floats size reply k (c.read s k)
      by_reply size (text raw) =
          let (info, parsed, _, shows) = collect-text E floats c lawful size raw s in
          rw parsed (shows k.metric k.labels)
      by_reply size (failure message) =
          let (_, shows) = collect-failure E floats c lawful size message s in shows k

  -- The task of the Redis collector never ends, whatever the server answers, if the period is accepted: after
  -- any number of ticks every series shows what the answers say of it, one after the other, where a failed
  -- answer changes nothing but the size of the pool.
  -- The client library is assumed to do what it documents.
  pub task_replays :
      (accepts_period : ℕ → Bool) (interval : ℕ) (polls : List Poll) (s : c.State)
      → accepts_period interval ≡ true
      → let done = collect_loop (collect {E = E} floats c) accepts_period interval polls s in
        (done.0 ≡ waiting)
        × ((k : Series RedisMetric)
            → c.read done.1 k ≡ replayed (round_reading floats) polls k (c.read s k))
  task_replays accepts_period interval polls s e =
      rw
        (collect_loop_survives (collect {E = E} floats c) accepts_period interval e
          (collect_no_panic E floats c lawful) polls s)
        (
          refl,
          read-collected (collect {E = E} floats c) c.read (round_reading floats) read-collect polls
              s,
        )
