-- ===== src/Tests/Interleaved.antt =====
-- Tests of the Redis metrics with their two users.
use dr_metrix.Prelude.{◌≡◌, refl, Bool, true, false, [], ◌∷◌, List, ◌++◌}
use dr_metrix.Std.{codes}
use dr_metrix.Core.Metrics.{Series, samples, memory_client-IsLawful}
use dr_metrix.Core.Collector.Loop.{waiting, replayed}
use dr_metrix.Redis.Fields as Redis
use dr_metrix.Redis.Fields.{RedisMetric, redis_metric_eq, used_memory_bytes}
use dr_metrix.Redis.Collect.{text, failure}
use dr_metrix.Redis.Collect.Task.{round_reading}
use dr_metrix.Examples.Routes.Counters.{incr, decr}
use dr_metrix.Examples.Routes.Counters.Answers.{command_series, timings}
use dr_metrix.Examples.Interleaved.{
  Event, ticks, asks, polls, requests, server_after, happen_all, users_do_not_interfere,
}
use dr_metrix.Core.Collector.Loop.{collected}
use dr_metrix.Redis.Collect.{collect, Poll}
use dr_metrix.Redis.Collect.Writes.{Write, apply_all, polls_writes}
use dr_metrix.Examples.Routes.Counters.{Request, handle_all}
use dr_metrix.Examples.Interleaved.Shuffled.{any_interleaving}
use dr_metrix.Examples.Interleaved.Shuffled.Elsewhere.{done, left, right, requests_writes}
use dr_metrix.Tests.Fixtures.{floats}
use dr_metrix.Tests.Examples.{pool, metrics, state, world}

-- A request, a tick that is answered, another request, and a tick that is not.
abbrev events : List (Event Bool)
events =
    asks (record { route = incr; key = codes "hits"; elapsed = true })
    ∷ ticks (record { size = 3; info = text (codes "used_memory:7") })
    ∷ asks (record { route = decr; key = codes "hits"; elapsed = false })
    ∷ ticks (record { size = 3; info = failure (codes "gone") })
    ∷ []

abbrev used : Series RedisMetric
used = record { metric = used_memory_bytes; labels = [] }

users_do_not_interfere_example :
    let (task, u) = happen_all (Unit {0}) floats pool metrics state events (waiting, world) in
    (task ≡ waiting)
    × (metrics.read u.metrics used
        ≡ replayed (round_reading floats) (polls events) used (metrics.read world.metrics used))
    × (metrics.read u.metrics (command_series incr) ≡ samples (timings incr (requests events) []))
    × (u.server ≡ server_after pool (requests events) world.server)
users_do_not_interfere_example =
    users_do_not_interfere Unit floats pool metrics (memory_client-IsLawful Redis.arity) state
      events world used_memory_bytes [] incr [] refl refl (λ e. cc) refl

-- A tick that only sets the size of the pool, and a request; the request is first.
abbrev failed : List Poll
failed = record { size = 3; info = failure (codes "gone") } ∷ []

abbrev asked : List (Request Bool)
asked = record { route = incr; key = codes "hits"; elapsed = true } ∷ []

abbrev shuffled : List (Write Bool)
shuffled = requests_writes asked ++ polls_writes floats failed

any_interleaving_example :
    (collected (collect {E = Unit {0}} floats metrics) failed world.metrics
      ≡ apply_all metrics (polls_writes floats failed) world.metrics)
    × ((handle_all {E = Unit {0}} pool metrics state asked world).1.metrics
        ≡ apply_all metrics (requests_writes asked) world.metrics)
    × (metrics.read (apply_all metrics shuffled world.metrics) used
        ≡ replayed (round_reading floats) failed used (metrics.read world.metrics used))
    × (metrics.read (apply_all metrics shuffled world.metrics) (command_series incr)
        ≡ samples (timings incr asked []))
any_interleaving_example =
    any_interleaving Unit floats pool metrics (memory_client-IsLawful Redis.arity) state failed
      asked shuffled world used_memory_bytes [] incr [] refl refl (right (left done)) (λ e. cc) refl
