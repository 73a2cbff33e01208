-- ===== src/Tests/Mongo.antt =====
-- Tests of the MongoDB collector.
use dr_metrix.Prelude.{◌≡◌, refl, Bool, true, false, List, [], ◌∷◌, ℤ, pos, if◌then◌else◌}
use dr_metrix.Std.{Str, codes}
use dr_metrix.Core.Exec.{ok, panicked}
use dr_metrix.Core.Metrics.{Client, Series, int, memory_client, memory_client-IsLawful}
use dr_metrix.Mongo.Fields.{MongoMetric, mongo_metric_eq, arity}
use dr_metrix.Mongo.Collect.{Reply, document, failure, collect}
use dr_metrix.Mongo.Task.{any_fatal, round_reading, task_ends, statuses_replayed}
use dr_metrix.Core.Collector.Loop.{waiting, ended, collect_loop, replayed}
use dr_metrix.Mongo.Collect.Readings.{status_reading}
use dr_metrix.Mongo.Outcomes.{collect-document}
use dr_metrix.Mongo.Builds.{status_overflows, builds_agree}
use dr_metrix.Tests.Fixtures.{docs}

abbrev status : List (Str × ℤ)
status = (codes "connections.current", pos 7) ∷ (codes "mem.resident", pos 9_000_000_000_000) ∷ []

abbrev client : Client MongoMetric Bool
client = memory_client arity

-- A figure that overflows, and a failing command.
abbrev replies : List (Reply docs.Document)
replies = document status ∷ failure (codes "gone") ∷ []

abbrev nothing : client.State
nothing s = int (pos 0)

collect-document_example :
    let done = collect {E = Unit {0}} docs false client (document status) nothing in
    (done.0 ≡ ok tt)
    × ((m : MongoMetric) (ls : List Str)
        → client.read done.1 (record { metric = m; labels = ls })
          ≡ status_reading docs status m ls (int (pos 0)))
collect-document_example =
    collect-document Unit docs client (memory_client-IsLawful arity) status nothing

builds_agree_example :
    let checked = collect {E = Unit {0}} docs true client (document status) nothing in
    checked ≡ (
      if status_overflows docs (docs.get_document status (codes "mem"))
      then (panicked, checked.1)
      else collect {E = Unit {0}} docs false client (document status) nothing)
builds_agree_example = builds_agree Unit docs client (memory_client-IsLawful arity) status nothing

task_ends_example :
    (collect_loop (collect {E = Unit {0}} docs true client) (λ n. true) 15 replies nothing).0
    ≡ (if any_fatal docs true replies then ended else waiting)
task_ends_example =
    task_ends Unit docs client (memory_client-IsLawful arity) true (λ n. true) 15 replies nothing
      refl

statuses_replayed_example :
    let done =
      collect_loop (collect {E = Unit {0}} docs false client) (λ n. true) 15 replies nothing in
    (done.0 ≡ waiting)
    × ((k : Series MongoMetric)
        → client.read done.1 k ≡ replayed (round_reading docs) replies k (int (pos 0)))
statuses_replayed_example =
    statuses_replayed Unit docs client (memory_client-IsLawful arity) (λ n. true) 15 replies nothing
      refl
