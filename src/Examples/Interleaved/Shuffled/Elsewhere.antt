-- ===== src/Examples/Interleaved/Shuffled/Elsewhere.antt =====
-- Shuffles of writes, of which one user's leave the series of the other alone.
use dr_metrix.Prelude.{
  ◌≡◌, ◌≢◌, refl, ap, ◌∙◌, false, Option, none, some, List, [], ◌∷◌, ◌++◌, All, if◌then◌else◌, ◌==◌,
  list_beq, nat_eq, list_eq,
}
use dr_metrix.Std.{Str, Floats}
use dr_metrix.Core.Metrics.{Reading, samples, Series, series_eq}
use dr_metrix.Redis.Info.{RedisInfo, KeyspaceEntry, parse_info}
use dr_metrix.Redis.Fields.{RedisMetric, redis_metric_eq, command_duration_seconds}
use dr_metrix.Redis.Collect.{Reply, text, failure, Poll}
use dr_metrix.Redis.Collect.Writes.{
  Write, sets, observes, db_writes, info_writes, reply_writes, poll_writes, polls_writes, series_of,
  write_reading, writes_reading,
}
use dr_metrix.Examples.Routes.Counters.{Route, incr, decr, Request}
use dr_metrix.Examples.Routes.Counters.Answers.{command_series, timings, same_route}

-- A sequence made of two, each in its order.
pub data Shuffle {A : Type 0} : List A → List A → List A → Type 0 where
  done : Shuffle [] [] []
  left : {x : A} {xs ys zs : List A} → Shuffle xs ys zs → Shuffle (x ∷ xs) ys (x ∷ zs)
  right : {y : A} {xs ys zs : List A} → Shuffle xs ys zs → Shuffle xs (y ∷ ys) (y ∷ zs)

module _ {F : Type 0} where
  -- The writes of requests.
  abbrev pub requests_writes : List (Request F) → List (Write F)
  requests_writes [] = []
  requests_writes (q ∷ qs) = observes (command_series q.route) q.elapsed ∷ requests_writes qs

  -- The writes leave a series alone.
  abbrev pub Elsewhere : Series RedisMetric → List (Write F) → Type 0
  Elsewhere k ws = All (λ w. (series_of w == k) ≡ false) ws

  Elsewhere-append :
      (k : Series RedisMetric) (ws more : List (Write F))
      → Elsewhere k ws
      → Elsewhere k more
      → Elsewhere k (ws ++ more)
  Elsewhere-append k [] more h h' = h'
  Elsewhere-append k (w ∷ ws) more (h, hs) h' = (h, Elsewhere-append k ws more hs h')

  write_reading-kept :
      (w : Write F) (k : Series RedisMetric) (r : Reading F)
      → (series_of w == k) ≡ false
      → write_reading w k r ≡ r
  write_reading-kept (sets l v) k r h = rw h refl
  write_reading-kept (observes l x) k r h = rw h refl

  -- In a shuffle, the writes elsewhere do not count.
  pub left_only :
      (k : Series RedisMetric) {xs ys zs : List (Write F)} (r : Reading F)
      → Shuffle xs ys zs
      → Elsewhere k ys
      → writes_reading zs k r ≡ writes_reading xs k r
  left_only k r done h = refl
  left_only k r (left {x = x} p) h = left_only k (write_reading x k r) p h
  left_only k r (right {y = y} {zs = zs} p) (h, hs) =
      ap (writes_reading zs k) (write_reading-kept y k r h) ∙ left_only k r p hs

  pub right_only :
      (k : Series RedisMetric) {xs ys zs : List (Write F)} (r : Reading F)
      → Shuffle xs ys zs
      → Elsewhere k xs
      → writes_reading zs k r ≡ writes_reading ys k r
  right_only k r done h = refl
  right_only k r (right {y = y} p) h = right_only k (write_reading y k r) p h
  right_only k r (left {x = x} {zs = zs} p) (h, hs) =
      ap (writes_reading zs k) (write_reading-kept x k r h) ∙ right_only k r p hs

  pub requests_writes-Elsewhere :
      (m : RedisMetric) (ls : List Str) (qs : List (Request F))
      → m ≢ command_duration_seconds
      → Elsewhere (record { metric = m; labels = ls }) (requests_writes qs)
  requests_writes-Elsewhere m ls [] h = tt
  requests_writes-Elsewhere m ls (q ∷ qs) h = (elsewhere m h, requests_writes-Elsewhere m ls qs h)
    where
      elsewhere :
          (m : RedisMetric)
          → m ≢ command_duration_seconds
          → (command_series q.route == record { metric = m; labels = ls }) ≡ false
      elsewhere command_duration_seconds h = absurd (h refl)
      elsewhere _ h = refl

  timing :
      (asked route : Route) (elapsed : F) (xs : List F)
      → write_reading (observes (command_series asked) elapsed) (command_series route) (samples xs)
        ≡ samples (if same_route asked route then elapsed ∷ xs else xs)
  unfolding same_route list_beq
  timing incr incr elapsed xs = refl
  timing incr decr elapsed xs = refl
  timing decr incr elapsed xs = refl
  timing decr decr elapsed xs = refl

  pub requests-timings :
      (route : Route) (qs : List (Request F)) (xs : List F)
      → writes_reading (requests_writes qs) (command_series route) (samples xs)
        ≡ samples (timings route qs xs)
  unfolding timings
  requests-timings route [] xs = refl
  requests-timings route (q ∷ qs) xs =
      ap (writes_reading (requests_writes qs) (command_series route))
        (timing q.route route q.elapsed xs)
      ∙ requests-timings route qs _

module _ (F : Type 0) where
  db_writes-Elsewhere :
      (route : Route) (es : List KeyspaceEntry)
      → Elsewhere (command_series route) (db_writes {F = F} es)
  db_writes-Elsewhere route [] = tt
  db_writes-Elsewhere route ((db, keys, expires) ∷ es) =
      (refl, (refl, db_writes-Elsewhere route es))

  info_writes-Elsewhere :
      (route : Route) (info : Option (RedisInfo F))
      → Elsewhere (command_series route) (info_writes info)
  info_writes-Elsewhere route none = tt
  info_writes-Elsewhere route (some info) = (
    refl,
    (
      refl,
      (
        refl,
        (
          refl,
          (
            refl,
            (refl, (refl, (refl, (refl, (refl, (refl, db_writes-Elsewhere route info.keyspace)))))),
          ),
        ),
      ),
    ),
  )

  pub polls_writes-Elsewhere :
      (floats : Floats F) (route : Route) (polls : List Poll)
      → Elsewhere (command_series route) (polls_writes floats polls)
  polls_writes-Elsewhere floats route [] = tt
  polls_writes-Elsewhere floats route (poll ∷ polls) =
      Elsewhere-append (command_series route) (poll_writes floats poll) (polls_writes floats polls)
        (refl, by_reply poll.info) (polls_writes-Elsewhere floats route polls)
    where
      by_reply : (reply : Reply) → Elsewhere (command_series route) (reply_writes floats reply)
      by_reply (text raw) = info_writes-Elsewhere route (parse_info floats raw)
      by_reply (failure message) = tt
