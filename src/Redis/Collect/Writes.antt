-- ===== src/Redis/Collect/Writes.antt =====
-- A collection as the writes to single series that it makes, one at a time, in the order of the code.
use dr_metrix.Prelude.{
  ℕ, ◌≡◌, refl, ap, ◌∙◌, List, [], ◌∷◌, ◌++◌, Option, none, some, pos, wrap_i64, if◌then◌else◌,
  ◌==◌, nat_eq, list_eq,
}
use dr_metrix.Std.{Floats}
use dr_metrix.Core.Exec.{ok, for_each, for_each-fold}
use dr_metrix.Core.Metrics.{Client, IsLawful, Reading, int, float, observed, Series, series_eq}
use dr_metrix.Redis.Info.{RedisInfo, KeyspaceEntry, parse_info}
use dr_metrix.Redis.Info.Safety.{parse_info_total}
use dr_metrix.Redis.Fields.{
  RedisMetric, redis_metric_eq, arity, pool_connections, connected_clients, blocked_clients,
  used_memory_bytes, used_memory_rss, mem_fragmentation_ratio, keyspace_hits, keyspace_misses,
  evicted_keys, total_commands_processed, db_keys, db_expires, replication_offset, connected_slaves,
}
use dr_metrix.Redis.Collect.{Reply, text, failure, Poll, db_label, set_db, set_info, collect}
use dr_metrix.Redis.Collect.Readings.{db_state, set_db_runs}

pub data Write (F : Type 0) : Type 0 where
  sets : Series RedisMetric → Reading F → Write F
  observes : Series RedisMetric → F → Write F

module _ {F : Type 0} (c : Client RedisMetric F) where
  abbrev pub apply : Write F → c.State → c.State
  apply (sets k v) = c.set k v
  apply (observes k x) = c.observe k x

  abbrev pub apply_all : List (Write F) → c.State → c.State
  apply_all [] s = s
  apply_all (w ∷ ws) s = apply_all ws (apply w s)

module _ {F : Type 0} where
  abbrev sets_plain : RedisMetric → Reading F → Write F
  sets_plain m v = sets (record { metric = m; labels = [] }) v

  abbrev pub db_writes : List KeyspaceEntry → List (Write F)
  db_writes [] = []
  db_writes ((db, keys, expires) ∷ es) =
      sets (record { metric = db_keys; labels = db_label db ∷ [] }) (int keys)
      ∷ sets (record { metric = db_expires; labels = db_label db ∷ [] }) (int expires)
      ∷ db_writes es

  abbrev pub info_writes : Option (RedisInfo F) → List (Write F)
  info_writes none = []
  info_writes (some info) =
      sets_plain connected_clients (int info.connected_clients)
      ∷ sets_plain blocked_clients (int info.blocked_clients)
      ∷ sets_plain used_memory_bytes (int info.used_memory)
      ∷ sets_plain used_memory_rss (int info.used_memory_rss)
      ∷ sets_plain mem_fragmentation_ratio (float info.mem_fragmentation_ratio)
      ∷ sets_plain keyspace_hits (int info.keyspace_hits)
      ∷ sets_plain keyspace_misses (int info.keyspace_misses)
      ∷ sets_plain evicted_keys (int info.evicted_keys)
      ∷ sets_plain total_commands_processed (int info.total_commands_processed)
      ∷ sets_plain replication_offset (int info.replication_offset)
      ∷ sets_plain connected_slaves (int info.connected_slaves)
      ∷ db_writes info.keyspace

  abbrev pub reply_writes : Floats F → Reply → List (Write F)
  reply_writes floats (text raw) = info_writes (parse_info floats raw)
  reply_writes floats (failure message) = []

  -- The writes of one round.
  abbrev pub poll_writes : Floats F → Poll → List (Write F)
  poll_writes floats poll =
      sets_plain pool_connections (int (wrap_i64 (pos poll.size))) ∷ reply_writes floats poll.info

  abbrev pub polls_writes : Floats F → List Poll → List (Write F)
  polls_writes floats [] = []
  polls_writes floats (poll ∷ polls) = poll_writes floats poll ++ polls_writes floats polls

  abbrev pub series_of : Write F → Series RedisMetric
  series_of (sets k v) = k
  series_of (observes k x) = k

  -- What writes make of the reading of a series.
  abbrev pub write_reading : Write F → Series RedisMetric → Reading F → Reading F
  write_reading (sets l v) k r = if l == k then v else r
  write_reading (observes l x) k r = if l == k then observed x r else r

  abbrev pub writes_reading : List (Write F) → Series RedisMetric → Reading F → Reading F
  writes_reading [] k r = r
  writes_reading (w ∷ ws) k r = writes_reading ws k (write_reading w k r)

module _ {F : Type 0} (c : Client RedisMetric F) where
  pub apply_all-append :
      (ws more : List (Write F)) (s : c.State)
      → apply_all c (ws ++ more) s ≡ apply_all c more (apply_all c ws s)
  apply_all-append [] more s = refl
  apply_all-append (w ∷ ws) more s = apply_all-append ws more (apply c w s)

module _ {F : Type 0} (c : Client RedisMetric F) (lawful : IsLawful arity c) where
  pub read-apply_all :
      (ws : List (Write F)) (k : Series RedisMetric) (s : c.State)
      → c.read (apply_all c ws s) k ≡ writes_reading ws k (c.read s k)
  read-apply_all [] k s = refl
  read-apply_all (sets l v ∷ ws) k s =
      read-apply_all ws k (c.set l v s) ∙ ap (writes_reading ws k) (lawful.read-set l k v s)
  read-apply_all (observes l x ∷ ws) k s =
      read-apply_all ws k (c.observe l x s) ∙ ap (writes_reading ws k) (lawful.read-observe l k x s)

  set_dbs-writes :
      {E : Type 0} (es : List KeyspaceEntry) (s : c.State)
      → for_each (set_db {E = E} c) es s ≡ (ok tt, apply_all c (db_writes es) s)
  set_dbs-writes =
      for_each-fold (set_db c) (db_state c) (set_db_runs c lawful)
        (λ es. apply_all c (db_writes es)) (λ s. refl) (λ x xs s. refl)

  set_info-writes :
      {E : Type 0} (info : RedisInfo F) (s : c.State)
      → set_info {E = E} c info s ≡ (ok tt, apply_all c (info_writes (some info)) s)
  unfolding set_info
  set_info-writes info s = set_dbs-writes info.keyspace _

module _ {F : Type 0} (E : Type 0) (floats : Floats F) (c : Client RedisMetric F)
    (lawful : IsLawful arity c) where
  -- A collection makes these writes, whatever the pool answers.
  pub collect-writes :
      (poll : Poll) (s : c.State)
      → (collect {E = E} floats c poll s).1 ≡ apply_all c (poll_writes floats poll) s
  unfolding collect
  collect-writes poll s = by_reply poll.size poll.info
    where
      by_reply :
          (size : ℕ) (reply : Reply)
          → (collect {E = E} floats c (record { size = size; info = reply }) s).1
            ≡ apply_all c (poll_writes floats (record { size = size; info = reply })) s
      by_reply size (text raw) =
          let (info, parsed) = parse_info_total floats raw in
          rw
            (
              parsed,
              set_info-writes c lawful {E = E} info (
                  c.set (record { metric = pool_connections; labels = [] })
                    (int (wrap_i64 (pos size))) s),
            )
            refl
      by_reply size (failure message) = refl
