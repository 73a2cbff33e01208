-- ===== src/Redis/Collect.antt =====
-- dr-metrix-redis/src/metrics.rs: the collector. The pool is given by what it answers.
pub mod Readings
pub mod Task
pub mod Writes
pub mod Databases
use dr_metrix.Prelude.{ℕ, ◌≡◌, Bool, List, [], ◌∷◌, ◌++◌, Option, none, some, ℤ, pos, wrap_i64}
use dr_metrix.Std.{Str, codes, print_nat, Floats}
use dr_metrix.Core.Error.{database}
use dr_metrix.Core.Exec.{Exec, ◌>>=◌, ◌>>◌, pure, throw, or_panic, for_each}
use dr_metrix.Core.Metrics.{Client, set_gauge, set_float_gauge, set_labelled, observe_labelled}
use dr_metrix.Redis.Info.{RedisInfo, KeyspaceEntry, parse_info}
use dr_metrix.Redis.Fields.{
  RedisMetric, pool_connections, connected_clients, blocked_clients, used_memory_bytes,
  used_memory_rss, mem_fragmentation_ratio, keyspace_hits, keyspace_misses, evicted_keys,
  total_commands_processed, db_keys, db_expires, replication_offset, connected_slaves,
  command_duration_seconds,
}

-- What the server answers to `INFO ALL`: a text, or an error with the text that it displays.
pub data Reply : Type 0 where
  text : Str → Reply
  failure : Str → Reply

-- The answers of the pool during one `collect`; `size` is a `usize`.
pub record Poll : Type 0 where
  pub size : ℕ
  pub info : Reply

-- `format!("db{db_idx}")`
abbrev pub db_label : ℕ → Str
db_label db_idx = codes "db" ++ print_nat db_idx

module _ {F E : Type 0} (c : Client RedisMetric F) where
  -- `self.pool.info(…).await.map_err(MetricsError::database)?`
  abbrev ask : Reply → Exec c.State E Str
  ask (text raw) = pure raw
  ask (failure e) = throw (database e)

  -- One round of the loop over `info.keyspace`.
  unfoldable pub set_db : KeyspaceEntry → Exec c.State E (Unit {0})
  set_db (db_idx, keys, expires) = do
    set_labelled c db_keys (db_label db_idx ∷ []) keys
    set_labelled c db_expires (db_label db_idx ∷ []) expires

  unfoldable pub set_info : RedisInfo F → Exec c.State E (Unit {0})
  set_info info = do
    set_gauge c connected_clients info.connected_clients
    set_gauge c blocked_clients info.blocked_clients
    set_gauge c used_memory_bytes info.used_memory
    set_gauge c used_memory_rss info.used_memory_rss
    set_float_gauge c mem_fragmentation_ratio info.mem_fragmentation_ratio
    set_gauge c keyspace_hits info.keyspace_hits
    set_gauge c keyspace_misses info.keyspace_misses
    set_gauge c evicted_keys info.evicted_keys
    set_gauge c total_commands_processed info.total_commands_processed
    set_gauge c replication_offset info.replication_offset
    set_gauge c connected_slaves info.connected_slaves
    for_each set_db info.keyspace

  -- `observe_command`
  unfoldable pub observe_command : Str → F → Exec c.State E (Unit {0})
  observe_command cmd duration_secs =
      observe_labelled c command_duration_seconds (cmd ∷ []) duration_secs

module _ {F E : Type 0} (floats : Floats F) (c : Client RedisMetric F) where
  -- `size() as i64` wraps around.
  unfoldable pub collect : Poll → Exec c.State E (Unit {0})
  collect poll = do
    set_gauge c pool_connections (wrap_i64 (pos poll.size))
    raw ← ask c poll.info
    info ← or_panic (parse_info floats raw)
    set_info c info
