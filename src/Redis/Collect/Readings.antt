-- ===== src/Redis/Collect/Readings.antt =====
-- What a collection leaves in every series.
use dr_metrix.Prelude.{
  ℕ, ◌≡◌, refl, sym, ◌∙◌, List, [], ◌∷◌, Option, none, some, arith, ℤ, pos, wrap_i64, unwrap_or,
  if◌then◌else◌, ◌==◌, nat_eq, list_eq, list_beq, ◌≢◌,
}
use dr_metrix.Std.{Str, Floats}
use dr_metrix.Core.Error.{database}
use dr_metrix.Core.Exec.{ok, err, panicked, for_each, for_each-fold}
use dr_metrix.Core.Metrics.{Client, IsLawful, Reading, int, float, Series, series_eq}
use dr_metrix.Redis.Info.{RedisInfo, KeyspaceEntry, parse_info}
use dr_metrix.Redis.Info.Safety.{parse_info_total}
use dr_metrix.Redis.Fields.{
  RedisMetric, redis_metric_eq, arity, pool_connections, connected_clients, blocked_clients,
  used_memory_bytes, used_memory_rss, mem_fragmentation_ratio, keyspace_hits, keyspace_misses,
  evicted_keys, total_commands_processed, db_keys, db_expires, replication_offset, connected_slaves,
}
use dr_metrix.Redis.Collect.{Reply, text, failure, Poll, db_label, set_db, set_info, collect}

-- The last entry of a database whose label is the only one.
unfoldable pub last_entry : List Str → List KeyspaceEntry → Option (ℤ × ℤ)
last_entry ls [] = none
last_entry ls ((db, keys, expires) ∷ es) = elim (last_entry ls es) [
  | some r ↦ some r
  | none ↦ if list_beq (db_label db ∷ []) ls then some (keys, expires) else none
]

-- What the loop over the databases leaves in the series `ls` of a metric.
unfoldable pub db_reading :
    {F : Type 0} → RedisMetric → List Str → List KeyspaceEntry → Reading F → Reading F
db_reading db_keys ls es old = elim (last_entry ls es) [ some r ↦ int r.0 | none ↦ old ]
db_reading db_expires ls es old = elim (last_entry ls es) [ some r ↦ int r.1 | none ↦ old ]
db_reading _ ls es old = old

module _ {F : Type 0} (c : Client RedisMetric F) where
  abbrev pub db_state : KeyspaceEntry → c.State → c.State
  db_state (db, keys, expires) s =
      c.set (record { metric = db_expires; labels = db_label db ∷ [] }) (int expires)
        (c.set (record { metric = db_keys; labels = db_label db ∷ [] }) (int keys) s)

  dbs_state : List KeyspaceEntry → c.State → c.State
  dbs_state [] s = s
  dbs_state (e ∷ es) s = dbs_state es (db_state e s)

  abbrev set_plain : RedisMetric → Reading F → c.State → c.State
  set_plain m v = c.set (record { metric = m; labels = [] }) v

  info_state : RedisInfo F → c.State → c.State
  info_state info s = dbs_state info.keyspace (
      set_plain connected_slaves (int info.connected_slaves) (
        set_plain replication_offset (int info.replication_offset) (
          set_plain total_commands_processed (int info.total_commands_processed) (
            set_plain evicted_keys (int info.evicted_keys) (
              set_plain keyspace_misses (int info.keyspace_misses) (
                set_plain keyspace_hits (int info.keyspace_hits) (
                  set_plain mem_fragmentation_ratio (float info.mem_fragmentation_ratio) (
                    set_plain used_memory_rss (int info.used_memory_rss) (
                      set_plain used_memory_bytes (int info.used_memory) (
                        set_plain blocked_clients (int info.blocked_clients)
                          (set_plain connected_clients (int info.connected_clients) s)))))))))))

module _ {F : Type 0} (c : Client RedisMetric F) (lawful : IsLawful arity c) where
  pub set_db_runs :
      {E : Type 0} (e : KeyspaceEntry) (s : c.State)
      → set_db {E = E} c e s ≡ (ok tt, db_state c e s)
  unfolding set_db arity
  set_db_runs (db, keys, expires) s = rw (
    lawful.accepts_arity db_keys (db_label db ∷ []) refl,
    lawful.accepts_arity db_expires (db_label db ∷ []) refl,
  )

  set_dbs_run :
      {E : Type 0} (es : List KeyspaceEntry) (s : c.State)
      → for_each (set_db {E = E} c) es s ≡ (ok tt, dbs_state c es s)
  unfolding dbs_state
  set_dbs_run =
      for_each-fold (set_db c) (db_state c) set_db_runs (dbs_state c) (λ s. refl) (λ x xs s. refl)

  set_info_runs :
      {E : Type 0} (info : RedisInfo F) (s : c.State)
      → set_info {E = E} c info s ≡ (ok tt, info_state c info s)
  unfolding set_info info_state
  set_info_runs info s = set_dbs_run info.keyspace _

  read-dbs_state :
      (es : List KeyspaceEntry) (m : RedisMetric) (ls : List Str) (s : c.State)
      → c.read (dbs_state c es s) (record { metric = m; labels = ls })
        ≡ db_reading m ls es (c.read s (record { metric = m; labels = ls }))
  unfolding dbs_state db_reading last_entry
  read-dbs_state [] db_keys ls s = refl
  read-dbs_state [] _ ls s = refl
  read-dbs_state ((db, keys, expires) ∷ es) db_keys ls s =
      read-dbs_state es db_keys ls (db_state c (db, keys, expires) s)
      ∙ simp lawful.read-set (ground arith)
  read-dbs_state ((db, keys, expires) ∷ es) db_expires ls s =
      read-dbs_state es db_expires ls (db_state c (db, keys, expires) s)
      ∙ simp lawful.read-set (ground arith)
  read-dbs_state ((db, keys, expires) ∷ es) m ls s =
      read-dbs_state es m ls (db_state c (db, keys, expires) s) ∙ simp lawful.read-set

-- What an `INFO` result says of a metric with no labels.
unfoldable pub figure : {F : Type 0} → RedisInfo F → RedisMetric → Option (Reading F)
figure info connected_clients = some (int info.connected_clients)
figure info blocked_clients = some (int info.blocked_clients)
figure info used_memory_bytes = some (int info.used_memory)
figure info used_memory_rss = some (int info.used_memory_rss)
figure info mem_fragmentation_ratio = some (float info.mem_fragmentation_ratio)
figure info keyspace_hits = some (int info.keyspace_hits)
figure info keyspace_misses = some (int info.keyspace_misses)
figure info evicted_keys = some (int info.evicted_keys)
figure info total_commands_processed = some (int info.total_commands_processed)
figure info replication_offset = some (int info.replication_offset)
figure info connected_slaves = some (int info.connected_slaves)
figure info _ = none

-- What a successful collection leaves in a series: the pool's size, a figure, the last entry of the
-- database, or what was there.
unfoldable pub collected_reading :
    {F : Type 0} → ℕ → RedisInfo F → RedisMetric → List Str → Reading F → Reading F
unfolding figure db_reading last_entry
collected_reading size info pool_connections [] old = int (wrap_i64 (pos size))
collected_reading size info m [] old = db_reading m [] info.keyspace (unwrap_or (figure info m) old)
collected_reading size info m (l ∷ ls) old = db_reading m (l ∷ ls) info.keyspace old

module _ {F : Type 0} (c : Client RedisMetric F) (lawful : IsLawful arity c) where
  read-info_state :
      (size : ℕ) (info : RedisInfo F) (m : RedisMetric) (ls : List Str) (s : c.State)
      → c.read
          (info_state c info (set_plain c pool_connections (int (wrap_i64 (pos size))) s))
          (record { metric = m; labels = ls })
        ≡ collected_reading size info m ls (c.read s (record { metric = m; labels = ls }))
  unfolding info_state collected_reading list_beq
  read-info_state size info pool_connections [] s =
      read-dbs_state c lawful info.keyspace pool_connections [] _ ∙ simp lawful.read-set
  read-info_state size info m [] s =
      read-dbs_state c lawful info.keyspace m [] _ ∙ simp lawful.read-set
  read-info_state size info pool_connections (l ∷ ls) s =
      read-dbs_state c lawful info.keyspace pool_connections (l ∷ ls) _ ∙ simp lawful.read-set
  read-info_state size info m (l ∷ ls) s =
      read-dbs_state c lawful info.keyspace m (l ∷ ls) _ ∙ simp lawful.read-set

abbrev pub pool_series : Series RedisMetric
pool_series = record { metric = pool_connections; labels = [] }

module _ {F : Type 0} (E : Type 0) (floats : Floats F) (c : Client RedisMetric F)
    (lawful : IsLawful arity c) where
  -- When the server answers, the collection succeeds for every text, and every series then shows what
  -- the text says of it, or its old value where the text says nothing.
  -- The client library is assumed to do what it documents.
  pub collect-text :
      (size : ℕ) (raw : Str) (s : c.State)
      → let done = collect {E = E} floats c (record { size = size; info = text raw }) s in
        (info : RedisInfo F) × (parse_info floats raw ≡ some info)
        × (done.0 ≡ ok tt)
        × ((m : RedisMetric) (ls : List Str)
            → c.read done.1 (record { metric = m; labels = ls })
              ≡ collected_reading size info m ls (c.read s (record { metric = m; labels = ls })))
  unfolding collect
  collect-text size raw s =
      let (info, parsed) = parse_info_total floats raw in
      let runs =
        set_info_runs c lawful {E = E} info
          (set_plain c pool_connections (int (wrap_i64 (pos size))) s) in
      (
        info,
        parsed,
        rw (parsed, runs),
        λ m ls. rw (parsed, runs) (read-info_state c lawful size info m ls s),
      )

  -- When it fails, the collection fails with its message as a database error, and only the size of the
  -- pool has changed.
  -- The client library is assumed to do what it documents.
  pub collect-failure :
      (size : ℕ) (message : Str) (s : c.State)
      → let done = collect {E = E} floats c (record { size = size; info = failure message }) s in
        (done.0 ≡ err (database message))
        × ((t : Series RedisMetric)
            → c.read done.1 t
              ≡ (if pool_series == t then int (wrap_i64 (pos size)) else c.read s t))
  unfolding collect
  collect-failure size message s = (refl, λ t. lawful.read-set pool_series t _ s)

  -- A collection never panics, whatever the pool answers.
  -- The client library is assumed to do what it documents.
  pub collect_no_panic :
      (poll : Poll) (s : c.State) → (collect {E = E} floats c poll s).0 ≢ panicked
  collect_no_panic poll s = by_reply poll.size poll.info
    where
      by_reply :
          (size : ℕ) (reply : Reply)
          → (collect {E = E} floats c (record { size = size; info = reply }) s).0 ≢ panicked
      by_reply size (text raw) h =
          let (_, _, runs, _) = collect-text size raw s in cc (sym runs ∙ h)
      by_reply size (failure message) h =
          let (fails, _) = collect-failure size message s in cc (sym fails ∙ h)
