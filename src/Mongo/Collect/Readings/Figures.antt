-- ===== src/Mongo/Collect/Readings/Figures.antt =====
-- What each part of the status makes of a reading: the figure that it sets the series to, if it does.
use dr_metrix.Prelude.{◌≡◌, Option, none, some, List, [], ◌∷◌, ℤ, nat_eq, list_eq, list_beq}
use dr_metrix.Std.{Str, codes}
use dr_metrix.Core.Metrics.{Client, IsLawful, Reading, int, series_eq}
use dr_metrix.Mongo.Fields.{
  MongoMetric, mongo_metric_eq, arity, connections_current, connections_available,
  connections_total, opcounters, bytes_in, bytes_out, requests_in, resident_memory_bytes,
  virtual_memory_bytes, wt_cache_bytes_in_use, wt_cache_bytes_max, wt_cache_dirty_bytes,
}
use dr_metrix.Mongo.Collect.{Documents, int_field}
use dr_metrix.Mongo.Collect.Parts.{
  connections_state, network_state, cache_state, opt_state, ops_state, ops_reading, read-ops_state,
  read-ops_state_other,
}
use dr_metrix.Mongo.Collect.Writes.{in_bytes, mem_state}

abbrev pub set_reading : {D F : Type 0} → Option (D → ℤ) → D → Reading F → Reading F
set_reading none d old = old
set_reading (some figure) d old = int (figure d)

module _ (docs : Documents) where
  abbrev Figures : Type 0
  Figures = MongoMetric → List Str → Option (docs.Document → ℤ)

  abbrev field_of : Str → Option (docs.Document → ℤ)
  field_of key = some (λ d. int_field docs d key)

  abbrev pub connections_figure : Figures
  connections_figure connections_current [] = field_of (codes "current")
  connections_figure connections_available [] = field_of (codes "available")
  connections_figure connections_total [] = field_of (codes "totalCreated")
  connections_figure m ls = none

  abbrev pub network_figure : Figures
  network_figure bytes_in [] = field_of (codes "bytesIn")
  network_figure bytes_out [] = field_of (codes "bytesOut")
  network_figure requests_in [] = field_of (codes "numRequests")
  network_figure m ls = none

  abbrev pub mem_figure : Figures
  mem_figure resident_memory_bytes [] = some (in_bytes docs (codes "resident"))
  mem_figure virtual_memory_bytes [] = some (in_bytes docs (codes "virtual"))
  mem_figure m ls = none

  abbrev pub cache_figure : Figures
  cache_figure wt_cache_bytes_in_use [] = field_of (codes "bytes currently in the cache")
  cache_figure wt_cache_bytes_max [] = field_of (codes "maximum bytes configured")
  cache_figure wt_cache_dirty_bytes [] = field_of (codes "tracked dirty bytes in the cache")
  cache_figure m ls = none

  abbrev pub counters_reading :
      {F : Type 0} → Option docs.Document → MongoMetric → List Str → Reading F → Reading F
  counters_reading o opcounters ls old = ops_reading (int_field docs) o ls old
  counters_reading o m ls old = old

module _ {F : Type 0} (docs : Documents) (c : Client MongoMetric F)
    (lawful : IsLawful arity c) where
  abbrev pub at_series : MongoMetric → List Str → c.State → Reading F
  at_series m ls s = c.read s (record { metric = m; labels = ls })

  -- A part sets the series of its figures, and no other.
  abbrev SetsFigures :
      (docs.Document → c.State → c.State)
      → (MongoMetric → List Str → Option (docs.Document → ℤ))
      → Type 0
  SetsFigures change figure =
      (m : MongoMetric) (ls : List Str) (d : docs.Document) (s : c.State)
      → at_series m ls (change d s) ≡ set_reading (figure m ls) d (at_series m ls s)

  pub connections-SetsFigures : SetsFigures (connections_state docs c) (connections_figure docs)
  unfolding list_beq
  connections-SetsFigures connections_current [] d s = simp lawful.read-set
  connections-SetsFigures m (l ∷ ls) d s = simp lawful.read-set
  connections-SetsFigures m ls d s = simp lawful.read-set

  pub network-SetsFigures : SetsFigures (network_state docs c) (network_figure docs)
  unfolding list_beq
  network-SetsFigures bytes_in [] d s = simp lawful.read-set
  network-SetsFigures m (l ∷ ls) d s = simp lawful.read-set
  network-SetsFigures m ls d s = simp lawful.read-set

  pub mem-SetsFigures : SetsFigures (mem_state docs c lawful) (mem_figure docs)
  unfolding list_beq mem_state
  mem-SetsFigures resident_memory_bytes [] d s = simp lawful.read-set
  mem-SetsFigures m (l ∷ ls) d s = simp lawful.read-set
  mem-SetsFigures m ls d s = simp lawful.read-set

  pub cache-SetsFigures : SetsFigures (cache_state docs c) (cache_figure docs)
  unfolding list_beq
  cache-SetsFigures wt_cache_bytes_in_use [] d s = simp lawful.read-set
  cache-SetsFigures m (l ∷ ls) d s = simp lawful.read-set
  cache-SetsFigures m ls d s = simp lawful.read-set

  pub read-counters :
      (o : Option docs.Document) (m : MongoMetric) (ls : List Str) (s : c.State)
      → at_series m ls (opt_state o (ops_state docs c lawful) s)
        ≡ counters_reading docs o m ls (at_series m ls s)
  read-counters o opcounters ls s = read-ops_state docs c lawful o ls s
  read-counters o m ls s = read-ops_state_other docs c lawful o m ls s (λ e. cc)
