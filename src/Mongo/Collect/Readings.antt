-- ===== src/Mongo/Collect/Readings.antt =====
-- What a collection leaves in every series.
mod Figures
use dr_metrix.Prelude.{◌≡◌, refl, ap, ◌∷◌, ◌∙◌, List, [], nat_eq, list_eq, list_beq}
use dr_metrix.Std.{Str, codes}
use dr_metrix.Core.Metrics.{Client, IsLawful, Reading, int, series_eq}
use dr_metrix.Mongo.Fields.{
  MongoMetric, mongo_metric_eq, arity, connections_current, connections_available,
  connections_total, opcounters, bytes_in, bytes_out, requests_in, resident_memory_bytes,
  virtual_memory_bytes, wt_cache_bytes_in_use, wt_cache_bytes_max, wt_cache_dirty_bytes,
}
use dr_metrix.Mongo.Collect.{Documents, int_field}
use dr_metrix.Mongo.Collect.Parts.{
  part_reading, opt_state, opt_reading, opt_reading_kept, read-opt_state, ops_reading,
  connections_state, network_state, cache_state, ops_state,
}
use dr_metrix.Mongo.Collect.Writes.{in_bytes, part, cache_part, mem_state, status_state}
use Figures.{
  set_reading, connections_figure, network_figure, mem_figure, cache_figure, counters_reading,
  at_series, connections-SetsFigures, network-SetsFigures, mem-SetsFigures, cache-SetsFigures,
  read-counters,
}

module _ (docs : Documents) (doc : docs.Document) where
  -- What the status document says of a series: the figure of the part, 0 where the part has no
  -- `i64` under the key, and the old reading where the part itself is missing.
  unfoldable pub status_reading : {F : Type 0} → MongoMetric → List Str → Reading F → Reading F
  status_reading connections_current [] =
      part_reading (part docs doc (codes "connections")) (λ d. int_field docs d (codes "current"))
  status_reading connections_available [] =
      part_reading (part docs doc (codes "connections")) (λ d. int_field docs d (codes "available"))
  status_reading connections_total [] =
      part_reading (part docs doc (codes "connections"))
        (λ d. int_field docs d (codes "totalCreated"))
  status_reading opcounters ls =
      ops_reading (int_field docs) (part docs doc (codes "opcounters")) ls
  status_reading bytes_in [] =
      part_reading (part docs doc (codes "network")) (λ d. int_field docs d (codes "bytesIn"))
  status_reading bytes_out [] =
      part_reading (part docs doc (codes "network")) (λ d. int_field docs d (codes "bytesOut"))
  status_reading requests_in [] =
      part_reading (part docs doc (codes "network")) (λ d. int_field docs d (codes "numRequests"))
  status_reading resident_memory_bytes [] =
      part_reading (part docs doc (codes "mem")) (in_bytes docs (codes "resident"))
  status_reading virtual_memory_bytes [] =
      part_reading (part docs doc (codes "mem")) (in_bytes docs (codes "virtual"))
  status_reading wt_cache_bytes_in_use [] =
      part_reading (cache_part docs doc)
        (λ d. int_field docs d (codes "bytes currently in the cache"))
  status_reading wt_cache_bytes_max [] =
      part_reading (cache_part docs doc) (λ d. int_field docs d (codes "maximum bytes configured"))
  status_reading wt_cache_dirty_bytes [] =
      part_reading (cache_part docs doc)
        (λ d. int_field docs d (codes "tracked dirty bytes in the cache"))
  status_reading _ _ = λ old. old

module _ (docs : Documents) (doc : docs.Document) where
  -- The parts, one after the other.
  abbrev parts_reading : {F : Type 0} → MongoMetric → List Str → Reading F → Reading F
  parts_reading m ls old =
      opt_reading (cache_part docs doc) (set_reading (cache_figure docs m ls)) (
        opt_reading (part docs doc (codes "mem")) (set_reading (mem_figure docs m ls)) (
          opt_reading (part docs doc (codes "network")) (set_reading (network_figure docs m ls)) (
            counters_reading docs (part docs doc (codes "opcounters")) m ls (
              opt_reading (part docs doc (codes "connections"))
                (set_reading (connections_figure docs m ls)) old))))

  parts_reading-status :
      {F : Type 0} (m : MongoMetric) (ls : List Str) (old : Reading F)
      → parts_reading m ls old ≡ status_reading docs doc m ls old
  unfolding status_reading
  parts_reading-status connections_current [] old = simp opt_reading_kept
  parts_reading-status opcounters [] old = simp opt_reading_kept
  parts_reading-status opcounters (l ∷ ls) old = simp opt_reading_kept
  parts_reading-status m (l ∷ ls) old = simp opt_reading_kept
  parts_reading-status m ls old = simp opt_reading_kept

module _ {F : Type 0} (docs : Documents) (c : Client MongoMetric F)
    (lawful : IsLawful arity c) where
  read-parts :
      (doc : docs.Document) (m : MongoMetric) (ls : List Str) (s : c.State)
      → c.read (status_state docs c lawful doc s) (record { metric = m; labels = ls })
        ≡ parts_reading docs doc m ls (c.read s (record { metric = m; labels = ls }))
  unfolding status_state
  read-parts doc m ls s =
      rw
        (
          read-opt_state (at_series docs c lawful m ls) (cache_part docs doc) (cache_state docs c)
              (set_reading (cache_figure docs m ls)) (cache-SetsFigures docs c lawful m ls),
          read-opt_state (at_series docs c lawful m ls) (part docs doc (codes "mem"))
              (mem_state docs c lawful) (set_reading (mem_figure docs m ls))
              (mem-SetsFigures docs c lawful m ls),
          read-opt_state (at_series docs c lawful m ls) (part docs doc (codes "network"))
              (network_state docs c) (set_reading (network_figure docs m ls))
              (network-SetsFigures docs c lawful m ls),
          read-counters docs c lawful (part docs doc (codes "opcounters")) m ls,
          read-opt_state (at_series docs c lawful m ls) (part docs doc (codes "connections"))
              (connections_state docs c) (set_reading (connections_figure docs m ls))
              (connections-SetsFigures docs c lawful m ls),
        )
        refl

  pub read-status_state :
      (doc : docs.Document) (m : MongoMetric) (ls : List Str) (s : c.State)
      → c.read (status_state docs c lawful doc s) (record { metric = m; labels = ls })
        ≡ status_reading docs doc m ls (c.read s (record { metric = m; labels = ls }))
  read-status_state doc m ls s = read-parts doc m ls s ∙ parts_reading-status docs doc m ls _
