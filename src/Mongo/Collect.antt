-- ===== src/Mongo/Collect.antt =====
-- dr-metrix-mongo/src/metrics.rs: the collector. The server is given by what it answers to
-- `serverStatus`, and BSON documents by the calls that the source makes of them.
mod Parts
pub mod Writes
pub mod Readings
use dr_metrix.Prelude.{ℕ, ◌≡◌, Bool, List, [], ◌∷◌, Option, none, some, ℤ, pos, IsI64, unwrap_or}
use dr_metrix.Std.{Str, codes}
use dr_metrix.Core.Error.{database}
use dr_metrix.Core.Exec.{Exec, ◌>>=◌, ◌>>◌, pure, throw, or_panic, for_each}
use dr_metrix.Core.Metrics.{Client, set_gauge, set_labelled, observe_labelled}
use dr_metrix.Mongo.Bytes.{mb_to_bytes}
use dr_metrix.Mongo.Fields.{
  MongoMetric, connections_current, connections_available, connections_total, opcounters, bytes_in,
  bytes_out, requests_in, resident_memory_bytes, virtual_memory_bytes, wt_cache_bytes_in_use,
  wt_cache_bytes_max, wt_cache_dirty_bytes, op_duration_seconds,
}

-- The calls of the bson crate. `get_i64` is `none` where the key is missing or holds another type.
pub record Documents : Type 1 where
  pub Document : Type 0
  pub get_document : Document → Str → Option Document
  pub get_i64 : Document → Str → Option ℤ

-- What the server answers, or the text of an error.
pub data Reply (D : Type 0) : Type 0 where
  document : D → Reply D
  failure : Str → Reply D

-- The operations whose counters are exported.
abbrev pub ops : List Str
ops =
    codes "insert"
    ∷ codes "query"
    ∷ codes "update"
    ∷ codes "delete"
    ∷ codes "getmore"
    ∷ codes "command"
    ∷ []

module _ (docs : Documents) where
  -- `doc.get_i64(key).unwrap_or(0)`
  abbrev pub int_field : docs.Document → Str → ℤ
  int_field doc key = unwrap_or (docs.get_i64 doc key) (pos 0)

module _ {F E : Type 0} (docs : Documents) (checks : Bool) (c : Client MongoMetric F) where
  abbrev ask : Reply docs.Document → Exec c.State E docs.Document
  ask (document doc) = pure doc
  ask (failure e) = throw (database e)

  -- `if let Ok(part) = … { … }`
  abbrev pub if_ok :
      Option docs.Document → (docs.Document → Exec c.State E (Unit {0})) → Exec c.State E (Unit {0})
  if_ok none f = pure tt
  if_ok (some part) f = f part

  unfoldable pub set_connections : docs.Document → Exec c.State E (Unit {0})
  set_connections conns = do
    set_gauge c connections_current (int_field docs conns (codes "current"))
    set_gauge c connections_available (int_field docs conns (codes "available"))
    set_gauge c connections_total (int_field docs conns (codes "totalCreated"))

  -- One round of the loop over the operations.
  unfoldable pub set_op : docs.Document → Str → Exec c.State E (Unit {0})
  set_op counters op = set_labelled c opcounters (op ∷ []) (int_field docs counters op)

  unfoldable pub set_opcounters : docs.Document → Exec c.State E (Unit {0})
  set_opcounters counters = for_each (set_op counters) ops

  unfoldable pub set_network : docs.Document → Exec c.State E (Unit {0})
  set_network net = do
    set_gauge c bytes_in (int_field docs net (codes "bytesIn"))
    set_gauge c bytes_out (int_field docs net (codes "bytesOut"))
    set_gauge c requests_in (int_field docs net (codes "numRequests"))

  unfoldable pub set_memory : docs.Document → Exec c.State E (Unit {0})
  set_memory mem = do
    resident ← or_panic (mb_to_bytes checks (int_field docs mem (codes "resident")))
    set_gauge c resident_memory_bytes resident
    virtual ← or_panic (mb_to_bytes checks (int_field docs mem (codes "virtual")))
    set_gauge c virtual_memory_bytes virtual

  unfoldable pub set_cache : docs.Document → Exec c.State E (Unit {0})
  set_cache cache = do
    set_gauge c wt_cache_bytes_in_use (int_field docs cache (codes "bytes currently in the cache"))
    set_gauge c wt_cache_bytes_max (int_field docs cache (codes "maximum bytes configured"))
    set_gauge c wt_cache_dirty_bytes
        (int_field docs cache (codes "tracked dirty bytes in the cache"))

  unfoldable pub set_status : docs.Document → Exec c.State E (Unit {0})
  set_status doc = do
    if_ok (docs.get_document doc (codes "connections")) set_connections
    if_ok (docs.get_document doc (codes "opcounters")) set_opcounters
    if_ok (docs.get_document doc (codes "network")) set_network
    if_ok (docs.get_document doc (codes "mem")) set_memory
    if_ok (docs.get_document doc (codes "wiredTiger"))
        λ wt. if_ok (docs.get_document wt (codes "cache")) set_cache

  unfoldable pub collect : Reply docs.Document → Exec c.State E (Unit {0})
  collect reply = do doc ← ask reply; set_status doc

  -- `observe_op`
  unfoldable pub observe_op : Str → F → Exec c.State E (Unit {0})
  observe_op op duration_secs = observe_labelled c op_duration_seconds (op ∷ []) duration_secs
