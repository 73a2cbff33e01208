-- ===== src/Mongo/Outcomes.antt =====
-- The outcome of a MongoDB collection, and the readings that it leaves.
use dr_metrix.Prelude.{◌≡◌, refl, ap, ◌↔◌, Bool, true, false, not, ◌||◌, List, arith, fits_i64}
use dr_metrix.Std.{Str, codes}
use dr_metrix.Core.Error.{database}
use dr_metrix.Core.Exec.{ok, err, panicked}
use dr_metrix.Core.Metrics.{Client, IsLawful}
use dr_metrix.Mongo.Bytes.{bytes, mb_to_bytes_checked}
use dr_metrix.Mongo.Fields.{MongoMetric, mongo_metric_eq, arity}
use dr_metrix.Mongo.Collect.{Documents, document, failure, int_field, set_memory, collect}
use dr_metrix.Mongo.Collect.Writes.{set_status_runs}
use dr_metrix.Mongo.Collect.Readings.{status_reading, read-status_state}

module _ {F : Type 0} (E : Type 0) (docs : Documents) (c : Client MongoMetric F)
    (lawful : IsLawful arity c) where
  -- Without overflow checks a collection succeeds for every status document, and every series then
  -- shows what the document says of it, or its old reading.
  -- The client library is assumed to do what it documents.
  pub collect-document :
      (doc : docs.Document) (s : c.State)
      → let done = collect {E = E} docs false c (document doc) s in
        (done.0 ≡ ok tt)
        × ((m : MongoMetric) (ls : List Str)
            → c.read done.1 (record { metric = m; labels = ls })
              ≡ status_reading docs doc m ls (c.read s (record { metric = m; labels = ls })))
  unfolding collect
  collect-document doc s =
      let runs = set_status_runs docs c lawful {E = E} doc s in
      (ap (λ p. p.0) runs, λ m ls. rw runs (read-status_state docs c lawful doc m ls s))

  -- When the command fails, the collection fails with its message as a database error, in either build,
  -- and no metric has changed.
  pub collect-failure :
      (checks : Bool) (message : Str) (s : c.State)
      → collect {E = E} docs checks c (failure message) s ≡ (err (database message), s)
  unfolding collect
  collect-failure checks message s = refl

-- The memory figures of a document do not fit after the conversion to bytes.
unfoldable pub memory_overflows : (docs : Documents) → docs.Document → Bool
memory_overflows docs mem =
    not (fits_i64 (bytes (int_field docs mem (codes "resident"))))
    || not (fits_i64 (bytes (int_field docs mem (codes "virtual"))))

module _ {F : Type 0} (E : Type 0) (docs : Documents) (c : Client MongoMetric F) where
  -- With overflow checks the memory part panics exactly when one of its two figures does not fit.
  pub set_memory_panics_iff :
      (mem : docs.Document) (s : c.State)
      → ((set_memory {E = E} docs true c mem s).0 ≡ panicked) ↔ (memory_overflows docs mem ≡ true)
  unfolding set_memory memory_overflows
  set_memory_panics_iff mem s =
      rw
        (
          mb_to_bytes_checked (int_field docs mem (codes "resident")),
          mb_to_bytes_checked (int_field docs mem (codes "virtual")),
        )
        (ground arith)
