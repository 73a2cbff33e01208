-- ===== src/Mongo/Builds.antt =====
-- The two kinds of build: a collection with overflow checks and one without.
use mathlib.Core.Option.{some-injective}
use dr_metrix.Prelude.{
  ◌≡◌, refl, sym, ap, ◌∙◌, inl, inr, Bool, true, false, Option, none, some, arith, Bool-cases,
  if◌then◌else◌, fits_i64,
}
use dr_metrix.Std.{codes}
use dr_metrix.Core.Exec.{panicked}
use dr_metrix.Core.Metrics.{Client, IsLawful}
use dr_metrix.Mongo.Bytes.{bytes, mb_to_bytes_fits}
use dr_metrix.Mongo.Fields.{MongoMetric, mongo_metric_eq, arity}
use dr_metrix.Mongo.Collect.{Documents, document, int_field, set_memory, collect}
use dr_metrix.Mongo.Collect.Writes.{
  set_memory_runs, set_status_runs, set_status_runs_with, set_status_panics,
}
use dr_metrix.Mongo.Outcomes.{memory_overflows, set_memory_panics_iff}

-- There is a memory part, and one of its two figures does not fit.
abbrev pub status_overflows : (docs : Documents) → Option docs.Document → Bool
status_overflows docs none = false
status_overflows docs (some mem) = memory_overflows docs mem

module _ {F : Type 0} (E : Type 0) (docs : Documents) (c : Client MongoMetric F)
    (lawful : IsLawful arity c) where
  set_memory_agrees :
      (mem : docs.Document) (s : c.State)
      → memory_overflows docs mem ≡ false
      → set_memory {E = E} docs true c mem s ≡ set_memory {E = E} docs false c mem s
  unfolding set_memory memory_overflows
  set_memory_agrees mem s h =
      let resident : fits_i64 (bytes (int_field docs mem (codes "resident"))) ≡ true =
        ground arith in
      let virtual : fits_i64 (bytes (int_field docs mem (codes "virtual"))) ≡ true = ground arith in
      rw (mb_to_bytes_fits _ resident, mb_to_bytes_fits _ virtual) refl

  -- With overflow checks a collection panics if the document has a memory part of which a figure does not fit
  -- after the conversion to bytes; for every other document it does what it does without the checks.
  -- The client library is assumed to do what it documents.
  pub builds_agree :
      (doc : docs.Document) (s : c.State)
      → let checked = collect {E = E} docs true c (document doc) s in
        checked ≡ (
          if status_overflows docs (docs.get_document doc (codes "mem"))
          then (panicked, checked.1)
          else collect {E = E} docs false c (document doc) s)
  unfolding collect
  builds_agree doc s = by_memory (docs.get_document doc (codes "mem")) refl
    where
      by_memory :
          (o : Option docs.Document)
          → docs.get_document doc (codes "mem") ≡ o
          → collect {E = E} docs true c (document doc) s ≡ (
              if status_overflows docs o
              then (panicked, (collect {E = E} docs true c (document doc) s).1)
              else collect {E = E} docs false c (document doc) s)
      by_memory none e =
          set_status_runs_with docs c lawful true doc s (λ mem t there. cc (sym e ∙ there))
          ∙ sym (set_status_runs docs c lawful doc s)
      by_memory (some mem) e = elim (Bool-cases (memory_overflows docs mem)) [
        | inl over ↦ rw over (
            ap (λ o. (o, (collect {E = E} docs true c (document doc) s).1))
              (set_status_panics docs c lawful true doc mem s e
                (λ t. (set_memory_panics_iff E docs c mem t).1 over)))
        | inr fits ↦ rw fits (
            set_status_runs_with docs c lawful true doc s (λ mem' t there.
              rw (some-injective _ _ (sym there ∙ e))
                (set_memory_agrees mem t fits ∙ set_memory_runs docs c lawful mem t))
            ∙ sym (set_status_runs docs c lawful doc s))
      ]
