-- ===== src/Mongo/Collect/Writes.antt =====
-- What the parts of a collection write, as changes of the state.
use dr_metrix.Prelude.{
  ◌≡◌, refl, ap, ◌∙◌, ◌⊎◌, Bool, false, Option, none, some, ℤ, inl, inr, wrap_i64, nat_eq, list_eq,
  Option-cases,
}
use dr_metrix.Std.{Str, codes}
use dr_metrix.Core.Exec.{Exec, ok, panicked, continue_panicked, ◌>>◌}
use dr_metrix.Core.Metrics.{Client, IsLawful, series_eq}
use dr_metrix.Mongo.Bytes.{bytes, mb_to_bytes_wraps}
use dr_metrix.Mongo.Fields.{MongoMetric, mongo_metric_eq, arity}
use dr_metrix.Mongo.Collect.{
  Documents, int_field, if_ok, set_connections, set_opcounters, set_network, set_memory, set_cache,
  set_status,
}
use dr_metrix.Mongo.Collect.Parts.{
  connections_state, network_state, memory_state, cache_state, ops_state, opt_state,
  set_opcounters_runs, if_ok_runs,
}

abbrev pub cache_of : (docs : Documents) → Option docs.Document → Option docs.Document
cache_of docs none = none
cache_of docs (some wt) = docs.get_document wt (codes "cache")

-- A figure that the server gives in megabytes.
abbrev pub in_bytes : (docs : Documents) → Str → docs.Document → ℤ
in_bytes docs key mem = wrap_i64 (bytes (int_field docs mem key))

module _ (docs : Documents) (doc : docs.Document) where
  abbrev pub part : Str → Option docs.Document
  part key = docs.get_document doc key

  abbrev pub cache_part : Option docs.Document
  cache_part = cache_of docs (part (codes "wiredTiger"))

module _ {F : Type 0} (docs : Documents) (c : Client MongoMetric F)
    (lawful : IsLawful arity c) where
  unfoldable pub mem_state : docs.Document → c.State → c.State
  mem_state mem =
      memory_state docs c (in_bytes docs (codes "resident") mem)
        (in_bytes docs (codes "virtual") mem)

  unfoldable pub status_state : docs.Document → c.State → c.State
  status_state doc s = opt_state (cache_part docs doc) (cache_state docs c) (
      opt_state (part docs doc (codes "mem")) mem_state (
        opt_state (part docs doc (codes "network")) (network_state docs c) (
          opt_state (part docs doc (codes "opcounters")) (ops_state docs c lawful)
            (opt_state (part docs doc (codes "connections")) (connections_state docs c) s))))

  pub set_memory_runs :
      {E : Type 0} (mem : docs.Document) (s : c.State)
      → set_memory {E = E} docs false c mem s ≡ (ok tt, mem_state mem s)
  unfolding set_memory mem_state
  set_memory_runs mem s = rw (
    mb_to_bytes_wraps (int_field docs mem (codes "resident")),
    mb_to_bytes_wraps (int_field docs mem (codes "virtual")),
  )

  set_connections_runs :
      {E : Type 0} (checks : Bool) (d : docs.Document) (s : c.State)
      → set_connections {E = E} docs checks c d s ≡ (ok tt, connections_state docs c d s)
  unfolding set_connections
  set_connections_runs checks d s = refl

  set_network_runs :
      {E : Type 0} (checks : Bool) (d : docs.Document) (s : c.State)
      → set_network {E = E} docs checks c d s ≡ (ok tt, network_state docs c d s)
  unfolding set_network
  set_network_runs checks d s = refl

  set_cache_runs :
      {E : Type 0} (checks : Bool) (d : docs.Document) (s : c.State)
      → set_cache {E = E} docs checks c d s ≡ (ok tt, cache_state docs c d s)
  unfolding set_cache
  set_cache_runs checks d s = refl

  -- The nested test for the cache.
  set_wired_tiger_runs :
      {E : Type 0} (checks : Bool) (doc : docs.Document) (s : c.State)
      → if_ok docs checks c
          (part docs doc (codes "wiredTiger"))
          (λ wt.
            if_ok docs checks c
              (docs.get_document wt (codes "cache"))
              (set_cache {E = E} docs checks c))
          s
        ≡ (ok tt, opt_state (cache_part docs doc) (cache_state docs c) s)
  set_wired_tiger_runs checks doc s = elim (Option-cases (part docs doc (codes "wiredTiger"))) [
    | inl missing ↦ rw missing
    | inr (wt, there) ↦ rw there (
        if_ok_runs docs c lawful checks (docs.get_document wt (codes "cache"))
          (set_cache docs checks c) (cache_state docs c) (set_cache_runs checks) s)
  ]

  -- The state that the memory part is set on.
  early_state : docs.Document → c.State → c.State
  early_state doc s = opt_state (part docs doc (codes "network")) (network_state docs c) (
      opt_state (part docs doc (codes "opcounters")) (ops_state docs c lawful)
        (opt_state (part docs doc (codes "connections")) (connections_state docs c) s))

  -- The rest of the status, from the memory part on.
  abbrev late_part : {E : Type 0} → Bool → docs.Document → Exec c.State E (Unit {0})
  late_part checks doc = do
    if_ok docs checks c (part docs doc (codes "mem")) (set_memory docs checks c)
    if_ok docs checks c (part docs doc (codes "wiredTiger"))
        λ wt. if_ok docs checks c (docs.get_document wt (codes "cache")) (set_cache docs checks c)

  early_parts_run :
      {E : Type 0} (checks : Bool) (doc : docs.Document) (s : c.State)
      → set_status {E = E} docs checks c doc s ≡ late_part checks doc (early_state doc s)
  unfolding set_status early_state
  early_parts_run {E} checks doc s =
      rw
        (
          if_ok_runs docs c lawful {E = E} checks (part docs doc (codes "connections"))
              (set_connections docs checks c) (connections_state docs c)
              (set_connections_runs checks),
          if_ok_runs docs c lawful {E = E} checks (part docs doc (codes "opcounters"))
              (set_opcounters docs checks c) (ops_state docs c lawful)
              (λ d t. set_opcounters_runs docs c lawful d checks t),
          if_ok_runs docs c lawful {E = E} checks (part docs doc (codes "network"))
              (set_network docs checks c) (network_state docs c) (set_network_runs checks),
        )
        refl

  -- The status is set in full where the memory part is.
  pub set_status_runs_with :
      {E : Type 0} (checks : Bool) (doc : docs.Document) (s : c.State)
      → ((mem : docs.Document) (t : c.State)
          → part docs doc (codes "mem") ≡ some mem
          → set_memory {E = E} docs checks c mem t ≡ (ok tt, mem_state mem t))
      → set_status {E = E} docs checks c doc s ≡ (ok tt, status_state doc s)
  unfolding status_state early_state
  set_status_runs_with {E} checks doc s h =
      early_parts_run checks doc s ∙ by_memory (Option-cases (part docs doc (codes "mem")))
    where
      by_memory :
          (part docs doc (codes "mem") ≡ none)
            ⊎ ((mem : docs.Document) × (part docs doc (codes "mem") ≡ some mem))
          → late_part {E = E} checks doc (early_state doc s) ≡ (ok tt, status_state doc s)
      by_memory (inl missing) = rw missing (set_wired_tiger_runs checks doc _)
      by_memory (inr (mem, there)) = rw (there, h mem _ there) (set_wired_tiger_runs checks doc _)

  pub set_status_runs :
      {E : Type 0} (doc : docs.Document) (s : c.State)
      → set_status {E = E} docs false c doc s ≡ (ok tt, status_state doc s)
  set_status_runs doc s = set_status_runs_with false doc s (λ mem t there. set_memory_runs mem t)

  -- It panics where the memory part does, with the earlier parts set.
  pub set_status_panics :
      {E : Type 0} (checks : Bool) (doc mem : docs.Document) (s : c.State)
      → part docs doc (codes "mem") ≡ some mem
      → ((t : c.State) → (set_memory {E = E} docs checks c mem t).0 ≡ panicked)
      → (set_status {E = E} docs checks c doc s).0 ≡ panicked
  set_status_panics checks doc mem s there h =
      ap (λ done. done.0) (early_parts_run checks doc s)
      ∙ rw there (continue_panicked (set_memory docs checks c mem (early_state doc s)) _ (h _))
