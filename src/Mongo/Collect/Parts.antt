-- ===== src/Mongo/Collect/Parts.antt =====
-- What each part of the status leaves.
use dr_metrix.Prelude.{◌≡◌, ◌≢◌, refl, Bool, List, [], ◌∷◌, Option, none, some, ℤ, nat_eq, list_eq}
use dr_metrix.Std.{Str, codes}
use dr_metrix.Core.Exec.{Exec, ok}
use dr_metrix.Core.Metrics.{Client, IsLawful, Reading, int, series_eq, read-set_other}
use dr_metrix.Core.Metrics.Rows.{
  last_match, row_reading, change_all, rows_run, read-change_all, read-change_all_other,
}
use dr_metrix.Mongo.Fields.{
  MongoMetric, mongo_metric_eq, arity, connections_current, connections_available,
  connections_total, opcounters, bytes_in, bytes_out, requests_in, resident_memory_bytes,
  virtual_memory_bytes, wt_cache_bytes_in_use, wt_cache_bytes_max, wt_cache_dirty_bytes,
}
use dr_metrix.Mongo.Collect.{Documents, ops, int_field, if_ok, set_op, set_opcounters}

module _ {F : Type 0} (docs : Documents) (c : Client MongoMetric F) where
  abbrev pub set_plain : MongoMetric → ℤ → c.State → c.State
  set_plain m v = c.set (record { metric = m; labels = [] }) (int v)

  abbrev pub connections_state : docs.Document → c.State → c.State
  connections_state d s = set_plain connections_total (int_field docs d (codes "totalCreated")) (
      set_plain connections_available (int_field docs d (codes "available"))
        (set_plain connections_current (int_field docs d (codes "current")) s))

  abbrev pub op_state : docs.Document → Str → c.State → c.State
  op_state d op =
      c.set (record { metric = opcounters; labels = op ∷ [] }) (int (int_field docs d op))

  abbrev pub network_state : docs.Document → c.State → c.State
  network_state d s = set_plain requests_in (int_field docs d (codes "numRequests")) (
      set_plain bytes_out (int_field docs d (codes "bytesOut"))
        (set_plain bytes_in (int_field docs d (codes "bytesIn")) s))

  abbrev pub memory_state : ℤ → ℤ → c.State → c.State
  memory_state resident virtual s =
      set_plain virtual_memory_bytes virtual (set_plain resident_memory_bytes resident s)

  abbrev pub cache_state : docs.Document → c.State → c.State
  cache_state d s =
      set_plain wt_cache_dirty_bytes (int_field docs d (codes "tracked dirty bytes in the cache")) (
        set_plain wt_cache_bytes_max (int_field docs d (codes "maximum bytes configured")) (
          set_plain wt_cache_bytes_in_use (int_field docs d (codes "bytes currently in the cache"))
            s))

-- A reading as a part of the status changes it, where the part is there.
abbrev pub opt_reading : {D R : Type 0} → Option D → (D → R → R) → R → R
opt_reading none f old = old
opt_reading (some d) f old = f d old

-- A figure of the part, or what was there where the part is missing.
abbrev pub part_reading : {D F : Type 0} → Option D → (D → ℤ) → Reading F → Reading F
part_reading part figure = opt_reading part (λ d old. int (figure d))

pub opt_reading_kept :
    {D R : Type 0} (o : Option D) (old : R) → opt_reading o (λ d old. old) old ≡ old
opt_reading_kept none old = refl
opt_reading_kept (some d) old = refl

-- The change that a part makes where it is there.
abbrev pub opt_state : {D S : Type 0} → Option D → (D → S → S) → S → S
opt_state none change s = s
opt_state (some d) change s = change d s

pub read-opt_state :
    {D S R : Type 0} (read : S → R) (o : Option D) (change : D → S → S) (f : D → R → R)
    → ((d : D) (u : S) → read (change d u) ≡ f d (read u))
    → (s : S) → read (opt_state o change s) ≡ opt_reading o f (read s)
read-opt_state read none change f changes s = refl
read-opt_state read (some d) change f changes s = changes d s

abbrev pub op_label : Str → List Str
op_label op = op ∷ []

-- What an operation counter shows: the figure of its operation, if it is one of the exported ones.
abbrev pub ops_reading :
    {D F : Type 0} → (D → Str → ℤ) → Option D → List Str → Reading F → Reading F
ops_reading figure none ls old = old
ops_reading figure (some d) ls old = row_reading (figure d) (last_match op_label ls ops) old

module _ {F : Type 0} (docs : Documents) (c : Client MongoMetric F)
    (lawful : IsLawful arity c) where
  set_op_runs :
      {E : Type 0} (d : docs.Document) (checks : Bool) (op : Str) (s : c.State)
      → set_op {E = E} docs checks c d op s ≡ (ok tt, op_state docs c d op s)
  unfolding set_op arity
  set_op_runs d checks op s = rw (lawful.accepts_arity opcounters (op ∷ []) refl)

  pub ops_state : docs.Document → c.State → c.State
  ops_state d = change_all (op_state docs c d) ops

  pub set_opcounters_runs :
      {E : Type 0} (d : docs.Document) (checks : Bool) (s : c.State)
      → set_opcounters {E = E} docs checks c d s ≡ (ok tt, ops_state d s)
  unfolding set_opcounters ops_state
  set_opcounters_runs d checks s =
      rows_run (set_op docs checks c d) (op_state docs c d) (set_op_runs d checks) ops s

  pub if_ok_runs :
      {E : Type 0} (checks : Bool) (o : Option docs.Document)
      (f : docs.Document → Exec c.State E (Unit {0})) (change : docs.Document → c.State → c.State)
      → ((d : docs.Document) (s : c.State) → f d s ≡ (ok tt, change d s))
      → (s : c.State) → if_ok docs checks c o f s ≡ (ok tt, opt_state o change s)
  if_ok_runs checks none f change runs s = refl
  if_ok_runs checks (some d) f change runs s = runs d s

  pub read-ops_state :
      (o : Option docs.Document) (ls : List Str) (s : c.State)
      → c.read (opt_state o ops_state s) (record { metric = opcounters; labels = ls })
        ≡ ops_reading (int_field docs) o ls (c.read s (record { metric = opcounters; labels = ls }))
  unfolding ops_state
  read-ops_state none ls s = refl
  read-ops_state (some d) ls s =
      read-change_all c op_label (op_state docs c d) opcounters (int_field docs d)
        (λ op ms t. simp lawful.read-set) ops ls s

  pub read-ops_state_other :
      (o : Option docs.Document) (m : MongoMetric) (ls : List Str) (s : c.State)
      → m ≢ opcounters
      → c.read (opt_state o ops_state s) (record { metric = m; labels = ls })
        ≡ c.read s (record { metric = m; labels = ls })
  unfolding ops_state
  read-ops_state_other none m ls s h = refl
  read-ops_state_other (some d) m ls s h =
      read-change_all_other c op_label (op_state docs c d) m
        (λ op ms t. read-set_other c lawful opcounters m (op ∷ []) ms _ t h) ops ls s
