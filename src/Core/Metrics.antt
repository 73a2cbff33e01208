-- ===== src/Core/Metrics.antt =====
-- The metric values of the Prometheus client library, as the collectors use them. A metric is named by
-- the struct field that holds its handle; its series are told apart by their label values.
pub mod Rows
pub mod Order
use dr_metrix.Prelude.{
  ℕ, ◌+◌, ◌%◌, ◌^◌, ◌≡◌, ◌≢◌, refl, ◌∙◌, ◌↔◌, Bool, true, ◌&&◌, List, [], ◌∷◌, arith, length,
  if◌then◌else◌, ℤ, wrap_i64, add_one, sub_one, Eq, ◌==◌, list_eq, nat_eq, list_beq_iff, list_beq,
}
use dr_metrix.Std.{Str}
use dr_metrix.Core.Error.{MetricsError}
use dr_metrix.Core.Exec.{Exec, pure, panic, modify, ◌>>=◌, ◌>>◌}

pub record Series (MetricId : Type 0) : Type 0 where
  pub metric : MetricId
  pub labels : List Str

module _ {MetricId : Type 0} ⦃e : Eq MetricId⦄ where
  abbrev pub series_beq : Series MetricId → Series MetricId → Bool
  series_beq a b = a.metric == b.metric && list_beq a.labels b.labels

  pub series_beq_iff : (a b : Series MetricId) → (series_beq a b ≡ true) ↔ (a ≡ b)
  series_beq_iff a b = ground (arith, e.beq_iff a.metric b.metric, list_beq_iff a.labels b.labels)

  instance abbrev pub series_eq : Eq (Series MetricId)
  series_eq = record { beq = series_beq; beq_iff = series_beq_iff }

-- What one series holds: the number of an `IntGauge`, of a `Gauge`, of an `IntCounter`, or the
-- observations of a `Histogram`, the latest first.
pub data Reading (F : Type 0) : Type 0 where
  int : ℤ → Reading F
  float : F → Reading F
  counter : ℕ → Reading F
  samples : List F → Reading F

module _ {F : Type 0} where
  -- The atomics of the library wrap around.
  abbrev pub incremented : Reading F → Reading F
  incremented (int v) = int (wrap_i64 (add_one v))
  incremented (counter n) = counter ((n + 1) % 2 ^ 64)
  incremented r = r

  abbrev pub decremented : Reading F → Reading F
  decremented (int v) = int (wrap_i64 (sub_one v))
  decremented r = r

  abbrev pub observed : F → Reading F → Reading F
  observed x (samples xs) = samples (x ∷ xs)
  observed x r = r

-- The library, for the metrics `MetricId` of one struct and the type `F` of `f64`. `accepts` says whether
-- `with_label_values` finds a series for the labels; otherwise it panics.
pub record Client (MetricId F : Type 0) : Type 1 where
  pub State : Type 0
  pub accepts : MetricId → List Str → Bool
  pub read : State → Series MetricId → Reading F
  pub set : Series MetricId → Reading F → State → State
  pub inc : Series MetricId → State → State
  pub dec : Series MetricId → State → State
  pub observe : Series MetricId → F → State → State

-- What the library documents: labels are accepted if there is one for each label name, and an
-- operation changes its own series alone.
pub record IsLawful {MetricId F : Type 0} ⦃e : Eq MetricId⦄ (arity : MetricId → ℕ)
    (c : Client MetricId F) : Type 0 where
  pub accepts_arity : (m : MetricId) (ls : List Str) → length ls ≡ arity m → c.accepts m ls ≡ true
  pub read-set :
      (s t : Series MetricId) (v : Reading F) (st : c.State)
      → c.read (c.set s v st) t ≡ (if s == t then v else c.read st t)
  pub read-inc :
      (s t : Series MetricId) (st : c.State)
      → c.read (c.inc s st) t ≡ (if s == t then incremented (c.read st t) else c.read st t)
  pub read-dec :
      (s t : Series MetricId) (st : c.State)
      → c.read (c.dec s st) t ≡ (if s == t then decremented (c.read st t) else c.read st t)
  pub read-observe :
      (s t : Series MetricId) (x : F) (st : c.State)
      → c.read (c.observe s x st) t ≡ (if s == t then observed x (c.read st t) else c.read st t)

module _ {MetricId F : Type 0} (c : Client MetricId F) where
  -- An operation on the metrics, which fails with no error of its own.
  abbrev pub Action : Type 0 → Type 0
  Action E = Exec c.State E (Unit {0})

  -- `self.metric.set(v)`
  abbrev pub set_gauge : {E : Type 0} → MetricId → ℤ → Action E
  set_gauge m v = modify (c.set (record { metric = m; labels = [] }) (int v))

  abbrev pub set_float_gauge : {E : Type 0} → MetricId → F → Action E
  set_float_gauge m v = modify (c.set (record { metric = m; labels = [] }) (float v))

  -- `self.metric.with_label_values(ls)`, then the operation
  abbrev pub with_label_values :
      {E : Type 0} → MetricId → List Str → (Series MetricId → c.State → c.State) → Action E
  with_label_values m ls f =
      if c.accepts m ls then modify (f (record { metric = m; labels = ls })) else panic

  abbrev pub set_labelled : {E : Type 0} → MetricId → List Str → ℤ → Action E
  set_labelled m ls v = with_label_values m ls (λ s. c.set s (int v))

  abbrev pub observe_labelled : {E : Type 0} → MetricId → List Str → F → Action E
  observe_labelled m ls x = with_label_values m ls (λ s. c.observe s x)

-- A client that keeps every series in a function: the assumptions can be met.
module _ {MetricId F : Type 0} ⦃e : Eq MetricId⦄ (arity : MetricId → ℕ) where
  abbrev pub memory_client : Client MetricId F
  memory_client = record {
    State = Series MetricId → Reading F;
    accepts = λ m ls. length ls == arity m;
    read = λ st t. st t;
    set = λ s v st t. if s == t then v else st t;
    inc = λ s st t. if s == t then incremented (st t) else st t;
    dec = λ s st t. if s == t then decremented (st t) else st t;
    observe = λ s x st t. if s == t then observed x (st t) else st t;
  }

  pub memory_client-IsLawful : IsLawful arity memory_client
  memory_client-IsLawful = record {
    accepts_arity = λ m ls h. (nat_eq.beq_iff (length ls) (arity m)).1 h;
    read-set = λ s t v st. refl;
    read-inc = λ s t st. refl;
    read-dec = λ s t st. refl;
    read-observe = λ s t x st. refl;
  }

-- Setting a series of one metric leaves every series of another.
pub read-set_other :
    {MetricId F : Type 0} ⦃e : Eq MetricId⦄ {arity : MetricId → ℕ} (c : Client MetricId F)
    → IsLawful arity c
    → (m n : MetricId) (ls ms : List Str) (v : Reading F) (s : c.State) → n ≢ m
    → c.read (c.set (record { metric = m; labels = ls }) v s) (record { metric = n; labels = ms })
      ≡ c.read s (record { metric = n; labels = ms })
read-set_other ⦃e⦄ c lawful m n ls ms v s h =
    lawful.read-set (record { metric = m; labels = ls }) (record { metric = n; labels = ms }) v s
    ∙ ground (arith, e.beq_iff m n)
