-- ===== src/Core/Collector.antt =====
-- dr-metrix-core/src/collector.rs and lib.rs: the configuration, the trait that each collector
-- implements, and the background loop.
pub mod Loop
use dr_metrix.Prelude.{ℕ, ◌*◌, List, [], ◌∷◌, Bool, Option, Eq, ℤ}
use dr_metrix.Std.{Str}
use dr_metrix.Core.Exec.{Exec, Outcome, ok, err, panicked}
use dr_metrix.Core.Registry.{Registry}

-- A `Duration` in nanoseconds.
abbrev pub Duration : Type 0
Duration = ℕ

abbrev pub from_secs : ℕ → Duration
from_secs n = n * 1_000_000_000

pub record CollectorConfig : Type 0 where
  pub namespace : Str
  pub collect_interval : Duration
  pub const_labels : List (Str × Str)

-- `CollectorConfig::default()`
abbrev pub default : CollectorConfig
default = record { namespace = []; collect_interval = from_secs 15; const_labels = [] }

-- Upper bounds of the histogram buckets, in units of 0.0001.
abbrev pub default_query_buckets : List ℕ
default_query_buckets =
    1 ∷ 5 ∷ 10 ∷ 50 ∷ 100 ∷ 250 ∷ 500 ∷ 1000 ∷ 2500 ∷ 5000 ∷ 10000 ∷ 25000 ∷ 50000 ∷ 100000 ∷ []

-- The trait. What a collection finds at its source is `Input`, one for each call of `collect`; the
-- values of the metrics are the state `S`.
pub record MetricsCollector {E : Type 0} (r : Registry E) (S Input : Type 0) : Type 1 where
  pub name : Str
  pub register : Exec r.State E (Unit {0})
  pub collect : Input → Exec S E (Unit {0})
