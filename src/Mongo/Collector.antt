-- ===== src/Mongo/Collector.antt =====
-- dr-metrix-mongo/src/metrics.rs: creating and registering the metrics, and the trait.
use dr_metrix.Prelude.{◌≡◌, refl, map, Bool}
use dr_metrix.Std.{Str, codes}
use dr_metrix.Core.Exec.{Exec}
use dr_metrix.Core.Metrics.{Client}
use dr_metrix.Core.Registry.{Registry, create_metrics, register_metrics, namespaced}
use dr_metrix.Core.Collector.{CollectorConfig, MetricsCollector}
use dr_metrix.Mongo.Fields.{MongoMetric, connections_current, opts, metrics}
use dr_metrix.Mongo.Collect.{Documents, Reply, collect}

module _ {E : Type 0} (r : Registry E) (config : CollectorConfig) where
  -- The metrics that `new` makes, each with `with_opts(…)?`.
  unfoldable pub new : Exec r.State E (Unit {0})
  new = create_metrics r (map (opts config.namespace) metrics)

  unfoldable pub register : Exec r.State E (Unit {0})
  register = register_metrics r (map (opts config.namespace) metrics)

-- The implementation of the trait.
unfoldable pub mongo_metrics :
    {E F : Type 0} (docs : Documents) (checks : Bool) (c : Client MongoMetric F) (r : Registry E)
    → CollectorConfig
    → MetricsCollector r c.State (Reply docs.Document)
mongo_metrics docs checks c r config = record {
  name = codes "mongo";
  register = register r config;
  collect = collect docs checks c;
}

pub opts-namespace : (ns : Str) (m : MongoMetric) → (opts ns m).namespace ≡ namespaced ns
unfolding opts
opts-namespace ns connections_current = refl
opts-namespace ns _ = refl
