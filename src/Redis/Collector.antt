-- ===== src/Redis/Collector.antt =====
-- dr-metrix-redis/src/metrics.rs: creating and registering the metrics, and the trait.
use dr_metrix.Prelude.{◌≡◌, refl, map}
use dr_metrix.Std.{Str, codes, Floats}
use dr_metrix.Core.Exec.{Exec}
use dr_metrix.Core.Metrics.{Client}
use dr_metrix.Core.Registry.{Registry, create_metrics, register_metrics, namespaced}
use dr_metrix.Core.Collector.{CollectorConfig, MetricsCollector}
use dr_metrix.Redis.Fields.{RedisMetric, pool_connections, opts, metrics}
use dr_metrix.Redis.Collect.{Poll, collect}

module _ {E : Type 0} (r : Registry E) (config : CollectorConfig) where
  -- The metrics that `new` makes, each with `with_opts(…)?`.
  unfoldable pub new : Exec r.State E (Unit {0})
  new = create_metrics r (map (opts config.namespace) metrics)

  unfoldable pub register : Exec r.State E (Unit {0})
  register = register_metrics r (map (opts config.namespace) metrics)

-- The implementation of the trait.
unfoldable pub redis_metrics :
    {E F : Type 0} (floats : Floats F) (c : Client RedisMetric F) (r : Registry E)
    → CollectorConfig
    → MetricsCollector r c.State Poll
redis_metrics floats c r config = record {
  name = codes "redis";
  register = register r config;
  collect = collect floats c;
}

pub opts-namespace : (ns : Str) (m : RedisMetric) → (opts ns m).namespace ≡ namespaced ns
unfolding opts
opts-namespace ns pool_connections = refl
opts-namespace ns _ = refl
