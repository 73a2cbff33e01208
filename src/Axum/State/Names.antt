-- ===== src/Axum/State/Names.antt =====
-- The options of all metrics: valid under a valid namespace, and no two of one name.
use dr_metrix.Prelude.{
  ◌≡◌, refl, ap, ◌∙◌, true, ◌&&◌, List, [], ◌∷◌, ◌++◌, map, All, All-append, arith,
}
use dr_metrix.Std.{Str, str_eq}
use dr_metrix.Core.Exec.{ok}
use dr_metrix.Core.Registry.{
  Opts, namespaced, valid_opts, taken, valid_name, later_chars, valid_rest, valid_labels,
  lacks_colon, increasing, all_fresh, add_all, Registry, IsRegistry, register_metrics,
  create_metrics,
}
use dr_metrix.Core.Registry.Names.{SharesNamespace, tails_fresh, all_fresh-eq-tails_fresh}
use dr_metrix.Core.Registry.Laws.{registered-register_metrics, register_metrics_iff, absorb_fresh}
use dr_metrix.Axum.Fields.{HttpMetric, requests_total, opts, metrics}
use dr_metrix.Redis.Fields.{RedisMetric}
use dr_metrix.Mongo.Fields.{MongoMetric}
use dr_metrix.Postgres.Fields.{PostgresMetric}
use dr_metrix.Redis.Collector.{redis_metrics}
use dr_metrix.Mongo.Collector.{mongo_metrics}
use dr_metrix.Postgres.Collector.{postgres_metrics}
use dr_metrix.Redis.Fields as Redis
use dr_metrix.Redis.Collector as RedisCollector
use dr_metrix.Mongo.Fields as Mongo
use dr_metrix.Mongo.Collector as MongoCollector
use dr_metrix.Postgres.Fields as Postgres
use dr_metrix.Postgres.Collector as PostgresCollector
use dr_metrix.Core.Registry.Validity.{IsNamespace, tails_valid, valid_of_tails}

abbrev pub http_opts : Str → List Opts
http_opts ns = map (opts ns) metrics

abbrev pub redis_opts : Str → List Opts
redis_opts ns = map (Redis.opts ns) Redis.metrics

abbrev pub mongo_opts : Str → List Opts
mongo_opts ns = map (Mongo.opts ns) Mongo.metrics

abbrev pub postgres_opts : Str → List Opts
postgres_opts ns = map (Postgres.opts ns) Postgres.metrics

abbrev pub all_opts : Str → List Opts
all_opts ns = http_opts ns ++ (postgres_opts ns ++ (redis_opts ns ++ mongo_opts ns))

all_tails_fresh : (ns : Str) → tails_fresh [] (all_opts ns) ≡ true
unfolding tails_fresh opts Redis.opts Mongo.opts Postgres.opts str_eq
all_tails_fresh ns = refl

opts-namespace : (ns : Str) (m : HttpMetric) → (opts ns m).namespace ≡ namespaced ns
unfolding opts
opts-namespace ns requests_total = refl
opts-namespace ns _ = refl

map-SharesNamespace :
    {M : Type 0} (ns : Str) (f : M → Opts)
    → ((m : M) → (f m).namespace ≡ ns)
    → (ms : List M) → SharesNamespace ns (map f ms)
map-SharesNamespace ns f h [] = tt
map-SharesNamespace ns f h (m ∷ ms) = (h m, map-SharesNamespace ns f h ms)

all_opts-SharesNamespace : (ns : Str) → SharesNamespace (namespaced ns) (all_opts ns)
all_opts-SharesNamespace ns =
    let shares = λ (o : Opts). o.namespace ≡ namespaced ns in
    All-append shares (http_opts ns) (postgres_opts ns ++ (redis_opts ns ++ mongo_opts ns))
      (map-SharesNamespace _ (opts ns) (opts-namespace ns) metrics)
      (All-append shares (postgres_opts ns) (redis_opts ns ++ mongo_opts ns)
        (map-SharesNamespace _ (Postgres.opts ns) (PostgresCollector.opts-namespace ns)
          Postgres.metrics)
        (All-append shares (redis_opts ns) (mongo_opts ns)
          (map-SharesNamespace _ (Redis.opts ns) (RedisCollector.opts-namespace ns) Redis.metrics)
          (map-SharesNamespace _ (Mongo.opts ns) (MongoCollector.opts-namespace ns) Mongo.metrics)))

pub all_opts_fresh : (ns : Str) → all_fresh [] (all_opts ns) ≡ true
all_opts_fresh ns =
    all_fresh-eq-tails_fresh (namespaced ns) [] (all_opts ns) tt (all_opts-SharesNamespace ns)
    ∙ all_tails_fresh ns

all_tails_valid : (ns : Str) → tails_valid (all_opts ns) ≡ true
unfolding tails_valid valid_name later_chars valid_rest valid_labels lacks_colon increasing str_eq
    opts Redis.opts Mongo.opts Postgres.opts
all_tails_valid ns = refl

-- Under a valid namespace all options are valid.
pub all_opts_valid :
    (ns : Str) → IsNamespace (namespaced ns) → All (λ o. valid_opts o ≡ true) (all_opts ns)
all_opts_valid ns h =
    valid_of_tails (namespaced ns) (all_opts ns) h (all_opts-SharesNamespace ns)
      (all_tails_valid ns)

pub all_fresh-append :
    (known os rest : List Opts)
    → all_fresh known (os ++ rest) ≡ all_fresh known os && all_fresh (add_all known os) rest
unfolding all_fresh
all_fresh-append known [] rest = refl
all_fresh-append known (o ∷ os) rest = rw (all_fresh-append (o ∷ known) os rest) (ground arith)

module _ {E : Type 0} (r : Registry E) where
  pub create_metrics_runs :
      IsRegistry r
      → (os : List Opts) (s : r.State) → All (λ o. valid_opts o ≡ true) os
      → create_metrics r os s ≡ (ok tt, s)
  unfolding create_metrics
  create_metrics_runs lawful [] s h = refl
  create_metrics_runs lawful (o ∷ os) s (h, hs) =
      rw (lawful.create_valid o h) (create_metrics_runs lawful os s hs)

  -- Registering the first of a sequence of fresh metrics leaves the rest fresh.
  pub registers_prefix :
      IsRegistry r
      → (os rest : List Opts) (s : r.State) → all_fresh (r.registered s) (os ++ rest) ≡ true
      → (s' : r.State) × (register_metrics r os s ≡ (ok tt, s'))
        × (all_fresh (r.registered s') rest ≡ true)
  registers_prefix lawful os rest s h =
      let split = all_fresh-append (r.registered s) os rest in
      let first : all_fresh (r.registered s) os ≡ true = ground arith in
      let later : all_fresh (add_all (r.registered s) os) rest ≡ true = ground arith in
      (
        (register_metrics r os s).1,
        ap (λ result. (result, (register_metrics r os s).1))
            ((register_metrics_iff r lawful os s).1 first),
        rw (registered-register_metrics r lawful os s, absorb_fresh (r.registered s) os first)
            later,
      )

-- A smaller list of known metrics takes fewer names.
all_fresh_of_fewer :
    (known more os : List Opts)
    → ((o : Opts) → taken known o ≡ true → taken more o ≡ true)
    → all_fresh more os ≡ true
    → all_fresh known os ≡ true
unfolding all_fresh taken
all_fresh_of_fewer known more [] h fresh = refl
all_fresh_of_fewer known more (o ∷ os) h fresh =
    let rest =
      all_fresh_of_fewer (o ∷ known) (o ∷ more) os (λ p t. ground (arith, h p)) (ground arith) in
    ground (arith, h o)

taken-add_all :
    (known os : List Opts) (o : Opts) → taken known o ≡ true → taken (add_all known os) o ≡ true
unfolding taken
taken-add_all known [] o h = h
taken-add_all known (k ∷ os) o h = taken-add_all (k ∷ known) os o (ground arith)

-- Metrics that are left out leave the later ones fresh.
pub all_fresh_of_later :
    (known os rest : List Opts) → all_fresh known (os ++ rest) ≡ true → all_fresh known rest ≡ true
all_fresh_of_later known os rest h =
    all_fresh_of_fewer known (add_all known os) rest (taken-add_all known os)
      (ground (arith, all_fresh-append known os rest))
