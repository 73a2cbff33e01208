-- ===== src/Core/Registry.antt =====
-- Metric options and the registry of the Prometheus client library.
pub mod Names
pub mod Laws
pub mod Validity
use Prim.Native.String.{String}
use dr_metrix.Prelude.{
  ℕ, ◌≡◌, ◌≢◌, refl, List, [], ◌∷◌, ◌++◌, Bool, Option, none, some, All, arith, ltb, ◌&&◌, ◌||◌,
  not, true, false, if◌then◌else◌, leb, ◌==ℕ◌,
}
use dr_metrix.Std.{Str, codes, is_empty, str_eq}
use dr_metrix.Core.Error
use dr_metrix.Core.Error.{MetricsError, Result, prometheus}
use dr_metrix.Core.Exec.{Exec, Outcome, ok, err, for_each}

pub data Kind : Type 0 where
  int_gauge gauge int_gauge_vec int_counter_vec histogram_vec : Kind

-- `Opts` and `HistogramOpts`. A bucket bound is given in units of 0.0001.
pub record Opts : Type 0 where
  pub kind : Kind
  pub name : Str
  pub help : Str
  pub namespace : Str
  pub subsystem : Str
  pub labels : List Str
  pub buckets : List ℕ

-- `if !ns.is_empty() { opts = opts.namespace(ns) }`: without the call the namespace is empty.
abbrev pub namespaced : Str → Str
namespaced ns = if is_empty ns then [] else ns

abbrev pub opts_of : Str → Kind → Str → String → String → List Str → List ℕ → Opts
opts_of subsystem kind ns name help labels buckets = record {
  kind = kind;
  name = codes name;
  help = codes help;
  namespace = namespaced ns;
  subsystem = subsystem;
  labels = labels;
  buckets = buckets;
}

-- The name under which a metric is exposed: the parts that are not empty, joined by underscores.
abbrev pub prefixed : Str → Str → Str
prefixed [] name = name
prefixed (c ∷ s) name = (c ∷ s) ++ b'_' ∷ name

abbrev pub full_name : Opts → Str
full_name o = prefixed o.namespace (prefixed o.subsystem o.name)

abbrev has_str : Str → List Str → Bool
has_str s [] = false
has_str s (t ∷ ts) = str_eq t s || has_str s ts

-- A known metric has the name of `o`.
unfoldable pub taken : List Opts → Opts → Bool
taken [] o = false
taken (k ∷ known) o = str_eq (full_name k) (full_name o) || taken known o

-- A collector has one descriptor for each of its metrics. None of them is taken, nor by one before it.
unfoldable pub all_fresh : List Opts → List Opts → Bool
unfolding taken
all_fresh known [] = true
all_fresh known (o ∷ os) = not (taken known o) && all_fresh (o ∷ known) os

abbrev pub add_all : List Opts → List Opts → List Opts
add_all known [] = known
add_all known (o ∷ os) = add_all (o ∷ known) os

-- The characters of a metric name, the first of which is no digit; a label name has no colons.
abbrev name_char : ℕ → Bool
name_char c = leb b'a' c && leb c b'z' || leb b'A' c && leb c b'Z' || c ==ℕ b'_' || c ==ℕ b':'

abbrev pub later_char : ℕ → Bool
later_char c = name_char c || leb b'0' c && leb c b'9'

unfoldable pub later_chars : Str → Bool
later_chars [] = true
later_chars (c ∷ s) = later_char c && later_chars s

unfoldable pub valid_name : Str → Bool
unfolding later_chars
valid_name [] = false
valid_name (c ∷ s) = name_char c && later_chars s

unfoldable pub lacks_colon : Str → Bool
lacks_colon [] = true
lacks_colon (c ∷ s) = not (c ==ℕ b':') && lacks_colon s

-- Valid label names, no two the same, and none of them `le` in a histogram.
unfoldable pub valid_labels : Bool → List Str → Bool
unfolding valid_name lacks_colon
valid_labels histogram [] = true
valid_labels histogram (l ∷ ls) =
    valid_name l
    && lacks_colon l
    && not (histogram && str_eq l (codes "le"))
    && not (has_str l ls)
    && valid_labels histogram ls

unfoldable pub increasing : List ℕ → Bool
increasing [] = true
increasing (a ∷ []) = true
increasing (a ∷ b ∷ bs) = ltb a b && increasing (b ∷ bs)

abbrev is_histogram : Kind → Bool
is_histogram histogram_vec = true
is_histogram _ = false

-- The options but for the name.
unfoldable pub valid_rest : Opts → Bool
unfolding valid_labels increasing
valid_rest o =
    not (is_empty o.help) && valid_labels (is_histogram o.kind) o.labels && increasing o.buckets

unfoldable pub valid_opts : Opts → Bool
unfolding valid_name valid_rest
valid_opts o = valid_name (full_name o) && valid_rest o

-- The registry. `create` checks the options of a metric, and `register` takes the descriptors of one
-- collector; a refused call of it changes nothing.
pub record Registry (E : Type 0) : Type 1 where
  pub State : Type 0
  pub new : State
  pub create : Opts → Option E
  pub register : List Opts → State → Result E State
  pub registered : State → List Opts

-- What the library documents: valid options make a metric; a new registry is empty; a collector whose names are new is registered,
-- and one with a name that is taken is refused.
pub record IsRegistry {E : Type 0} (r : Registry E) : Type 0 where
  pub create_valid : (o : Opts) → valid_opts o ≡ true → r.create o ≡ none
  pub registered-new : r.registered r.new ≡ []
  pub register_fresh :
      (os : List Opts) (s : r.State)
      → all_fresh (r.registered s) os ≡ true
      → (s' : r.State) × (r.register os s ≡ Error.ok s')
        × (r.registered s' ≡ add_all (r.registered s) os)
  pub register_taken :
      (os : List Opts) (s : r.State)
      → all_fresh (r.registered s) os ≡ false
      → (e : E) × (r.register os s ≡ Error.err (prometheus e))

module _ {E : Type 0} (r : Registry E) where
  registering : r.State → Result E r.State → Outcome E (Unit {0}) × r.State
  registering s (Error.ok s') = (ok tt, s')
  registering s (Error.err e) = (err e, s)

  -- `registry.register(Box::new(…))?`
  unfoldable pub register : List Opts → Exec r.State E (Unit {0})
  unfolding registering
  register os s = registering s (r.register os s)

  -- `Metric::with_opts(opts)?`
  abbrev create_result : Option E → Outcome E (Unit {0})
  create_result none = ok tt
  create_result (some e) = err (prometheus e)

  unfoldable pub create : Opts → Exec r.State E (Unit {0})
  create o s = (create_result (r.create o), s)

  -- One `register` call for each metric, in order.
  unfoldable pub register_metrics : List Opts → Exec r.State E (Unit {0})
  unfolding for_each register
  register_metrics = for_each (λ o. register (o ∷ []))

  unfoldable pub create_metrics : List Opts → Exec r.State E (Unit {0})
  unfolding for_each create
  create_metrics = for_each create
