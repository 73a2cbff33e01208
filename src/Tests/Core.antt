-- ===== src/Tests/Core.antt =====
-- Tests of the background loop and of the registry.
use dr_metrix.Prelude.{ℕ, ◌≡◌, ◌≢◌, ◌+◌, refl, true, Option, none, some, List, [], ◌∷◌, ◌++◌, map}
use dr_metrix.Std.{codes}
use dr_metrix.Core.Error.{database}
use dr_metrix.Core.Exec.{Exec, ok, err, panicked}
use dr_metrix.Core.Registry.{Opts, register_metrics}
use dr_metrix.Core.Registry.Laws.{absorb, registered-register_metrics}
use dr_metrix.Core.Collector.Loop.{
  waiting, ended, collect_loop, collected, collect_loop_survives, collect_loop_panics,
}
use dr_metrix.Redis.Fields as Redis
use dr_metrix.Tests.Fixtures.{registry, registry-IsRegistry}

-- What one call of `collect` finds: a number to add, a failing source, or a fault in the code.
data Found : Type 0 where
  number : ℕ → Found
  nothing : Found
  fault : Found

abbrev adding : Found → Exec ℕ (Unit {0}) (Unit {0})
adding (number n) s = (ok tt, s + n)
adding nothing s = (err (database (codes "down")), s)
adding fault s = (panicked, s + 1)

-- The same with no fault.
abbrev tame : Option ℕ → Exec ℕ (Unit {0}) (Unit {0})
tame none s = (err (database (codes "down")), s)
tame (some n) s = (ok tt, s + n)

tame_no_panic : (i : Option ℕ) (s : ℕ) → (tame i s).0 ≢ panicked
tame_no_panic none s h = cc
tame_no_panic (some n) s h = cc

collect_loop_survives_example :
    collect_loop tame (λ p. true) 15 (some 1 ∷ none ∷ some 2 ∷ []) 0
    ≡ (waiting, collected tame (some 1 ∷ none ∷ some 2 ∷ []) 0)
collect_loop_survives_example =
    collect_loop_survives tame (λ p. true) 15 refl tame_no_panic (some 1 ∷ none ∷ some 2 ∷ []) 0

ran : collect_loop adding (λ p. true) 15 (number 1 ∷ nothing ∷ []) 0 ≡ (waiting, 1)
unfolding collect_loop
ran = refl

collect_loop_panics_example :
    collect_loop adding (λ p. true) 15 ((number 1 ∷ nothing ∷ []) ++ fault ∷ number 5 ∷ []) 0
    ≡ (ended, 2)
collect_loop_panics_example =
    collect_loop_panics adding (λ p. true) 15 (number 1 ∷ nothing ∷ []) (number 5 ∷ []) fault 0 1
      refl ran refl

abbrev some_opts : List Opts
some_opts = map (Redis.opts (codes "app")) Redis.metrics

registered-register_metrics_example :
    (register_metrics registry some_opts (some_opts ++ [])).1 ≡ absorb (some_opts ++ []) some_opts
registered-register_metrics_example =
    registered-register_metrics registry registry-IsRegistry some_opts (some_opts ++ [])
