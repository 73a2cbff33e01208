-- ===== src/Axum/Handler/Health.antt =====
-- What a client of `/health` reads.
use dr_metrix.Prelude.{ℕ, ◌≡◌, ap, ◌∙◌, ◌+◌, ◌%◌, ◌^◌, ◌++◌, [], Option, some, arith, length}
use dr_metrix.Prelude.Options.{◌>>=◌}
use dr_metrix.Std.{Str, codes, strip_prefix, split_once, print_nat}
use dr_metrix.Std.Number.{magnitude}
use dr_metrix.Std.Numerals.{print_nat-Lacks, magnitude-print_nat}
use dr_metrix.Std.Slices.{split_once-append}
use dr_metrix.Std.Splitting.{strip_prefix-append}
use dr_metrix.Core.Registry.{Registry}
use dr_metrix.Axum.State.{Runtime, IsRuntime}
use dr_metrix.Axum.State.Lifecycle.{System, Reach, Counts, Reach-Counts}
use dr_metrix.Axum.Handler.{health_handler}

-- The number behind the key `collectors`, up to the brace.
pub reported : Str → Option ℕ
reported body = do
  rest ← strip_prefix body (codes "{\"status\":\"ok\",\"collectors\":")
  parts ← split_once rest b'}'
  magnitude parts.0

reported-print_nat :
    (n : ℕ)
    → reported (codes "{\"status\":\"ok\",\"collectors\":" ++ (print_nat n ++ codes "}")) ≡ some n
unfolding reported
reported-print_nat n = rw (
  strip_prefix-append (codes "{\"status\":\"ok\",\"collectors\":") (print_nat n ++ codes "}"),
  split_once-append b'}' (print_nat n) [] (print_nat-Lacks b'}' n (omega arith)),
  magnitude-print_nat n,
)

module _ {E : Type 0} (r : Registry E) (rt : Runtime) (lawful : IsRuntime rt) where
  -- However collectors are added, refused or shut down, the number in the body of `/health` reads back as that
  -- of the handles that are kept and of all collectors that were stopped, modulo 2 ^ 64, if that was the count at
  -- the start. The runtime is assumed to do what it documents.
  pub health_reports :
      {s t : System r rt}
      → Reach r rt s t
      → Counts r rt s
      → reported (health_handler r rt t.app).body
        ≡ some ((length t.app.handles + t.stopped) % 2 ^ 64)
  unfolding health_handler
  health_reports {s} {t} reach counts =
      reported-print_nat t.app.collector_count ∙ ap some (Reach-Counts r rt lawful reach counts)
