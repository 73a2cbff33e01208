-- ===== src/Std/Float.antt =====
-- The type `f64`, of which the language's operations that the source uses are parameters.
use dr_metrix.Prelude.{ℤ, Option, IsI64}
use dr_metrix.Std.Text.{Str}

pub record Floats (F : Type 0) : Type 0 where
  -- `0.0`
  pub zero : F
  -- `parse::<f64>()`
  pub parse_f64 : Str → Option F
  -- `f as i64`, which saturates
  pub as_i64 : F → ℤ
  pub as_i64-IsI64 : (f : F) → IsI64 (as_i64 f)
