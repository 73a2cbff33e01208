-- ===== src/Core/Error.antt =====
-- dr-metrix-core/src/error.rs. `E` is the error type of the Prometheus client library; a value with
-- `Display` is given by the text that it displays.
use dr_metrix.Std.{Str}

pub data MetricsError (E : Type 0) : Type 0 where
  prometheus : E → MetricsError E
  database : Str → MetricsError E
  collector : Str → MetricsError E

pub data Result (E A : Type 0) : Type 0 where
  ok : A → Result E A
  err : MetricsError E → Result E A

infixl 5 ◌>>=◌
abbrev pub ◌>>=◌ : {E A B : Type 0} → Result E A → (A → Result E B) → Result E B
ok a >>= f = f a
err e >>= f = err e
