-- ===== src/Axum/Handler.antt =====
-- dr-metrix-axum/src/handler.rs: the answers of `/metrics` and `/health`.
pub mod Health
use dr_metrix.Prelude.{ℕ, ◌++◌, Option, none, some}
use dr_metrix.Std.{Str, codes, print_nat}
use dr_metrix.Core.Registry.{Registry}
use dr_metrix.Axum.State.{PrometheusMetrics, Runtime}

-- An answer, with the content type that the handler sets, if any.
pub record Answer : Type 0 where
  pub status : ℕ
  pub content_type : Option Str
  pub body : Str

module _ {E : Type 0} (r : Registry E) (rt : Runtime) where
  -- What the encoder makes of the registry is given: a text, or none if it fails.
  abbrev encoded : Option Str → Answer
  encoded (some buf) = record {
    status = 200;
    content_type = some (codes "text/plain; version=0.0.4; charset=utf-8");
    body = buf;
  }
  encoded none = record { status = 500; content_type = none; body = codes "" }

  unfoldable pub metrics_handler : (encode : r.State → Option Str) → PrometheusMetrics r rt → Answer
  metrics_handler encode app = encoded (encode app.registry)

  unfoldable pub health_handler : PrometheusMetrics r rt → Answer
  health_handler app = record {
    status = 200;
    content_type = none;
    body =
        codes "{\"status\":\"ok\",\"collectors\":" ++ (print_nat app.collector_count ++ codes "}");
  }
