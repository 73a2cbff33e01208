-- ===== src/Axum/Layer/Service.antt =====
-- dr-metrix-axum/src/layer.rs: the service that the layer wraps around another. A service has a handle,
-- which `poll_ready` makes ready and `clone` copies, and what all handles share.
pub mod Transparent
use dr_metrix.Prelude.{ℕ, ◌≡◌, List, [], ◌∷◌, Bool}
use dr_metrix.Std.{Floats}
use dr_metrix.Core.Exec.{Exec, Outcome, ok, err, panicked, ◌>>=◌, ◌>>◌, pure}
use dr_metrix.Core.Metrics.{Client}
use dr_metrix.Axum.Fields.{HttpMetric}
use dr_metrix.Axum.Layer.{Request, Answer, Pending, begin, finish}

pub data Poll : Type 0 where
  ready : Poll
  pending : Poll

-- `Service<Request<Body>>` with `Clone`. `R` is the result of a call, a response or an error.
pub record Service (E Q R : Type 0) : Type 1 where
  pub Handle : Type 0
  pub Shared : Type 0
  pub clone : Handle → Handle
  pub poll_ready : Handle × Shared → Poll × (Handle × Shared)
  pub call : Q → Exec (Handle × Shared) E R

-- What the layer reads of a request and of a result.
pub record View (Q R : Type 0) : Type 0 where
  pub request : Q → Request
  pub answer : R → Answer

module _ {F E Q R : Type 0} (floats : Floats F) (c : Client HttpMetric F) (view : View Q R)
    (elapsed : Q → F) (inner : Service E Q R) where
  -- The state of the wrapped service: the handle of the inner one, what its handles share, the metrics.
  abbrev pub State : Type 0
  State = inner.Handle × (inner.Shared × c.State)

  abbrev pub on_metrics : {A : Type 0} → Exec c.State E A → Exec State E A
  on_metrics m (h, (s, metrics)) = let (a, metrics') = m metrics in (a, (h, (s, metrics')))

  -- `self.inner.clone()`, then `svc.call(req)`: the copy is dropped at the end, and the handle stays.
  abbrev pub on_clone : {A : Type 0} → Exec (inner.Handle × inner.Shared) E A → Exec State E A
  on_clone m (h, (s, metrics)) = let (a, (_, s')) = m (inner.clone h, s) in (a, (h, (s', metrics)))

  unfoldable pub poll_ready : State → Poll × State
  poll_ready (h, (s, metrics)) =
      let (p, (h', s')) = inner.poll_ready (h, s) in (p, (h', (s', metrics)))

  -- `call` and the future that it returns
  unfoldable pub call : Q → Exec State E R
  call q = do
    p ← on_metrics (begin floats c (view.request q))
    result ← on_clone (inner.call q)
    on_metrics (finish floats c p (elapsed q) (view.answer result))
    pure result

  -- `layer`
  abbrev pub layer : Service E Q R
  layer = record {
    Handle = inner.Handle;
    Shared = inner.Shared × c.State;
    clone = inner.clone;
    poll_ready = poll_ready;
    call = call;
  }

-- Requests to a service, one after the other.
unfoldable pub serve_all :
    {E Q R : Type 0} (service : Service E Q R)
    → List Q
    → Exec (service.Handle × service.Shared) E (List R)
serve_all service [] = pure []
serve_all service (q ∷ qs) = do r ← service.call q; rs ← serve_all service qs; pure (r ∷ rs)
