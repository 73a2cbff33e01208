-- ===== src/Axum/Layer/Service/Transparent.antt =====
-- The layer changes no answer.
use dr_metrix.Prelude.{◌≡◌, refl, List, [], ◌∷◌, if◌then◌else◌, ◌==◌}
use dr_metrix.Std.{Floats}
use dr_metrix.Core.Exec.{Exec, Outcome, continue, ok, err, panicked}
use dr_metrix.Core.Metrics.{Client, IsLawful, incremented, Series, series_eq}
use dr_metrix.Axum.Fields.{HttpMetric, http_metric_eq, arity}
use dr_metrix.Axum.Layer.{in_flight}
use dr_metrix.Axum.Layer.Requests.Effects.{captured, begin_runs, finish_state, finish_runs}
use dr_metrix.Axum.Layer.Service.{Service, ready, View, poll_ready, call, layer, serve_all}

-- A call does not depend on the handle: nothing but what all handles share is used.
pub record IsShared {E Q R : Type 0} (inner : Service E Q R) : Type 0 where
  pub answer :
      (q : Q) (g h : inner.Handle) (s : inner.Shared)
      → (inner.call q (g, s)).0 ≡ (inner.call q (h, s)).0
  pub shared :
      (q : Q) (g h : inner.Handle) (s : inner.Shared)
      → (inner.call q (g, s)).1.1 ≡ (inner.call q (h, s)).1.1

-- A run over the layered state and one over the inner state end alike: in the result, and in what the
-- handles share.
record Agrees {E H S M A : Type 0} (x : Outcome E A × (H × (S × M))) (y : Outcome E A × (H × S))
    : Type 0 where
  outcome : x.0 ≡ y.0
  shared : x.1.1.0 ≡ y.1.1

Agrees-continue :
    {E H S M A B : Type 0} (f : A → Exec (H × (S × M)) E B) (f' : A → Exec (H × S) E B)
    → ((a : A) (g h : H) (s : S) (m : M) → Agrees (f a (g, (s, m))) (f' a (h, s)))
    → (x : Outcome E A × (H × (S × M))) (y : Outcome E A × (H × S)) → Agrees x y
    → Agrees (continue x f) (continue y f')
Agrees-continue f f' next (o, (g, (s, m))) (o', (h, s')) e = rw (e.outcome, e.shared) (same o')
  where
    same : (o : Outcome _ _) → Agrees (continue (o, (g, (s', m))) f) (continue (o, (h, s')) f')
    same (ok a) = next a g h s' m
    same (err x) = record { outcome = refl; shared = refl }
    same panicked = record { outcome = refl; shared = refl }

module _ {F E Q R : Type 0} (floats : Floats F) (c : Client HttpMetric F)
    (lawful : IsLawful arity c) (view : View Q R) (elapsed : Q → F) (inner : Service E Q R) where
  -- The metrics behind a call of the inner service: the future ends only if the inner one does.
  ended_metrics : Q → Outcome E R → c.State → c.State
  ended_metrics q (ok r) m =
      finish_state floats c lawful (captured (view.request q)) (elapsed q) (view.answer r) m
  ended_metrics q (err x) m = m
  ended_metrics q panicked m = m

  call_runs :
      (q : Q) (h : inner.Handle) (s : inner.Shared) (m : c.State)
      → let (o, (_, s')) = inner.call q (inner.clone h, s) in
        call floats c view elapsed inner q (h, (s, m))
        ≡ (o, (h, (s', ended_metrics q o (c.inc in_flight m))))
  unfolding call ended_metrics
  call_runs q h s m = by_outcome (inner.call q (inner.clone h, s)).0 refl
    where
      by_outcome :
          (o : Outcome E R)
          → (inner.call q (inner.clone h, s)).0 ≡ o
          → call floats c view elapsed inner q (h, (s, m)) ≡ (
            o,
            (h, ((inner.call q (inner.clone h, s)).1.1, ended_metrics q o (c.inc in_flight m))),
          )
      by_outcome (ok r) e =
          rw
            (
              begin_runs floats c lawful {E = E} (view.request q) m,
              e,
              finish_runs floats c lawful {E = E} (captured (view.request q)) (elapsed q)
                  (view.answer r) (c.inc in_flight m),
            )
            refl
      by_outcome (err x) e = rw (begin_runs floats c lawful {E = E} (view.request q) m, e) refl
      by_outcome panicked e = rw (begin_runs floats c lawful {E = E} (view.request q) m, e) refl

  call-Agrees :
      IsShared inner
      → (q : Q) (g h : inner.Handle) (s : inner.Shared) (m : c.State)
      → Agrees (call floats c view elapsed inner q (g, (s, m))) (inner.call q (h, s))
  call-Agrees shares q g h s m = rw (call_runs q g s m) (record {
    outcome = shares.answer q (inner.clone g) h s;
    shared = shares.shared q (inner.clone g) h s;
  })

  serve_all-Agrees :
      IsShared inner
      → (qs : List Q) (g h : inner.Handle) (s : inner.Shared) (m : c.State)
      → Agrees
          (serve_all (layer floats c view elapsed inner) qs (g, (s, m)))
          (serve_all inner qs (h, s))
  unfolding serve_all
  serve_all-Agrees shares [] g h s m = record { outcome = refl; shared = refl }
  serve_all-Agrees shares (q ∷ qs) g h s m =
      Agrees-continue _ _
        (λ r g' h' s' m'.
          Agrees-continue _ _ (λ rs g'' h'' s'' m''. record { outcome = refl; shared = refl }) _ _
            (serve_all-Agrees shares qs g' h' s' m'))
        _ _ (call-Agrees shares q g h s m)

  -- Where the handles of a service differ in nothing that a call reads, any requests, served one after the
  -- other, have the same results under the layer as without it, and leave what the handles share alike.
  -- The client library is assumed to do what it documents.
  pub layer_transparent :
      IsShared inner
      → (qs : List Q) (g h : inner.Handle) (s : inner.Shared) (m : c.State)
      → let layered = serve_all (layer floats c view elapsed inner) qs (g, (s, m)) in
        let bare = serve_all inner qs (h, s) in (layered.0 ≡ bare.0) × (layered.1.1.0 ≡ bare.1.1)
  layer_transparent shares qs g h s m =
      let same = serve_all-Agrees shares qs g h s m in (same.outcome, same.shared)

  -- If a fresh copy of the inner handle panics on a request, so does the layered service, also where its own
  -- handle has been made ready: the request stays in flight, and no other reading changes.
  -- The client library is assumed to do what it documents.
  pub inner_panic :
      (q : Q) (h g : inner.Handle) (s t : inner.Shared) (m : c.State)
      → poll_ready floats c view elapsed inner (h, (s, m)) ≡ (ready, (g, (t, m)))
      → (inner.call q (inner.clone g, t)).0 ≡ panicked
      → let after =
          call floats c view elapsed inner q
            (poll_ready floats c view elapsed inner (h, (s, m))).1 in
        (after.0 ≡ panicked)
        × ((k : Series HttpMetric)
            → c.read after.1.1.1 k
              ≡ (if in_flight == k then incremented (c.read m k) else c.read m k))
  unfolding ended_metrics
  inner_panic q h g s t m is_ready fails =
      rw (is_ready, call_runs q g t m, fails) (refl, λ k. lawful.read-inc in_flight k m)
