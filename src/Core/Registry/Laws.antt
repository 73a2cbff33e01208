-- ===== src/Core/Registry/Laws.antt =====
-- Registering metrics one by one: all go in, or the first refusal ends it and the earlier ones stay.
use dr_metrix.Prelude.{
  ◌≡◌, ◌↔◌, refl, List, [], ◌∷◌, arith, true, false, if◌then◌else◌, Bool-cases, inl, inr,
}
use dr_metrix.Core.Error.{prometheus}
use dr_metrix.Core.Exec.{ok, err}
use dr_metrix.Core.Registry.{
  Opts, taken, all_fresh, add_all, Registry, IsRegistry, register, register_metrics,
}

-- What a sequence of registrations leaves: the metrics up to the first whose name is taken.
unfoldable pub absorb : List Opts → List Opts → List Opts
absorb known [] = known
absorb known (o ∷ os) = let rest = absorb (o ∷ known) os in if taken known o then known else rest

module _ {E : Type 0} (r : Registry E) (lawful : IsRegistry r) where
  register_untaken :
      (o : Opts) (s : r.State)
      → taken (r.registered s) o ≡ false
      → (s' : r.State) × (register r (o ∷ []) s ≡ (ok tt, s'))
        × (r.registered s' ≡ o ∷ r.registered s)
  unfolding register all_fresh
  register_untaken o s h =
      let (s', e, added) = lawful.register_fresh (o ∷ []) s (rw h) in (s', rw e, added)

  register_refused :
      (o : Opts) (s : r.State)
      → taken (r.registered s) o ≡ true
      → (e : E) × (register r (o ∷ []) s ≡ (err (prometheus e), s))
  unfolding register all_fresh
  register_refused o s h = let (e, p) = lawful.register_taken (o ∷ []) s (rw h) in (e, rw p)

  -- On every path the registry holds what was new up to the first refusal: nothing is undone.
  -- The registry is assumed to do what it documents.
  pub registered-register_metrics :
      (os : List Opts) (s : r.State)
      → r.registered (register_metrics r os s).1 ≡ absorb (r.registered s) os
  unfolding register_metrics absorb
  registered-register_metrics [] s = refl
  registered-register_metrics (o ∷ os) s = elim (Bool-cases (taken (r.registered s) o)) [
    | inl old ↦ let (e, p) = register_refused o s old in rw (p, old)
    | inr new ↦
        let (s', p, added) = register_untaken o s new in
        rw (p, new, registered-register_metrics os s', added)
  ]

  -- The sequence succeeds exactly when no name is taken, neither before nor by an earlier metric.
  -- The registry is assumed to do what it documents.
  pub register_metrics_iff :
      (os : List Opts) (s : r.State)
      → ((register_metrics r os s).0 ≡ ok tt) ↔ (all_fresh (r.registered s) os ≡ true)
  unfolding register_metrics all_fresh
  register_metrics_iff [] s = (λ _. refl, λ _. refl)
  register_metrics_iff (o ∷ os) s = elim (Bool-cases (taken (r.registered s) o)) [
    | inl old ↦ let (e, p) = register_refused o s old in rw (p, old) (λ q. cc, λ q. cc)
    | inr new ↦
        let (s', p, added) = register_untaken o s new in
        rw (p, new, ← added) (register_metrics_iff os s')
  ]

-- A sequence with no refusal leaves all of its metrics.
pub absorb_fresh :
    (known os : List Opts) → all_fresh known os ≡ true → absorb known os ≡ add_all known os
unfolding absorb all_fresh
absorb_fresh known [] h = refl
absorb_fresh known (o ∷ os) h =
    let rest : all_fresh (o ∷ known) os ≡ true = ground arith in
    ground (arith, absorb_fresh (o ∷ known) os rest)

-- A sequence whose first metric is taken leaves nothing new.
pub absorb-taken :
    (known os : List Opts) (o : Opts) → taken known o ≡ true → absorb known (o ∷ os) ≡ known
unfolding absorb
absorb-taken known os o h = rw h
