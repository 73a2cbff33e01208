-- ===== src/Axum/Layer/Atomic/Commuting.antt =====
-- Operations on a reading commute, up to the order of observations.
use mathlib.Core.List.{Permᴰ}
use dr_metrix.Prelude.{
  ◌≡◌, refl, sym, ap, List, [], ◌∷◌, Bool, true, false, nat_eq, list_eq, ◌==◌, wrap_commutes,
}
use dr_metrix.Core.Metrics.{
  Reading, int, float, counter, samples, incremented, decremented, observed, Series, series_eq,
}
use dr_metrix.Axum.Fields.{HttpMetric, http_metric_eq}
use dr_metrix.Axum.Layer.Atomic.{
  Op, incs, decs, observes, changed, series_of, on_match, ops_reading, Same, equal, reordered,
  chained,
}

module _ {F : Type 0} where
  Same-changed : (op : Op F) {r t : Reading F} → Same r t → Same (changed op r) (changed op t)
  Same-changed op (equal e) = equal (ap (changed op) e)
  Same-changed (incs k) (reordered p) = reordered p
  Same-changed (decs k) (reordered p) = reordered p
  Same-changed (observes k x) (reordered p) = reordered (Permᴰ.cons refl p)
  Same-changed op (chained p q) = chained (Same-changed op p) (Same-changed op q)

  Same-on_match :
      (b : Bool) (op : Op F) {r t : Reading F} → Same r t → Same (on_match b op r) (on_match b op t)
  Same-on_match true op p = Same-changed op p
  Same-on_match false op p = p

  incremented-observed :
      (x : F) (r : Reading F) → observed x (incremented r) ≡ incremented (observed x r)
  incremented-observed x (int v) = refl
  incremented-observed x (float y) = refl
  incremented-observed x (counter n) = refl
  incremented-observed x (samples xs) = refl

  decremented-observed :
      (x : F) (r : Reading F) → observed x (decremented r) ≡ decremented (observed x r)
  decremented-observed x (int v) = refl
  decremented-observed x (float y) = refl
  decremented-observed x (counter n) = refl
  decremented-observed x (samples xs) = refl

  decremented-incremented :
      (r : Reading F) → decremented (incremented r) ≡ incremented (decremented r)
  decremented-incremented (int v) = ap int (sym (wrap_commutes v))
  decremented-incremented (float y) = refl
  decremented-incremented (counter n) = refl
  decremented-incremented (samples xs) = refl

  observed-swap :
      (x y : F) (r : Reading F) → Same (observed y (observed x r)) (observed x (observed y r))
  observed-swap x y (samples xs) = reordered (Permᴰ.swap refl refl)
  observed-swap x y (int v) = equal refl
  observed-swap x y (float z) = equal refl
  observed-swap x y (counter n) = equal refl

  -- Operations commute.
  changed-swap :
      (a b : Op F) (r : Reading F) → Same (changed b (changed a r)) (changed a (changed b r))
  changed-swap (incs k) (incs l) r = equal refl
  changed-swap (decs k) (decs l) r = equal refl
  changed-swap (incs k) (decs l) r = equal (decremented-incremented r)
  changed-swap (decs k) (incs l) r = equal (sym (decremented-incremented r))
  changed-swap (incs k) (observes l y) r = equal (incremented-observed y r)
  changed-swap (observes k x) (incs l) r = equal (sym (incremented-observed x r))
  changed-swap (decs k) (observes l y) r = equal (decremented-observed y r)
  changed-swap (observes k x) (decs l) r = equal (sym (decremented-observed x r))
  changed-swap (observes k x) (observes l y) r = observed-swap x y r

  on_match-swap :
      (i j : Bool) (a b : Op F) (r : Reading F)
      → Same (on_match j b (on_match i a r)) (on_match i a (on_match j b r))
  on_match-swap true true a b r = changed-swap a b r
  on_match-swap true false a b r = equal refl
  on_match-swap false j a b r = equal refl

  Same-ops_reading :
      (ops : List (Op F)) (k : Series HttpMetric) {r t : Reading F}
      → Same r t
      → Same (ops_reading ops k r) (ops_reading ops k t)
  Same-ops_reading [] k p = p
  Same-ops_reading (op ∷ ops) k p = Same-ops_reading ops k (Same-on_match (series_of op == k) op p)

  pub ops_reading-Permᴰ :
      (k : Series HttpMetric) {ops ops' : List (Op F)} (r : Reading F)
      → Permᴰ ops ops'
      → Same (ops_reading ops k r) (ops_reading ops' k r)
  ops_reading-Permᴰ k r Permᴰ.nil = equal refl
  ops_reading-Permᴰ k r (Permᴰ.cons {a = a} e p) =
      rw (← e) (ops_reading-Permᴰ k (on_match (series_of a == k) a r) p)
  ops_reading-Permᴰ k r (Permᴰ.swap {a = a} {b = b} {l = l} e e') =
      rw (← e, ← e')
        (Same-ops_reading l k (on_match-swap (series_of a == k) (series_of b == k) a b r))
  ops_reading-Permᴰ k r (Permᴰ.trans p q) =
      chained (ops_reading-Permᴰ k r p) (ops_reading-Permᴰ k r q)
