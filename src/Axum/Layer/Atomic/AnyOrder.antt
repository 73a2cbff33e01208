-- ===== src/Axum/Layer/Atomic/AnyOrder.antt =====
-- The calls of the layer as operations, and the operations in any order.
use mathlib.Core.List.{Permᴰ}
use dr_metrix.Prelude.{
  ◌≡◌, refl, sym, ap, ◌∙◌, List, [], ◌∷◌, ◌++◌, Option, none, some, Bool, true, false,
  if◌then◌else◌, nat_eq, list_eq, ◌==◌,
}
use dr_metrix.Std.{Floats}
use dr_metrix.Core.Exec.{ok}
use dr_metrix.Core.Metrics.{Client, IsLawful, Reading, Series, series_eq}
use dr_metrix.Axum.Fields.{HttpMetric, http_metric_eq, arity}
use dr_metrix.Axum.Layer.{Request, Answer, response, error, Pending, in_flight}
use dr_metrix.Axum.Layer.Log.{Event, begins, answers, logged, happen_all, follow_log}
use dr_metrix.Axum.Layer.Requests.Effects.{
  captured, header_length, size_state, finish_state, begin_runs, finish_runs,
}
use dr_metrix.Axum.Layer.Atomic.{
  Op, incs, decs, observes, apply, apply_all, size_ops, ops_of, all_ops, changed, series_of,
  on_match, ops_reading, Same, equal, chained,
}
use dr_metrix.Axum.Layer.Atomic.Commuting.{ops_reading-Permᴰ}

module _ {F : Type 0} (c : Client HttpMetric F) where
  apply_all-append :
      (ops more : List (Op F)) (s : c.State)
      → apply_all c (ops ++ more) s ≡ apply_all c more (apply_all c ops s)
  apply_all-append [] more s = refl
  apply_all-append (op ∷ ops) more s = apply_all-append ops more (apply c op s)

module _ {F : Type 0} (floats : Floats F) (c : Client HttpMetric F)
    (lawful : IsLawful arity c) where
  read-apply_all :
      (ops : List (Op F)) (k : Series HttpMetric) (s : c.State)
      → c.read (apply_all c ops s) k ≡ ops_reading ops k (c.read s k)
  read-apply_all [] k s = refl
  read-apply_all (op ∷ ops) k s =
      read-apply_all ops k (apply c op s) ∙ ap (ops_reading ops k) (read-apply op k s)
    where
      by_match :
          (b : Bool) (op : Op F) (r : Reading F) → (if b then changed op r else r) ≡ on_match b op r
      by_match true op r = refl
      by_match false op r = refl

      read-apply :
          (op : Op F) (k : Series HttpMetric) (s : c.State)
          → c.read (apply c op s) k ≡ on_match (series_of op == k) op (c.read s k)
      read-apply (incs l) k s = lawful.read-inc l k s ∙ by_match (l == k) (incs l) (c.read s k)
      read-apply (decs l) k s = lawful.read-dec l k s ∙ by_match (l == k) (decs l) (c.read s k)
      read-apply (observes l x) k s =
          lawful.read-observe l k x s ∙ by_match (l == k) (observes l x) (c.read s k)

  size_state-ops :
      (p : Pending) (len : Option F) (s : c.State)
      → size_state floats c lawful p len s ≡ apply_all c (size_ops floats p len) s
  unfolding size_state
  size_state-ops p none s = refl
  size_state-ops p (some len) s = refl

  finish_state-ops :
      (req : Request) (elapsed : F) (answer : Answer) (s : c.State)
      → finish_state floats c lawful (captured req) elapsed answer s
        ≡ apply_all c (ops_of floats (answers req elapsed answer)) s
  unfolding finish_state
  finish_state-ops req elapsed (response r) s =
      size_state-ops (captured req) (header_length floats r.content_length) _
  finish_state-ops req elapsed (error message) s = refl

module _ {F : Type 0} (E : Type 0) (floats : Floats F) (c : Client HttpMetric F)
    (lawful : IsLawful arity c) where
  happen_all-ops :
      (events : List (Event F)) (s : c.State)
      → happen_all {E = E} floats c events s ≡ (ok tt, apply_all c (all_ops floats events) s)
  unfolding happen_all
  happen_all-ops [] s = refl
  happen_all-ops (begins req ∷ es) s =
      rw (begin_runs floats c lawful {E = E} req s) (happen_all-ops es (c.inc in_flight s))
  happen_all-ops (answers req elapsed answer ∷ es) s =
      rw
        (
          finish_runs floats c lawful {E = E} (captured req) elapsed answer s,
          finish_state-ops floats c lawful req elapsed answer s,
        )
        (happen_all-ops es (apply_all c (ops_of floats (answers req elapsed answer)) s)
          ∙ ap (λ u. (ok tt, u))
              (sym (
                apply_all-append c (ops_of floats (answers req elapsed answer)) (all_ops floats es)
                  s)))

  -- The calls of the layer, made one after the other, are a sequence of operations on single series; and when these
  -- operations are carried out in any other order, as threads may have them, every counter and gauge still reads
  -- as the log of the calls says, and every histogram has the same observations, up to their order.
  -- The client library is assumed to do what it documents.
  pub any_order :
      (events : List (Event F)) (ops : List (Op F)) (s : c.State) (k : Series HttpMetric)
      → Permᴰ (all_ops floats events) ops
      → (happen_all {E = E} floats c events s ≡ (ok tt, apply_all c (all_ops floats events) s))
        × Same (logged floats events k (c.read s k)) (c.read (apply_all c ops s) k)
  any_order events ops s k p =
      let (_, reads) = follow_log E floats c lawful events s k in
      let in_turn = happen_all-ops events s in
      let before = read-apply_all floats c lawful (all_ops floats events) k s in
      let later = read-apply_all floats c lawful ops k s in
      (
        in_turn,
        chained (equal (sym reads ∙ ap (λ done. c.read done.1 k) in_turn ∙ before))
            (chained (ops_reading-Permᴰ k (c.read s k) p) (equal (sym later))),
      )
