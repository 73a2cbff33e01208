-- ===== src/Core/Metrics/Rows.antt =====
-- Loops that set labelled gauges, one row at a time: what stands in a series at the end.
use dr_metrix.Prelude.{
  ◌≡◌, refl, ◌∙◌, Option, none, some, List, [], ◌∷◌, arith, if◌then◌else◌, ℤ, nat_eq, list_eq,
  list_beq,
}
use dr_metrix.Std.{Str}
use dr_metrix.Core.Exec.{Exec, ok, for_each, for_each-fold}
use dr_metrix.Core.Metrics.{Client, Reading, int}

module _ {Row : Type 0} (label : Row → List Str) where
  -- The last row with the given labels.
  unfoldable pub last_match : List Str → List Row → Option Row
  last_match ls [] = none
  last_match ls (row ∷ rows) = elim (last_match ls rows) [
    | some r ↦ some r
    | none ↦ if list_beq (label row) ls then some row else none
  ]

-- The value of the last such row, or what was there.
unfoldable pub row_reading : {Row F : Type 0} → (Row → ℤ) → Option Row → Reading F → Reading F
row_reading value none old = old
row_reading value (some row) old = int (value row)

-- A change of the state for each row, and all of them in order.
unfoldable pub change_all : {Row S : Type 0} → (Row → S → S) → List Row → S → S
change_all change [] s = s
change_all change (row ∷ rows) s = change_all change rows (change row s)

pub rows_run :
    {Row S E : Type 0} (body : Row → Exec S E (Unit {0})) (change : Row → S → S)
    → ((row : Row) (s : S) → body row s ≡ (ok tt, change row s))
    → (rows : List Row) (s : S) → for_each body rows s ≡ (ok tt, change_all change rows s)
unfolding change_all
rows_run body change runs =
    for_each-fold body change runs (change_all change) (λ s. refl) (λ row rows s. refl)

module _ {MetricId F Row : Type 0} (c : Client MetricId F) (label : Row → List Str)
    (change : Row → c.State → c.State) (m : MetricId) where
  -- A metric that each row sets at its labels holds the value of the last row with them.
  pub read-change_all :
      (value : Row → ℤ)
      → ((row : Row) (ls : List Str) (s : c.State)
          → c.read (change row s) (record { metric = m; labels = ls }) ≡ (
              if list_beq (label row) ls
              then int (value row)
              else c.read s (record { metric = m; labels = ls })))
      → (rows : List Row) (ls : List Str) (s : c.State)
      → c.read (change_all change rows s) (record { metric = m; labels = ls })
        ≡ row_reading value
            (last_match label ls rows)
            (c.read s (record { metric = m; labels = ls }))
  unfolding change_all last_match row_reading
  read-change_all value sets [] ls s = refl
  read-change_all value sets (row ∷ rows) ls s =
      read-change_all value sets rows ls (change row s) ∙ ground (arith, sets row ls s)

  -- A metric that no row sets is left as it was.
  pub read-change_all_other :
      ((row : Row) (ls : List Str) (s : c.State)
        → c.read (change row s) (record { metric = m; labels = ls })
          ≡ c.read s (record { metric = m; labels = ls }))
      → (rows : List Row) (ls : List Str) (s : c.State)
      → c.read (change_all change rows s) (record { metric = m; labels = ls })
        ≡ c.read s (record { metric = m; labels = ls })
  unfolding change_all
  read-change_all_other keeps [] ls s = refl
  read-change_all_other keeps (row ∷ rows) ls s =
      read-change_all_other keeps rows ls (change row s) ∙ keeps row ls s
