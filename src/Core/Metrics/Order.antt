-- ===== src/Core/Metrics/Order.antt =====
-- Rows with different labels: their order does not matter to what the series hold.
use mathlib.Core.List.{Permᴰ}
use mathlib.Core.Path.{subst}
use dr_metrix.Prelude.{
  ◌≡◌, ◌≢◌, refl, sym, ◌∙◌, ap, Option, none, some, List, [], ◌∷◌, All, if◌then◌else◌, Bool, true,
  false, nat_eq, list_eq, list_beq, list_beq_iff,
}
use dr_metrix.Std.{Str}
use dr_metrix.Core.Metrics.Rows.{last_match}

All-Permᴰ : {A : Type 0} (P : A → Type 0) {xs ys : List A} → Permᴰ xs ys → All P xs → All P ys
All-Permᴰ P Permᴰ.nil h = h
All-Permᴰ P (Permᴰ.cons e p) (h, hs) = (subst P e h, All-Permᴰ P p hs)
All-Permᴰ P (Permᴰ.swap e e') (h, (h', hs)) = (subst P e' h', (subst P e h, hs))
All-Permᴰ P (Permᴰ.trans p q) h = All-Permᴰ P q (All-Permᴰ P p h)

module _ {Row : Type 0} (label : Row → List Str) where
  abbrev pub AreDistinct : List Row → Type 0
  AreDistinct [] = Unit
  AreDistinct (row ∷ rows) = All (λ other. label row ≢ label other) rows × AreDistinct rows

  AreDistinct-Permᴰ :
      {rows rows' : List Row} → Permᴰ rows rows' → AreDistinct rows → AreDistinct rows'
  AreDistinct-Permᴰ Permᴰ.nil h = h
  AreDistinct-Permᴰ (Permᴰ.cons e p) (h, hs) = rw (← e) (All-Permᴰ _ p h, AreDistinct-Permᴰ p hs)
  AreDistinct-Permᴰ (Permᴰ.swap {l = l} e e') ((h, ha), (hb, hs)) = (
    (
      λ q. h (ap label e ∙ sym q ∙ sym (ap label e')),
      subst (λ r. All (λ other. label r ≢ label other) l) e' hb,
    ),
    (subst (λ r. All (λ other. label r ≢ label other) l) e ha, hs),
  )
  AreDistinct-Permᴰ (Permᴰ.trans p q) h = AreDistinct-Permᴰ q (AreDistinct-Permᴰ p h)

  one_label :
      (a b : Row) (ls : List Str)
      → label a ≢ label b
      → list_beq (label a) ls ≡ true
      → list_beq (label b) ls ≡ true
      → ⊥
  one_label a b ls ne e e' =
      ne ((list_beq_iff (label a) ls).0 e ∙ sym ((list_beq_iff (label b) ls).0 e'))

  abbrev last_or : Option Row → Option Row → Option Row
  last_or later this = elim later [ some r ↦ some r | none ↦ this ]

  last_or-swap :
      (later : Option Row) (x y : Bool) (a b : Row)
      → (x ≡ true → y ≡ true → ⊥)
      → last_or (last_or later (if y then some b else none)) (if x then some a else none)
        ≡ last_or (last_or later (if x then some a else none)) (if y then some b else none)
  last_or-swap (some r) x y a b h = refl
  last_or-swap none true true a b h = absurd (h refl refl)
  last_or-swap none true false a b h = refl
  last_or-swap none false true a b h = refl
  last_or-swap none false false a b h = refl

  last_match-swap :
      (a b : Row) (ls : List Str) (rows : List Row)
      → label a ≢ label b
      → last_match label ls (a ∷ b ∷ rows) ≡ last_match label ls (b ∷ a ∷ rows)
  unfolding last_match
  last_match-swap a b ls rows ne =
      last_or-swap (last_match label ls rows) (list_beq (label a) ls) (list_beq (label b) ls) a b
        (one_label a b ls ne)

  pub last_match-Permᴰ :
      (ls : List Str) {rows rows' : List Row}
      → Permᴰ rows rows'
      → AreDistinct rows
      → last_match label ls rows ≡ last_match label ls rows'
  unfolding last_match
  last_match-Permᴰ ls Permᴰ.nil h = refl
  last_match-Permᴰ ls (Permᴰ.cons {a} {b} {l₁} {l₂} e p) (h, hs) =
      ap (λ (o : Option Row). last_or o (if list_beq (label a) ls then some a else none))
        (last_match-Permᴰ ls p hs)
      ∙ ap (λ (r : Row). last_match label ls (r ∷ l₂)) e
  last_match-Permᴰ ls (Permᴰ.swap {a} {b} {a'} {b'} {l} e e') ((ne, ha), hs) =
      last_match-swap a b ls l ne
      ∙ ap (λ (r : Row). last_match label ls (r ∷ a ∷ l)) e'
      ∙ ap (λ (r : Row). last_match label ls (a' ∷ r ∷ l)) e
  last_match-Permᴰ ls (Permᴰ.trans p q) h =
      last_match-Permᴰ ls p h ∙ last_match-Permᴰ ls q (AreDistinct-Permᴰ p h)
