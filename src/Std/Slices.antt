-- ===== src/Std/Slices.antt =====
-- A byte offset that `find` returns is a character boundary, so slicing there does not panic.
use mathlib.Core.Option
use dr_metrix.Prelude.{
  ℕ, zero, suc, ◌+◌, ◌-◌, ◌<◌, ◌≡◌, ◌≢◌, refl, sym, ◌∙◌, none, some, [], ◌∷◌, ◌++◌, inl, inr, arith,
  ◌==ℕ◌, Bool-cases, ==ℕ_iff, ◌≤◌, Option-cases, All,
}
use dr_metrix.Std.Text.{Str, find, len_utf8, cut_at, slice_to, slice_from, split_once}

abbrev pub Lacks : ℕ → Str → Type 0
Lacks p = All (λ c. c ≢ p)

-- A character takes at least one byte.
len_utf8_pos : (c : ℕ) → 0 < len_utf8 c
unfolding len_utf8
len_utf8_pos c = ground arith

len_utf8_ascii : (c : ℕ) → c < 0x80 → len_utf8 c ≡ 1
unfolding len_utf8
len_utf8_ascii c h = ground arith

cut_at_step :
    (c n : ℕ) (s : Str)
    → 0 < n
    → len_utf8 c ≤ n
    → cut_at (c ∷ s) n ≡ Option.map (λ (a, b). (c ∷ a, b)) (cut_at s (n - len_utf8 c))
unfolding cut_at
cut_at_step c zero s h k = absurd (omega arith)
cut_at_step c (suc n) s h k = ground arith

-- Cutting behind the first character.
cut_at_cons :
    (c i n : ℕ) (s a b : Str)
    → cut_at s i ≡ some (a, b)
    → n ≡ len_utf8 c + i
    → cut_at (c ∷ s) n ≡ some (c ∷ a, b)
cut_at_cons c i n s a b h e =
    let p : 0 < len_utf8 c = len_utf8_pos c in
    let same : n - len_utf8 c ≡ i = omega arith in
    cut_at_step c n s (omega arith) (omega arith) ∙ rw (same, h)

cut_at_zero : (s : Str) → cut_at s 0 ≡ some ([], s)
unfolding cut_at
cut_at_zero [] = refl
cut_at_zero (c ∷ s) = refl

module _ (p : ℕ) (ascii : p < 0x80) where
  -- Where `find` stops, both cuts succeed, and their halves are those of `split_once`.
  find-cut_at :
      (s : Str) (i : ℕ)
      → find s p ≡ some i
      → (a : Str) × (b : Str) × (split_once s p ≡ some (a, b))
        × (cut_at s i ≡ some (a, p ∷ b))
        × (cut_at s (i + 1) ≡ some (a ++ p ∷ [], b))
  unfolding find split_once
  find-cut_at [] i h = cc h
  find-cut_at (c ∷ s) i h = elim (Bool-cases (c ==ℕ p)) [
    | inl here ↦
        let same : c ≡ p = (==ℕ_iff c p).0 here in
        let start : i ≡ 0 = ground arith in
        (
          [],
          s,
          ground arith,
          rw (start, cut_at_zero, same),
          rw (start, same)
              (cut_at_cons p 0 (0 + 1) s [] s (cut_at_zero s)
                (omega (arith, len_utf8_ascii p ascii))),
        )
    | inr later ↦
        let found : Option.map (λ j. len_utf8 c + j) (find s p) ≡ some i = rw later at h in
        let (j, at, e) = (Option.map-eq-some_iff _ _).0 found in
        let (a, b, once, to, from) = find-cut_at s j at in
        (
          c ∷ a,
          b,
          rw (later, once),
          cut_at_cons c j i s a (p ∷ b) to (sym e),
          cut_at_cons c (j + 1) (i + 1) s (a ++ p ∷ []) b from (omega arith),
        )
  ]

  -- The two slices around the found character are what `split_once` returns.
  pub find-slices :
      (s : Str) (i : ℕ)
      → find s p ≡ some i
      → (a : Str) × (b : Str) × (split_once s p ≡ some (a, b))
        × (slice_to s i ≡ some a)
        × (slice_from s (i + 1) ≡ some b)
  find-slices s i h =
      let (a, b, once, to, from) = find-cut_at s i h in
      (a, b, once, unfold slice_to in (rw to), unfold slice_from in (rw from))

-- `find` and `split_once` look for the same character.
pub find-eq-none : (s : Str) (p : ℕ) → find s p ≡ none → split_once s p ≡ none
unfolding find split_once
find-eq-none [] p h = refl
find-eq-none (c ∷ s) p h = elim (Option-cases (find s p)) [
  | inl e ↦ ground (arith, find-eq-none s p e)
  | inr (i, e) ↦ ground arith
]

-- The first `p` of a text is behind a part that lacks it.
pub find-append : (p : ℕ) (a b : Str) → Lacks p a → (i : ℕ) × (find (a ++ p ∷ b) p ≡ some i)
unfolding find
find-append p [] b h = (0, ground arith)
find-append p (c ∷ a) b (ne, h) = let (i, e) = find-append p a b h in (len_utf8 c + i, ground arith)

pub split_once-append : (p : ℕ) (a b : Str) → Lacks p a → split_once (a ++ p ∷ b) p ≡ some (a, b)
unfolding split_once
split_once-append p [] b h = ground arith
split_once-append p (c ∷ a) b (ne, h) = ground (arith, split_once-append p a b h)
