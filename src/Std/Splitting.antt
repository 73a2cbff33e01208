-- ===== src/Std/Splitting.antt =====
-- Prefixes, and splitting at a separator.
use dr_metrix.Prelude.{ℕ, ◌≡◌, refl, ◌↔◌, true, some, [], ◌∷◌, ◌++◌, arith, list_beq_iff, nat_eq}
use dr_metrix.Std.Text.{Str, str_eq, strip_prefix, split}
use dr_metrix.Std.Slices.{Lacks}

pub str_eq_iff : (s t : Str) → (str_eq s t ≡ true) ↔ (s ≡ t)
unfolding str_eq
str_eq_iff s t = list_beq_iff s t

pub strip_prefix-append : (p s : Str) → strip_prefix (p ++ s) p ≡ some s
unfolding strip_prefix
strip_prefix-append [] [] = refl
strip_prefix-append [] (c ∷ s) = refl
strip_prefix-append (c ∷ p) s = ground (arith, strip_prefix-append p s)

-- The part before the first separator comes first.
pub split-append : (p : ℕ) (a b : Str) → Lacks p a → split (a ++ p ∷ b) p ≡ a ∷ split b p
unfolding split
split-append p [] b h = ground arith
split-append p (c ∷ a) b (ne, h) = ground (arith, split-append p a b h)

pub split_of_Lacks : (p : ℕ) (a : Str) → Lacks p a → split a p ≡ a ∷ []
unfolding split
split_of_Lacks p [] h = refl
split_of_Lacks p (c ∷ a) (ne, h) = ground (arith, split_of_Lacks p a h)
