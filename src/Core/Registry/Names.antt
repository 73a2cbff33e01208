-- ===== src/Core/Registry/Names.antt =====
-- Names of metrics under one namespace: they differ when they differ behind the namespace.
use mathlib.Core.List.{append_cancel_left, tail-eq_of_cons-eq}
use mathlib.Core.Path.{ap₂}
use dr_metrix.Prelude.{◌≡◌, refl, ap, List, [], ◌∷◌, Bool, All, arith, ◌&&◌, ◌||◌, not, true, false}
use dr_metrix.Std.{Str, str_eq}
use dr_metrix.Std.Splitting.{str_eq_iff}
use dr_metrix.Core.Registry.{Opts, prefixed, full_name, taken, all_fresh}

abbrev tail_name : Opts → Str
tail_name o = prefixed o.subsystem o.name

tail_taken : List Opts → Opts → Bool
tail_taken [] o = false
tail_taken (k ∷ known) o = str_eq (tail_name k) (tail_name o) || tail_taken known o

-- The test of `all_fresh` without the namespace.
unfoldable pub tails_fresh : List Opts → List Opts → Bool
unfolding tail_taken
tails_fresh known [] = true
tails_fresh known (o ∷ os) = not (tail_taken known o) && tails_fresh (o ∷ known) os

abbrev pub SharesNamespace : Str → List Opts → Type 0
SharesNamespace ns = All (λ o. o.namespace ≡ ns)

prefixed-injective : (ns a b : Str) → prefixed ns a ≡ prefixed ns b → a ≡ b
prefixed-injective [] a b h = h
prefixed-injective (c ∷ s) a b h =
    tail-eq_of_cons-eq (append_cancel_left (c ∷ s) (b'_' ∷ a) (b'_' ∷ b) h)

same_prefixed : (ns a b : Str) → a ≡ b → prefixed ns a ≡ prefixed ns b
same_prefixed ns a b h = ap (prefixed ns) h

str_eq-prefixed : (ns a b : Str) → str_eq (prefixed ns a) (prefixed ns b) ≡ str_eq a b
str_eq-prefixed ns a b = ground (
  arith,
  str_eq_iff (prefixed ns a) (prefixed ns b),
  str_eq_iff a b,
  prefixed-injective ns a b,
  same_prefixed ns a b,
)

same_test :
    (ns : Str) (k o : Opts)
    → k.namespace ≡ ns
    → o.namespace ≡ ns
    → str_eq (full_name k) (full_name o) ≡ str_eq (tail_name k) (tail_name o)
same_test ns k o p e = simp (p, e) (str_eq-prefixed ns (tail_name k) (tail_name o))

taken-eq-tail_taken :
    (ns : Str) (known : List Opts) (o : Opts)
    → SharesNamespace ns known
    → o.namespace ≡ ns
    → taken known o ≡ tail_taken known o
unfolding taken tail_taken
taken-eq-tail_taken ns [] o h e = refl
taken-eq-tail_taken ns (k ∷ known) o (p, h) e =
    ap₂ ◌||◌ (same_test ns k o p e) (taken-eq-tail_taken ns known o h e)

pub all_fresh-eq-tails_fresh :
    (ns : Str) (known os : List Opts)
    → SharesNamespace ns known
    → SharesNamespace ns os
    → all_fresh known os ≡ tails_fresh known os
unfolding all_fresh tails_fresh
all_fresh-eq-tails_fresh ns known [] h k = refl
all_fresh-eq-tails_fresh ns known (o ∷ os) h (e, k) =
    rw (taken-eq-tail_taken ns known o h e, all_fresh-eq-tails_fresh ns (o ∷ known) os (e, h) k)
