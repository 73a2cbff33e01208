-- ===== src/Core/Registry/Validity.antt =====
-- Options that are valid under any valid namespace.
use dr_metrix.Prelude.{◌≡◌, refl, ◌⊎◌, inl, inr, Bool, true, ◌&&◌, List, [], ◌∷◌, ◌++◌, arith, All}
use dr_metrix.Std.{Str}
use dr_metrix.Core.Registry.{Opts, prefixed, later_chars, valid_name, valid_rest, valid_opts}

-- A namespace is absent, or a valid name itself.
abbrev pub IsNamespace : Str → Type 0
IsNamespace ns = (ns ≡ []) ⊎ (valid_name ns ≡ true)

-- The options are valid with no namespace.
unfoldable pub tails_valid : List Opts → Bool
unfolding valid_name valid_rest
tails_valid [] = true
tails_valid (o ∷ os) = valid_name (prefixed o.subsystem o.name) && valid_rest o && tails_valid os

later_chars-append : (s t : Str) → later_chars (s ++ t) ≡ later_chars s && later_chars t
unfolding later_chars
later_chars-append [] t = refl
later_chars-append (c ∷ s) t = ground (arith, later_chars-append s t)

later_chars_of_name : (s : Str) → valid_name s ≡ true → later_chars s ≡ true
unfolding valid_name later_chars
later_chars_of_name [] h = refl
later_chars_of_name (c ∷ s) h = ground arith

valid_name-prefixed :
    (ns tail : Str) → IsNamespace ns → valid_name tail ≡ true → valid_name (prefixed ns tail) ≡ true
unfolding valid_name later_chars
valid_name-prefixed [] tail n h = h
valid_name-prefixed (c ∷ ns) tail (inl e) h = cc
valid_name-prefixed (c ∷ ns) tail (inr n) h =
    ground (arith, later_chars-append ns (b'_' ∷ tail), later_chars_of_name tail h)

pub valid_of_tails :
    (ns : Str) (os : List Opts)
    → IsNamespace ns
    → All (λ o. o.namespace ≡ ns) os
    → tails_valid os ≡ true
    → All (λ o. valid_opts o ≡ true) os
unfolding tails_valid valid_opts
valid_of_tails ns [] n h v = tt
valid_of_tails ns (o ∷ os) n (e, h) v =
    let named : valid_name (prefixed o.subsystem o.name) ≡ true = ground arith in
    let rest : valid_rest o ≡ true = ground arith in
    let others : tails_valid os ≡ true = ground arith in
    (
      rw (e, valid_name-prefixed ns (prefixed o.subsystem o.name) n named, rest),
      valid_of_tails ns os n h others,
    )
