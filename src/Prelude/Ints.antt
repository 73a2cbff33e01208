-- ===== src/Prelude/Ints.antt =====
-- Signed integers over the native numbers, under the library's names, and the range of an `i64`.
use Prim.Native.Nat.{ℕ, zero, suc, ◌+◌, ◌-◌, ◌*◌, ◌%◌, ◌^◌, ◌<◌}
use mathlib.Core.Path.{◌≡◌, refl, sym, ap, ◌∙◌}
use mathlib.Core.Bool.{Bool}
use native.Mathlib.Omega.{arith}
use dr_metrix.Prelude.Tests.{ltb, if◌then◌else◌}

-- `negsuc n` is -(n + 1).
pub data ℤ : Type 0 where
  pos : ℕ → ℤ
  negsuc : ℕ → ℤ

abbrev pub neg : ℕ → ℤ
neg zero = pos 0
neg (suc n) = negsuc n

abbrev pub IsI64 : ℤ → Type 0
IsI64 (pos n) = n < 2 ^ 63
IsI64 (negsuc n) = n < 2 ^ 63

-- The two's-complement reading of a residue below `2 ^ 64`.
abbrev signed : ℕ → ℤ
signed w = if ltb w (2 ^ 63) then pos w else negsuc (2 ^ 64 - w - 1)

-- Reduction to 64 bits. `-(n + 1)` has the residue `2 ^ 64 - 1 - n % 2 ^ 64`.
unfoldable pub wrap_i64 : ℤ → ℤ
wrap_i64 (pos n) = signed (n % 2 ^ 64)
wrap_i64 (negsuc n) = signed (2 ^ 64 - 1 - n % 2 ^ 64)

-- The product by a positive constant `suc k`, before any reduction.
abbrev pub scale : ℤ → ℕ → ℤ
scale (pos n) k = pos (n * suc k)
scale (negsuc n) k = negsuc (n * suc k + k)

abbrev pub fits_i64 : ℤ → Bool
fits_i64 (pos n) = ltb n (2 ^ 63)
fits_i64 (negsuc n) = ltb n (2 ^ 63)

abbrev pub add_one : ℤ → ℤ
add_one (pos n) = pos (n + 1)
add_one (negsuc zero) = pos 0
add_one (negsuc (suc n)) = negsuc n

abbrev pub sub_one : ℤ → ℤ
sub_one (pos zero) = negsuc 0
sub_one (pos (suc n)) = pos n
sub_one (negsuc n) = negsuc (n + 1)

pub sub_one-add_one : (a : ℤ) → sub_one (add_one a) ≡ a
sub_one-add_one (pos n) = ground arith
sub_one-add_one (negsuc zero) = refl
sub_one-add_one (negsuc (suc n)) = ground arith

pub wrap_i64_of_IsI64 : (a : ℤ) → IsI64 a → wrap_i64 a ≡ a
unfolding wrap_i64
wrap_i64_of_IsI64 (pos n) h = ground arith
wrap_i64_of_IsI64 (negsuc n) h = ground arith

pub wrap_i64-IsI64 : (a : ℤ) → IsI64 (wrap_i64 a)
unfolding wrap_i64
wrap_i64-IsI64 (pos n) = ground arith
wrap_i64-IsI64 (negsuc n) = ground arith

wrap_up : (r : ℕ) → r < 2 ^ 64 → wrap_i64 (add_one (signed r)) ≡ signed ((r + 1) % 2 ^ 64)
unfolding wrap_i64
wrap_up r h = ground arith

wrap_down :
    (r : ℕ) → r < 2 ^ 64 → wrap_i64 (sub_one (signed r)) ≡ signed ((r + (2 ^ 64 - 1)) % 2 ^ 64)
unfolding wrap_i64
wrap_down r h = ground arith

-- Counting up and down modulo 2 ^ 64.
pub add_one-wrap : (n : ℕ) → wrap_i64 (add_one (wrap_i64 (pos n))) ≡ wrap_i64 (pos (n + 1))
unfolding wrap_i64
add_one-wrap n = wrap_up (n % 2 ^ 64) (omega arith) ∙ ap signed (omega arith)

pub sub_one-wrap : (n : ℕ) → wrap_i64 (sub_one (wrap_i64 (pos (n + 1)))) ≡ wrap_i64 (pos n)
unfolding wrap_i64
sub_one-wrap n = wrap_down ((n + 1) % 2 ^ 64) (omega arith) ∙ ap signed (omega arith)

add_one_of_wrap : (a : ℤ) → wrap_i64 (add_one (wrap_i64 a)) ≡ wrap_i64 (add_one a)
unfolding wrap_i64
add_one_of_wrap (pos n) = add_one-wrap n
add_one_of_wrap (negsuc zero) = refl
add_one_of_wrap (negsuc (suc n)) =
    wrap_up (2 ^ 64 - 1 - suc n % 2 ^ 64) (omega arith) ∙ ap signed (omega arith)

sub_one_of_wrap : (a : ℤ) → wrap_i64 (sub_one (wrap_i64 a)) ≡ wrap_i64 (sub_one a)
unfolding wrap_i64
sub_one_of_wrap (pos zero) = refl
sub_one_of_wrap (pos (suc n)) = wrap_down (suc n % 2 ^ 64) (omega arith) ∙ ap signed (omega arith)
sub_one_of_wrap (negsuc n) =
    wrap_down (2 ^ 64 - 1 - n % 2 ^ 64) (omega arith) ∙ ap signed (omega arith)

add_one-sub_one : (a : ℤ) → add_one (sub_one a) ≡ a
add_one-sub_one (pos zero) = refl
add_one-sub_one (pos (suc n)) = ground arith
add_one-sub_one (negsuc n) = ground arith

-- On 64-bit integers, counting up and counting down commute.
pub wrap_commutes :
    (a : ℤ) → wrap_i64 (add_one (wrap_i64 (sub_one a))) ≡ wrap_i64 (sub_one (wrap_i64 (add_one a)))
wrap_commutes a =
    add_one_of_wrap (sub_one a)
    ∙ ap wrap_i64 (add_one-sub_one a ∙ sym (sub_one-add_one a))
    ∙ sym (sub_one_of_wrap (add_one a))
