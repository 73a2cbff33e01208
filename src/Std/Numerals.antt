-- ===== src/Std/Numerals.antt =====
-- Parsing and printing of integers: ranges, and the round trip.
use dr_metrix.Prelude.{
  ℕ, zero, suc, ◌+◌, ◌-◌, ◌*◌, ◌/◌, ◌%◌, ◌^◌, ◌≤◌, ◌<◌, ◌≡◌, ◌≢◌, refl, some, [], ◌∷◌, ◌++◌, inl,
  inr, append_assoc, append-nil, sym, ap, ◌∙◌, Option-cases, arith, ltb, Bool-cases, All,
  All-append, All-weaken, ◌⊎◌, unwrap_or, ℤ, pos, negsuc, IsI64,
}
use mathlib.Core.List.{concat-ne-nil}
use dr_metrix.Std.Text.{Str}
use dr_metrix.Std.Slices.{Lacks}
use dr_metrix.Std.Number.{digits, magnitude, parse_u32, parse_i64, print_fuel, print_nat, print_int}

-- What parses as an `i64` lies in its range.
pub parse_i64-IsI64 : (s : Str) (v : ℤ) → parse_i64 s ≡ some v → IsI64 v
unfolding parse_i64
parse_i64-IsI64 (c ∷ s) (pos n) h = ground arith
parse_i64-IsI64 (c ∷ s) (negsuc n) h = ground arith
parse_i64-IsI64 [] v h = ground arith

pub parse_i64_or-IsI64 : (s : Str) → IsI64 (unwrap_or (parse_i64 s) (pos 0))
parse_i64_or-IsI64 s = elim (Option-cases (parse_i64 s)) [
  | inl e ↦ rw e (omega arith)
  | inr (v, e) ↦ rw e (parse_i64-IsI64 s v e)
]

pub parse_u32-lt : (s : Str) (n : ℕ) → parse_u32 s ≡ some n → n < 2 ^ 32
unfolding parse_u32
parse_u32-lt [] n h = ground arith
parse_u32-lt (c ∷ s) n h = ground arith

abbrev pub IsDigit : ℕ → Type 0
IsDigit c = (b'0' ≤ c) × (c ≤ b'9')

digits_digit : (n c : ℕ) (s : Str) → IsDigit c → digits n (c ∷ s) ≡ digits (n * 10 + (c - b'0')) s
unfolding digits
digits_digit n c s h = ground arith

-- Printing `n` before a text and reading on is reading the text from `n`.
print_fuel-digits : (f n : ℕ) (t : Str) → n < f → digits 0 (print_fuel f n ++ t) ≡ digits n t
unfolding print_fuel
print_fuel-digits zero n t h = absurd (omega arith)
print_fuel-digits (suc f) n t h = elim (Bool-cases (ltb n 10)) [
  | inl small ↦
      rw small
        (digits_digit 0 (b'0' + n) t (ground arith) ∙ ap (λ (k : ℕ). digits k t) (omega arith))
  | inr large ↦
      rw (large, append_assoc)
        (print_fuel-digits f (n / 10) ((b'0' + n % 10) ∷ t) (ground arith)
          ∙ digits_digit (n / 10) (b'0' + n % 10) t (omega arith)
          ∙ ap (λ (k : ℕ). digits k t) (omega arith))
]

print_fuel-IsDigit : (f n : ℕ) → All IsDigit (print_fuel f n)
unfolding print_fuel
print_fuel-IsDigit zero n = tt
print_fuel-IsDigit (suc f) n = elim (Bool-cases (ltb n 10)) [
  | inl small ↦ rw small (ground arith)
  | inr large ↦
      rw large
        (All-append IsDigit (print_fuel f (n / 10)) _ (print_fuel-IsDigit f (n / 10)) (omega arith))
]

pub print_nat-IsDigit : (n : ℕ) → All IsDigit (print_nat n)
unfolding print_nat
print_nat-IsDigit n = print_fuel-IsDigit (suc n) n

digit-ne : (p : ℕ) → (p < b'0') ⊎ (b'9' < p) → (c : ℕ) → IsDigit c → c ≢ p
digit-ne p h c d = ground arith

-- A printed number has no character but digits.
pub print_nat-Lacks : (p n : ℕ) → (p < b'0') ⊎ (b'9' < p) → Lacks p (print_nat n)
print_nat-Lacks p n h = All-weaken (print_nat n) (digit-ne p h) (print_nat-IsDigit n)

print_fuel-ne-nil : (f n : ℕ) → 0 < f → print_fuel f n ≢ []
unfolding print_fuel
print_fuel-ne-nil zero n h = absurd (omega arith)
print_fuel-ne-nil (suc f) n h = elim (Bool-cases (ltb n 10)) [
  | inl small ↦ rw small (λ e. cc)
  | inr large ↦ rw large (concat-ne-nil _ (print_fuel f (n / 10)))
]

-- A printed number is a digit and further digits.
digits_head : (s : Str) → s ≢ [] → All IsDigit s → (c : ℕ) × (t : Str) × (s ≡ c ∷ t) × IsDigit c
digits_head [] h d = absurd (h refl)
digits_head (c ∷ s) h d = (c, s, refl, d.0)

pub print_nat_head : (n : ℕ) → (c : ℕ) × (s : Str) × (print_nat n ≡ c ∷ s) × IsDigit c
unfolding print_nat
print_nat_head n =
    digits_head (print_nat n) (print_fuel-ne-nil (suc n) n (omega arith)) (print_nat-IsDigit n)

pub magnitude-print_nat : (n : ℕ) → magnitude (print_nat n) ≡ some n
magnitude-print_nat n =
    let (c, s, e, _) = print_nat_head n in
    rw e (
      unfold magnitude in
      (ap (digits 0) (sym e)
        ∙ (unfold print_nat in
            (ap (digits 0) (sym (append-nil (print_fuel (suc n) n)))
              ∙ print_fuel-digits (suc n) n [] (omega arith)
              ∙ (unfold digits in refl)))))

-- A digit is no sign.
pub parse_u32-print_nat : (n : ℕ) → n < 2 ^ 32 → parse_u32 (print_nat n) ≡ some n
parse_u32-print_nat n h =
    let (c, s, e, d) = print_nat_head n in
    let m : magnitude (c ∷ s) ≡ some n = rw e at (magnitude-print_nat n) in
    rw e (unfold parse_u32 in (ground arith))

-- Printing an `i64` and parsing it back gives the same number.
pub parse_i64-print_int : (v : ℤ) → IsI64 v → parse_i64 (print_int v) ≡ some v
unfolding print_int
parse_i64-print_int (pos n) h =
    let (c, s, e, d) = print_nat_head n in
    let m : magnitude (c ∷ s) ≡ some n = rw e at (magnitude-print_nat n) in
    rw e (unfold parse_i64 in (ground arith))
parse_i64-print_int (negsuc n) h = unfold parse_i64 in (ground (arith, magnitude-print_nat (suc n)))
