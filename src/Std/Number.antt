-- ===== src/Std/Number.antt =====
-- `parse::<u32>()`, `parse::<i64>()` and the decimal form of integers. An error is `none`.
use dr_metrix.Prelude.{
  ℕ, zero, suc, ◌+◌, ◌-◌, ◌*◌, ◌/◌, ◌%◌, ◌^◌, ◌&&◌, Option, none, some, [], ◌∷◌, ◌++◌, leb, ltb,
  ◌==ℕ◌, if◌then◌else◌, ℤ, pos, negsuc, neg,
}
use dr_metrix.Std.Text.{Str}

-- The digits in order; a sum that leaves the type ends in the error of `in_range` below.
unfoldable pub digits : ℕ → Str → Option ℕ
digits n [] = some n
digits n (c ∷ s) = if leb b'0' c && leb c b'9' then digits (n * 10 + (c - b'0')) s else none

-- At least one digit.
unfoldable pub magnitude : Str → Option ℕ
unfolding digits
magnitude [] = none
magnitude (c ∷ s) = digits 0 (c ∷ s)

abbrev pub in_range : ℕ → Option ℕ → Option ℕ
in_range limit none = none
in_range limit (some n) = if ltb n limit then some n else none

abbrev pub as_pos : Option ℕ → Option ℤ
as_pos none = none
as_pos (some n) = some (pos n)

abbrev pub as_neg : Option ℕ → Option ℤ
as_neg none = none
as_neg (some n) = some (neg n)

unfoldable pub parse_u32 : Str → Option ℕ
unfolding magnitude
parse_u32 [] = none
parse_u32 (c ∷ s) = in_range (2 ^ 32) (if c ==ℕ b'+' then magnitude s else magnitude (c ∷ s))

unfoldable pub parse_i64 : Str → Option ℤ
unfolding magnitude
parse_i64 [] = none
parse_i64 (c ∷ s) =
    if c ==ℕ b'-'
    then as_neg (in_range (2 ^ 63 + 1) (magnitude s))
    else as_pos (in_range (2 ^ 63) (if c ==ℕ b'+' then magnitude s else magnitude (c ∷ s)))

-- Decimal digits; the fuel is the number itself, and each round divides by ten.
unfoldable pub print_fuel : ℕ → ℕ → Str
print_fuel zero n = []
print_fuel (suc f) n =
    let more = print_fuel f (n / 10) ++ (b'0' + n % 10) ∷ [] in
    if ltb n 10 then (b'0' + n) ∷ [] else more

-- `{n}` in a format string, for an unsigned and for a signed integer
unfoldable pub print_nat : ℕ → Str
unfolding print_fuel
print_nat n = print_fuel (suc n) n

unfoldable pub print_int : ℤ → Str
unfolding print_nat
print_int (pos n) = print_nat n
print_int (negsuc n) = b'-' ∷ print_nat (suc n)
