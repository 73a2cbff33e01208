-- ===== src/Mongo/Bytes.antt =====
-- `v * 1024 * 1024` on an `i64`. Overflow wraps around in a release build and panics in a build with
-- overflow checks.
use dr_metrix.Prelude.{
  ◌≡◌, sym, ◌∙◌, Bool, true, false, Option, none, some, arith, if◌then◌else◌, ℤ, pos, negsuc, IsI64,
  fits_i64, scale, wrap_i64,
}
use dr_metrix.Prelude.Options.{◌>>=◌}

-- `a * 1024`; `none` is a panic
unfoldable pub times_1024 : Bool → ℤ → Option ℤ
times_1024 checks a =
    if fits_i64 (scale a 1023)
    then some (scale a 1023)
    else if checks
    then none
    else some (wrap_i64 (scale a 1023))

unfoldable pub mb_to_bytes : Bool → ℤ → Option ℤ
unfolding times_1024
mb_to_bytes checks v = do kb ← times_1024 checks v; times_1024 checks kb

-- The product by 1024 * 1024, before any reduction.
abbrev pub bytes : ℤ → ℤ
bytes v = scale v 1_048_575

fits_i64-IsI64 : (a : ℤ) → fits_i64 a ≡ true → IsI64 a
fits_i64-IsI64 (pos n) h = ground arith
fits_i64-IsI64 (negsuc n) h = ground arith

-- Where the product is an `i64`, it is the result in either build.
pub mb_to_bytes_of_IsI64 :
    (checks : Bool) (v : ℤ) → IsI64 (bytes v) → mb_to_bytes checks v ≡ some (bytes v)
unfolding mb_to_bytes
mb_to_bytes_of_IsI64 checks (pos n) h = ground arith
mb_to_bytes_of_IsI64 checks (negsuc n) h = ground arith

-- With overflow checks the result is there exactly when the product is an `i64`.
pub mb_to_bytes_checked :
    (v : ℤ) → mb_to_bytes true v ≡ (if fits_i64 (bytes v) then some (bytes v) else none)
unfolding mb_to_bytes
mb_to_bytes_checked (pos n) = ground arith
mb_to_bytes_checked (negsuc n) = ground arith

-- Without them the result is the product modulo 2 ^ 64.
pub mb_to_bytes_wraps : (v : ℤ) → mb_to_bytes false v ≡ some (wrap_i64 (bytes v))
unfolding mb_to_bytes wrap_i64
mb_to_bytes_wraps (pos n) = ground arith
mb_to_bytes_wraps (negsuc n) = ground arith

-- Where the product fits, the two kinds of build agree.
pub mb_to_bytes_fits :
    (v : ℤ) → fits_i64 (bytes v) ≡ true → mb_to_bytes true v ≡ mb_to_bytes false v
mb_to_bytes_fits v h =
    mb_to_bytes_of_IsI64 true v (fits_i64-IsI64 (bytes v) h)
    ∙ sym (mb_to_bytes_of_IsI64 false v (fits_i64-IsI64 (bytes v) h))
