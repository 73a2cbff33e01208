-- ===== src/Redis/Info/RoundTrip/Lines.antt =====
-- The lines that a server writes, and which characters they have.
use dr_metrix.Prelude.{
  ℕ, suc, ◌<◌, ◌≡◌, ◌≢◌, refl, ap, ◌∙◌, false, List, [], ◌∷◌, ◌++◌, arith, ℤ, pos, negsuc, All,
  All-append, All-weaken, IsI64,
}
use dr_metrix.Prelude.{◌⊎◌, inl, inr}
use dr_metrix.Std.{is_whitespace}
use dr_metrix.Std.{Str, codes, lines, print_int, print_nat}
use dr_metrix.Std.Slices.{Lacks}
use dr_metrix.Std.Trimming.{NoSpace, lines-crlf}
use dr_metrix.Std.Numerals.{IsDigit, print_nat-IsDigit, parse_i64-print_int}
use dr_metrix.Redis.Info.{KeyspaceEntry, int_or_zero}

-- Lines, each behind a carriage return and a line feed.
pub render : List Str → Str
render [] = []
render (l ∷ ls) = l ++ b'\r' ∷ b'\n' ∷ render ls

lines-nil : lines [] ≡ []
unfolding lines
lines-nil = refl

pub lines-render : (ls : List Str) → All (Lacks b'\n') ls → lines (render ls) ≡ ls
unfolding render
lines-render [] h = lines-nil
lines-render (l ∷ ls) (h, hs) =
    lines-crlf l (render ls) h ∙ ap (λ (t : List Str). l ∷ t) (lines-render ls hs)

abbrev pub field : Str → Str → Str
field key value = key ++ b':' ∷ value

-- The fields of a database line.
unfoldable pub entry_fields : (keys expires : ℤ) → Str
entry_fields keys expires =
    codes "keys="
    ++ (print_int keys ++ b',' ∷ (codes "expires=" ++ (print_int expires ++ codes ",avg_ttl=0")))

-- `db0:keys=15420,expires=5,avg_ttl=0`
unfoldable pub print_entry : KeyspaceEntry → Str
print_entry (db, keys, expires) = codes "db" ++ (print_nat db ++ b':' ∷ entry_fields keys expires)

-- A character that a printed number may hold: a digit or a minus sign.
abbrev NumberChar : ℕ → Type 0
NumberChar c = (IsDigit c) ⊎ (c ≡ b'-')

print_int-NumberChar : (v : ℤ) → All NumberChar (print_int v)
unfolding print_int
print_int-NumberChar (pos n) = All-weaken (print_nat n) (λ c d. inl d) (print_nat-IsDigit n)
print_int-NumberChar (negsuc n) =
    (inr refl, All-weaken (print_nat (suc n)) (λ c d. inl d) (print_nat-IsDigit (suc n)))

number-ne : (p : ℕ) → (p < b'-') ⊎ (b'9' < p) → (c : ℕ) → NumberChar c → c ≢ p
number-ne p h c (inl d) = ground arith
number-ne p h c (inr e) = ground arith

number-NoSpace : (c : ℕ) → NumberChar c → is_whitespace c ≡ false
unfolding is_whitespace
number-NoSpace c (inl d) = ground arith
number-NoSpace c (inr e) = ground arith

pub print_int-Lacks : (p : ℕ) (v : ℤ) → (p < b'-') ⊎ (b'9' < p) → Lacks p (print_int v)
print_int-Lacks p v h = All-weaken (print_int v) (number-ne p h) (print_int-NumberChar v)

pub print_int-NoSpace : (v : ℤ) → NoSpace (print_int v)
print_int-NoSpace v = All-weaken (print_int v) number-NoSpace (print_int-NumberChar v)

print_nat-NoSpace : (n : ℕ) → NoSpace (print_nat n)
print_nat-NoSpace n =
    All-weaken (print_nat n) (λ c d. number-NoSpace c (inl d)) (print_nat-IsDigit n)

pub int_or_zero-print_int : (v : ℤ) → IsI64 v → int_or_zero (print_int v) ≡ v
unfolding int_or_zero
int_or_zero-print_int v h = rw (parse_i64-print_int v h)

-- What holds of digits, of the sign and of the literal parts holds of the whole line.
print_entry-All :
    (P : ℕ → Type 0)
    → ((c : ℕ) → NumberChar c → P c)
    → All P (codes "db")
    → P b':'
    → All P (codes "keys=")
    → P b','
    → All P (codes "expires=")
    → All P (codes ",avg_ttl=0")
    → (e : KeyspaceEntry) → All P (print_entry e)
unfolding print_entry entry_fields
print_entry-All P number db colon keys comma expires ttl (i, k, x) =
    let ints : (v : ℤ) → All P (print_int v) =
      λ v. All-weaken (print_int v) number (print_int-NumberChar v) in
    let index : All P (print_nat i) =
      All-weaken (print_nat i) (λ c d. number c (inl d)) (print_nat-IsDigit i) in
    let last = All-append P (print_int x) _ (ints x) ttl in
    let tail =
      All-append P (print_int k) (b',' ∷ (codes "expires=" ++ (print_int x ++ codes ",avg_ttl=0")))
        (ints k) (comma, All-append P (codes "expires=") _ expires last) in
    All-append P (codes "db") _ db (
      All-append P (print_nat i)
        (b':'
          ∷ (codes "keys="
              ++ (print_int k ++ b',' ∷ (codes "expires=" ++ (print_int x ++ codes ",avg_ttl=0")))))
        index (colon, All-append P (codes "keys=") _ keys tail))

pub print_entry-NoSpace : (e : KeyspaceEntry) → NoSpace (print_entry e)
unfolding is_whitespace
print_entry-NoSpace =
    print_entry-All (λ c. is_whitespace c ≡ false) number-NoSpace (ground arith) refl (ground arith)
      refl (ground arith) (ground arith)

pub print_entry-Lacks : (e : KeyspaceEntry) → Lacks b'\n' (print_entry e)
print_entry-Lacks =
    print_entry-All (λ c. c ≢ b'\n') (number-ne b'\n' (omega arith)) (omega arith) (omega arith)
      (omega arith) (omega arith) (omega arith) (omega arith)
