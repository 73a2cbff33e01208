-- ===== src/Redis/Info/RoundTrip/Entries.antt =====
-- What one round of the parser makes of a line that a server writes.
use dr_metrix.Prelude.{
  ℕ, ◌≡◌, ◌≢◌, refl, sym, ap, ◌∙◌, false, none, some, List, [], ◌∷◌, ◌++◌, arith, ℤ, pos, map, All,
  All-append, append_assoc, append-nil, IsI64,
}
use mathlib.Core.Option.{some-injective}
use dr_metrix.Std.{is_whitespace}
use dr_metrix.Std.{Str, Floats, codes, print_int, print_nat, strip_prefix, split, find, parse_u32}
use dr_metrix.Std.Slices.{Lacks, find-append, find-slices, split_once-append}
use dr_metrix.Std.Trimming.{NoSpace, trim_of_NoSpace}
use dr_metrix.Std.Splitting.{strip_prefix-append, split-append, split_of_Lacks}
use dr_metrix.Std.Numerals.{print_nat-Lacks, parse_u32-print_nat}
use dr_metrix.Redis.Info.{
  RedisInfo, KeyspaceEntry, int_or_zero, count_field, count_fields, db_entry, db_line,
  keyspace_line, assign, assign_pair, record_line, parse_line, parse_lines, is_skipped,
}
use dr_metrix.Redis.Info.Ranges.{EntryInRange}
use dr_metrix.Redis.Info.RoundTrip.Lines.{
  field, entry_fields, print_entry, print_int-Lacks, int_or_zero-print_int, print_entry-NoSpace,
}

split-entry_fields :
    (k x : ℤ)
    → split (entry_fields k x) b','
      ≡ (codes "keys=" ++ print_int k) ∷ (codes "expires=" ++ print_int x) ∷ codes "avg_ttl=0" ∷ []
unfolding entry_fields
split-entry_fields k x =
    split-append b',' (codes "keys=" ++ print_int k)
      (codes "expires=" ++ (print_int x ++ codes ",avg_ttl=0"))
      (All-append (λ c. c ≢ b',') (codes "keys=") (print_int k) (omega arith)
        (print_int-Lacks b',' k (omega arith)))
    ∙ ap (λ (t : List Str). (codes "keys=" ++ print_int k) ∷ t)
        (split-append b',' (codes "expires=" ++ print_int x) (codes "avg_ttl=0") (
            All-append (λ c. c ≢ b',') (codes "expires=") (print_int x) (omega arith)
              (print_int-Lacks b',' x (omega arith)))
          ∙ ap (λ (t : List Str). (codes "expires=" ++ print_int x) ∷ t)
              (split_of_Lacks b',' (codes "avg_ttl=0") (omega arith)))

module _ (counts : ℤ × ℤ) where
  count_field-keys : (v : Str) → count_field counts (codes "keys=" ++ v) ≡ (int_or_zero v, counts.1)
  unfolding count_field
  count_field-keys v = rw (strip_prefix-append (codes "keys=") v, count_field)

  no_keys : (v : Str) → strip_prefix (codes "expires=" ++ v) (codes "keys=") ≡ none
  unfolding strip_prefix
  no_keys v = refl

  count_field-expires :
      (v : Str) → count_field counts (codes "expires=" ++ v) ≡ (counts.0, int_or_zero v)
  unfolding count_field
  count_field-expires v = rw (no_keys v, strip_prefix-append (codes "expires=") v, count_field)

  count_field-ttl : count_field counts (codes "avg_ttl=0") ≡ counts
  unfolding count_field strip_prefix
  count_field-ttl = refl

count_fields-print :
    (k x : ℤ)
    → IsI64 k
    → IsI64 x
    → count_fields (pos 0, pos 0) (split (entry_fields k x) b',') ≡ (k, x)
unfolding count_fields
count_fields-print k x hk hx = rw (
  split-entry_fields k x,
  count_field-keys,
  int_or_zero-print_int k hk,
  count_field-expires,
  int_or_zero-print_int x hx,
  count_field-ttl,
)

db_line_cut :
    (a b : Str) (db : ℕ)
    → Lacks b':' a
    → parse_u32 a ≡ some db
    → db_line (a ++ b':' ∷ b) (find (a ++ b':' ∷ b) b':') ≡ some (some (db_entry b db))
unfolding db_line
db_line_cut a b db h p =
    let (i, found) = find-append b':' a b h in
    let (a', b', once, to, from) = find-slices b':' (omega arith) (a ++ b':' ∷ b) i found in
    let same : ◌≡◌ {A = Str × Str} (a', b') (a, b) =
      some-injective _ _ (sym once ∙ split_once-append b':' a b h) in
    let same_a : a' ≡ a = ap (λ p. p.0) same in
    let same_b : b' ≡ b = ap (λ p. p.1) same in rw (found, to, from, same_a, same_b, p)

db_entry-print :
    (db : ℕ) (k x : ℤ) → IsI64 k → IsI64 x → db_entry (entry_fields k x) db ≡ (db, k, x)
unfolding db_entry
db_entry-print db k x hk hx = rw (count_fields-print k x hk hx)

-- The parser makes of a database line the entry that it shows.
pub keyspace_line-print_entry :
    (e : KeyspaceEntry) → EntryInRange e → keyspace_line (print_entry e) ≡ some (some e)
unfolding keyspace_line print_entry
keyspace_line-print_entry (db, k, x) (hd, hk, hx) =
    rw (strip_prefix-append (codes "db") (print_nat db ++ b':' ∷ entry_fields k x), keyspace_line)
      (db_line_cut (print_nat db) (entry_fields k x) db (print_nat-Lacks b':' db (omega arith))
          (parse_u32-print_nat db hd)
        ∙ ap (λ (e : KeyspaceEntry). some (some e)) (db_entry-print db k x hk hx))

not_skipped : (e : KeyspaceEntry) → is_skipped (print_entry e) ≡ false
unfolding print_entry
not_skipped (db, k, x) = refl

colon_visible : is_whitespace b':' ≡ false
unfolding is_whitespace
colon_visible = refl

pub field-NoSpace : (key value : Str) → NoSpace key → NoSpace value → NoSpace (field key value)
field-NoSpace key value hk hv =
    All-append (λ c. is_whitespace c ≡ false) key (b':' ∷ value) hk (colon_visible, hv)

module _ {F : Type 0} (floats : Floats F) where
  parse_line-print_entry :
      (info : RedisInfo F) (e : KeyspaceEntry)
      → EntryInRange e
      → parse_line floats info (print_entry e)
        ≡ some (record info { keyspace = info.keyspace ++ e ∷ [] })
  unfolding parse_line record_line
  parse_line-print_entry info e h = rw (
    trim_of_NoSpace (print_entry e) (print_entry-NoSpace e),
    not_skipped e,
    keyspace_line-print_entry e h,
  )

  -- The database lines, in order.
  pub parse_lines-entries :
      (info : RedisInfo F) (es : List KeyspaceEntry)
      → All EntryInRange es
      → parse_lines floats info (map print_entry es)
        ≡ some (record info { keyspace = info.keyspace ++ es })
  unfolding parse_lines
  parse_lines-entries info [] h = simp append-nil
  parse_lines-entries info (e ∷ es) (h, hs) = rw (parse_line-print_entry info e h) (
      parse_lines-entries (record info { keyspace = info.keyspace ++ e ∷ [] }) es hs
      ∙ simp append_assoc)

  -- A line `key:value` without white space, which is no comment and no database line.
  pub parse_line-field :
      (info : RedisInfo F) (key value : Str)
      → is_skipped (field key value) ≡ false
      → strip_prefix (field key value) (codes "db") ≡ none
      → Lacks b':' key
      → NoSpace key
      → NoSpace value
      → parse_line floats info (field key value) ≡ some (assign floats info key value)
  unfolding parse_line record_line keyspace_line assign_pair
  parse_line-field info key value kept other h hk hv =
      rw (trim_of_NoSpace (field key value) (field-NoSpace key value hk hv)) (
        rw (kept, other, keyspace_line)
          (rw (split_once-append b':' key value h, trim_of_NoSpace value hv)))
