-- ===== src/Redis/Info/Reference/Lines.antt =====
-- What a line of an INFO text says.
use mathlib.Core.Option
use dr_metrix.Prelude.{
  ℕ, ◌≡◌, refl, ap, ◌∙◌, Option, none, some, List, [], ◌∷◌, ◌++◌, ℤ, pos, inl, inr, if◌then◌else◌,
  Option-cases, Bool-cases, unwrap_or, arith,
}
use dr_metrix.Std.{Str, codes, trim, strip_prefix, find, split_once, split, parse_u32, Floats}
use dr_metrix.Std.Slices.{find-slices, find-eq-none}
use dr_metrix.Redis.Info.{
  RedisInfo, KeyspaceEntry, int_or_zero, is_skipped, count_field, count_fields, db_entry, db_line,
  keyspace_line, assign, assign_pair, record_line, parse_line,
}

pub data Line : Type 0 where
  skipped : Line
  entry : KeyspaceEntry → Line
  pair : (key value : Str) → Line

-- What the last field with a prefix has behind it.
abbrev or_else : {A : Type 0} → Option A → Option A → Option A
or_else none b = b
or_else (some a) b = some a

pub last_field : Str → List Str → Option Str
last_field p [] = none
last_field p (field ∷ fields) = or_else (last_field p fields) (strip_prefix field p)

-- The count that such a field states, or the given one.
abbrev stated_by : Option Str → ℤ → ℤ
stated_by o old = unwrap_or (Option.map int_or_zero o) old

-- `<index>:<fields>`, behind the `db` of a line
abbrev indexed : Str → Option ℕ → Option KeyspaceEntry
indexed fields none = none
indexed fields (some db) = some (
  db,
  stated_by (last_field (codes "keys=") (split fields b',')) (pos 0),
  stated_by (last_field (codes "expires=") (split fields b',')) (pos 0),
)

abbrev database : Option (Str × Str) → Option KeyspaceEntry
database none = none
database (some (index, fields)) = indexed fields (parse_u32 index)

abbrev database_line : Option Str → Option KeyspaceEntry
database_line none = none
database_line (some rest) = database (split_once rest b':')

abbrev keyed : Option (Str × Str) → Line
keyed none = skipped
keyed (some (key, value)) = pair key (trim value)

abbrev visible : Str → Option KeyspaceEntry → Line
visible line (some e) = entry e
visible line none = keyed (split_once line b':')

-- Whitespace around a line does not count. A blank line or a comment says nothing; a line `db<index>:<fields>`
-- is an entry of the keyspace, and any other line with a colon is a key and a value.
pub classify : Str → Line
classify raw_line =
    let line = trim raw_line in
    if is_skipped line
    then skipped
    else visible line (database_line (strip_prefix line (codes "db")))

strip_keys_expires :
    (field v : Str)
    → strip_prefix field (codes "keys=") ≡ some v
    → strip_prefix field (codes "expires=") ≡ none
unfolding strip_prefix
strip_keys_expires [] v h = refl
strip_keys_expires (c ∷ field) v h = ground arith

stated_by-or_else :
    (a b : Option Str) (old : ℤ) → stated_by a (stated_by b old) ≡ stated_by (or_else a b) old
stated_by-or_else none b old = refl
stated_by-or_else (some v) b old = refl

count_field-stated :
    (keys expires : ℤ) (field : Str)
    → count_field (keys, expires) field ≡ (
      stated_by (strip_prefix field (codes "keys=")) keys,
      stated_by (strip_prefix field (codes "expires=")) expires,
    )
unfolding count_field strip_prefix
count_field-stated keys expires field = elim (Option-cases (strip_prefix field (codes "keys="))) [
  | inr (v, e) ↦ rw (e, strip_keys_expires field v e) refl
  | inl e ↦ elim (Option-cases (strip_prefix field (codes "expires="))) [
    | inl e' ↦ rw (e, e') refl
    | inr (v, e') ↦ rw (e, e') refl
  ]
]

count_fields-counted :
    (fields : List Str) (keys expires : ℤ)
    → count_fields (keys, expires) fields ≡ (
      stated_by (last_field (codes "keys=") fields) keys,
      stated_by (last_field (codes "expires=") fields) expires,
    )
unfolding count_fields last_field
count_fields-counted [] keys expires = refl
count_fields-counted (field ∷ fields) keys expires = rw (count_field-stated keys expires field) (
    count_fields-counted fields _ _
    ∙ rw
        (
          stated_by-or_else (last_field (codes "keys=") fields) (strip_prefix field (codes "keys="))
              keys,
          stated_by-or_else (last_field (codes "expires=") fields)
              (strip_prefix field (codes "expires=")) expires,
        )
        refl)

by_index :
    (fields : Str) (o : Option ℕ) → some (Option.map (db_entry fields) o) ≡ some (indexed fields o)
unfolding db_entry
by_index fields none = refl
by_index fields (some db) = rw (count_fields-counted (split fields b',') (pos 0) (pos 0)) refl

db_line-database :
    (rest : Str) → db_line rest (find rest b':') ≡ some (database (split_once rest b':'))
unfolding db_line
db_line-database rest = elim (Option-cases (find rest b':')) [
  | inl missing ↦ rw (missing, find-eq-none rest b':' missing) refl
  | inr (i, found) ↦
      let (a, b, once, to, from) = find-slices b':' (omega arith) rest i found in
      rw (found, to, from, once) (by_index b (parse_u32 a))
]

keyspace_line-database :
    (line : Str) → keyspace_line line ≡ some (database_line (strip_prefix line (codes "db")))
unfolding keyspace_line strip_prefix
keyspace_line-database line = elim (Option-cases (strip_prefix line (codes "db"))) [
  | inl other ↦ rw other refl
  | inr (rest, db) ↦ rw db (db_line-database rest)
]

module _ {F : Type 0} (floats : Floats F) where
  -- What a line makes of the result so far.
  abbrev pub line_state : RedisInfo F → Line → RedisInfo F
  line_state info skipped = info
  line_state info (entry e) = record info { keyspace = info.keyspace ++ e ∷ [] }
  line_state info (pair key value) = assign floats info key value

  by_pair :
      (info : RedisInfo F) (o : Option (Str × Str))
      → assign_pair floats info o ≡ line_state info (keyed o)
  unfolding assign_pair
  by_pair info none = refl
  by_pair info (some (key, value)) = refl

  by_entry :
      (info : RedisInfo F) (line : Str) (o : Option KeyspaceEntry)
      → some (record_line floats info line o) ≡ some (line_state info (visible line o))
  unfolding record_line
  by_entry info line (some e) = refl
  by_entry info line none = ap some (by_pair info (split_once line b':'))

  pub parse_line-classify :
      (info : RedisInfo F) (line : Str)
      → parse_line floats info line ≡ some (line_state info (classify line))
  unfolding parse_line classify
  parse_line-classify info line = elim (Bool-cases (is_skipped (trim line))) [
    | inl skip ↦ rw skip refl
    | inr keep ↦ rw (keep, keyspace_line-database (trim line)) (by_entry info (trim line) _)
  ]
