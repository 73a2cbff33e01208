-- ===== src/Redis/Info/Ranges.antt =====
-- What the parser stores is in range, whatever the text.
use mathlib.Core.Option
use mathlib.Core.Option.{some-injective}
use mathlib.Core.Path.{subst}
use dr_metrix.Prelude.{
  ◌+◌, ℕ, ◌^◌, ◌<◌, ◌≡◌, Option, none, some, List, [], ◌∷◌, inl, inr, arith, ℤ, pos, IsI64,
  Option-cases, Bool-cases, All, All-append,
}
use dr_metrix.Prelude.Options.{>>=-eq-some}
use dr_metrix.Std.{
  Str, Floats, codes, strip_prefix, find, trim, lines, split_once, split, slice_to, slice_from,
  parse_u32,
}
use dr_metrix.Std.Numerals.{parse_i64_or-IsI64, parse_u32-lt}
use dr_metrix.Redis.Info.{
  RedisInfo, KeyspaceEntry, int_or_zero, count_field, count_fields, db_entry, db_line,
  keyspace_line, record_line, parse_line, parse_lines, parse_info, is_skipped, assign, assign_pair,
  default,
}

abbrev pub EntryInRange : KeyspaceEntry → Type 0
EntryInRange (db, keys, expires) = (db < 2 ^ 32) × IsI64 keys × IsI64 expires

-- Every integer of an `INFO` result is an `i64`, and every database index a `u32`.
pub record InRange {F : Type 0} (info : RedisInfo F) : Type 0 where
  pub connected_clients : IsI64 info.connected_clients
  pub blocked_clients : IsI64 info.blocked_clients
  pub used_memory : IsI64 info.used_memory
  pub used_memory_rss : IsI64 info.used_memory_rss
  pub total_commands_processed : IsI64 info.total_commands_processed
  pub keyspace_hits : IsI64 info.keyspace_hits
  pub keyspace_misses : IsI64 info.keyspace_misses
  pub evicted_keys : IsI64 info.evicted_keys
  pub replication_offset : IsI64 info.replication_offset
  pub connected_slaves : IsI64 info.connected_slaves
  pub keyspace : All EntryInRange info.keyspace

int_or_zero-IsI64 : (v : Str) → IsI64 (int_or_zero v)
unfolding int_or_zero
int_or_zero-IsI64 v = parse_i64_or-IsI64 v

abbrev CountsInRange : ℤ × ℤ → Type 0
CountsInRange (keys, expires) = IsI64 keys × IsI64 expires

count_field-InRange :
    (counts : ℤ × ℤ) (field : Str) → CountsInRange counts → CountsInRange (count_field counts field)
unfolding count_field
count_field-InRange (keys, expires) field h =
    elim (Option-cases (strip_prefix field (codes "keys="))) [
      | inl other ↦ elim (Option-cases (strip_prefix field (codes "expires="))) [
        | inl neither ↦ rw (other, neither, count_field) h
        | inr (v, e) ↦ rw (other, e, count_field) (h.0, int_or_zero-IsI64 v)
      ]
      | inr (v, e) ↦ rw (e, count_field) (int_or_zero-IsI64 v, h.1)
    ]

count_fields-InRange :
    (counts : ℤ × ℤ) (fields : List Str)
    → CountsInRange counts
    → CountsInRange (count_fields counts fields)
unfolding count_fields
count_fields-InRange counts [] h = h
count_fields-InRange counts (f ∷ fs) h =
    count_fields-InRange (count_field counts f) fs (count_field-InRange counts f h)

db_entry-InRange : (fields : Str) (db : ℕ) → db < 2 ^ 32 → EntryInRange (db_entry fields db)
unfolding db_entry
db_entry-InRange fields db h =
    let c = count_fields-InRange (pos 0, pos 0) (split fields b',') (omega arith) in (h, c.0, c.1)

db_line-InRange :
    (rest : Str) (colon : Option ℕ) (e : KeyspaceEntry)
    → db_line rest colon ≡ some (some e)
    → EntryInRange e
unfolding db_line
db_line-InRange rest none e h = ground arith
db_line-InRange rest (some i) e h =
    let (a, _, h₁) = >>=-eq-some (slice_to rest i) _ h in
    let (b, _, h₂) = >>=-eq-some (slice_from rest (i + 1)) _ h₁ in
    let (db, parsed, same) =
      (Option.map-eq-some_iff (db_entry b) (parse_u32 a)).0 (some-injective _ _ h₂) in
    subst EntryInRange same (db_entry-InRange b db (parse_u32-lt a db parsed))

keyspace_line-InRange :
    (line : Str) (e : KeyspaceEntry) → keyspace_line line ≡ some (some e) → EntryInRange e
unfolding keyspace_line
keyspace_line-InRange line e h = elim (Option-cases (strip_prefix line (codes "db"))) [
  | inl other ↦ absurd (cc (rw (other, keyspace_line) at h))
  | inr (rest, db) ↦ db_line-InRange rest (find rest b':') e (rw (db, keyspace_line) at h)
]

module _ {F : Type 0} (floats : Floats F) where
  assign-InRange :
      (info : RedisInfo F) (key value : Str) → InRange info → InRange (assign floats info key value)
  unfolding assign
  assign-InRange info key value h = ground (arith, int_or_zero-IsI64 value)

  assign_pair-InRange :
      (info : RedisInfo F) (pair : Option (Str × Str))
      → InRange info
      → InRange (assign_pair floats info pair)
  unfolding assign_pair
  assign_pair-InRange info none h = h
  assign_pair-InRange info (some (key, value)) h = assign-InRange info key (trim value) h

  record_line-InRange :
      (info : RedisInfo F) (line : Str) (e : Option KeyspaceEntry)
      → keyspace_line line ≡ some e
      → InRange info
      → InRange (record_line floats info line e)
  unfolding record_line
  record_line-InRange info line (some e) p h = record {
    connected_clients = h.connected_clients;
    blocked_clients = h.blocked_clients;
    used_memory = h.used_memory;
    used_memory_rss = h.used_memory_rss;
    total_commands_processed = h.total_commands_processed;
    keyspace_hits = h.keyspace_hits;
    keyspace_misses = h.keyspace_misses;
    evicted_keys = h.evicted_keys;
    replication_offset = h.replication_offset;
    connected_slaves = h.connected_slaves;
    keyspace =
        All-append EntryInRange info.keyspace _ h.keyspace (keyspace_line-InRange line e p, tt);
  }
  record_line-InRange info line none p h = assign_pair-InRange info (split_once line b':') h

  parse_line-InRange :
      (info next : RedisInfo F) (line : Str)
      → parse_line floats info line ≡ some next
      → InRange info
      → InRange next
  unfolding parse_line
  parse_line-InRange info next line p h = elim (Bool-cases (is_skipped (trim line))) [
    | inl skip ↦ subst InRange (some-injective _ _ (rw skip at p)) h
    | inr keep ↦
        let (e, found, same) = >>=-eq-some (keyspace_line (trim line)) _ (rw keep at p) in
        subst InRange (some-injective _ _ same) (record_line-InRange info (trim line) e found h)
  ]

  pub parse_lines-InRange :
      (info result : RedisInfo F) (ls : List Str)
      → parse_lines floats info ls ≡ some result
      → InRange info
      → InRange result
  unfolding parse_lines
  parse_lines-InRange info result [] p h = subst InRange (some-injective _ _ p) h
  parse_lines-InRange info result (l ∷ ls) p h =
      let (next, step, rest) = >>=-eq-some (parse_line floats info l) _ p in
      parse_lines-InRange next result ls rest (parse_line-InRange info next l step h)

  -- Whatever the text, each integer that `parse_info` returns is in the range of an `i64`, and each
  -- database index in that of a `u32`.
  pub parse_info-InRange :
      (raw : Str) (info : RedisInfo F) → parse_info floats raw ≡ some info → InRange info
  unfolding parse_info
  parse_info-InRange raw info p =
      parse_lines-InRange (default floats) info (lines raw) p (omega arith)
