-- ===== src/Redis/Info/Safety.antt =====
-- The parser never panics: every slice is cut at a character boundary.
use mathlib.Core.Option
use dr_metrix.Prelude.{
  ◌≡◌, refl, Option, none, some, List, [], ◌∷◌, inl, inr, arith, Option-cases, Bool-cases,
}
use dr_metrix.Std.{Str, Floats, codes, strip_prefix, find, trim, lines, parse_u32}
use dr_metrix.Std.Slices.{find-slices}
use dr_metrix.Redis.Info.{
  RedisInfo, KeyspaceEntry, db_entry, db_line, keyspace_line, record_line, parse_line, parse_lines,
  parse_info, is_skipped,
}

db_line_total : (rest : Str) → (e : Option KeyspaceEntry) × (db_line rest (find rest b':') ≡ some e)
unfolding db_line
db_line_total rest = elim (Option-cases (find rest b':')) [
  | inl missing ↦ (none, rw (missing, db_line))
  | inr (i, found) ↦
      let (a, b, _, to, from) = find-slices b':' (omega arith) rest i found in
      (Option.map (db_entry b) (parse_u32 a), rw (found, to, from))
]

keyspace_line_total : (line : Str) → (e : Option KeyspaceEntry) × (keyspace_line line ≡ some e)
unfolding keyspace_line
keyspace_line_total line = elim (Option-cases (strip_prefix line (codes "db"))) [
  | inl other ↦ (none, rw (other, keyspace_line))
  | inr (rest, db) ↦ let (e, p) = db_line_total rest in (e, rw (db, keyspace_line) p)
]

module _ {F : Type 0} (floats : Floats F) where
  parse_line_total :
      (info : RedisInfo F) (line : Str)
      → (next : RedisInfo F) × (parse_line floats info line ≡ some next)
  unfolding parse_line
  parse_line_total info line = elim (Bool-cases (is_skipped (trim line))) [
    | inl skip ↦ (info, rw skip)
    | inr keep ↦
        let (e, p) = keyspace_line_total (trim line) in
        (record_line floats info (trim line) e, rw (keep, p))
  ]

  parse_lines_total :
      (info : RedisInfo F) (ls : List Str)
      → (result : RedisInfo F) × (parse_lines floats info ls ≡ some result)
  unfolding parse_lines
  parse_lines_total info [] = (info, refl)
  parse_lines_total info (l ∷ ls) =
      let (next, p) = parse_line_total info l in
      let (result, q) = parse_lines_total next ls in (result, rw p q)

  -- `parse_info` returns for every text: no slice in it is out of range or inside a character.
  pub parse_info_total : (raw : Str) → (info : RedisInfo F) × (parse_info floats raw ≡ some info)
  unfolding parse_info
  parse_info_total raw = parse_lines_total _ (lines raw)
