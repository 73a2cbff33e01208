-- ===== src/Redis/Info.antt =====
-- dr-metrix-redis/src/info_parser.rs. A panic (a slice off a character boundary) is `none`.
pub mod Safety
pub mod Ranges
pub mod RoundTrip
pub mod Reference
use mathlib.Core.Option
use dr_metrix.Prelude.{
  ℕ, ◌+◌, Bool, true, false, ◌||◌, Option, none, some, List, [], ◌∷◌, ◌++◌, ℤ, pos, unwrap_or,
  if◌then◌else◌,
}
use dr_metrix.Prelude.Options.{◌>>=◌}
use dr_metrix.Std.{
  Str, codes, str_eq, is_empty, starts_with, strip_prefix, trim, find, slice_to, slice_from,
  split_once, split, lines, parse_u32, parse_i64, Floats,
}

-- (db_index, keys, expires)
abbrev pub KeyspaceEntry : Type 0
KeyspaceEntry = ℕ × ℤ × ℤ

pub record RedisInfo (F : Type 0) : Type 0 where
  pub connected_clients : ℤ
  pub blocked_clients : ℤ
  pub used_memory : ℤ
  pub used_memory_rss : ℤ
  pub mem_fragmentation_ratio : F
  pub total_commands_processed : ℤ
  pub keyspace_hits : ℤ
  pub keyspace_misses : ℤ
  pub evicted_keys : ℤ
  pub replication_offset : ℤ
  pub connected_slaves : ℤ
  pub keyspace : List KeyspaceEntry

-- `v.parse().unwrap_or(0)`
unfoldable pub int_or_zero : Str → ℤ
int_or_zero v = unwrap_or (parse_i64 v) (pos 0)

-- One round of the loop over `fields.split(',')`.
unfoldable pub count_field : ℤ × ℤ → Str → ℤ × ℤ
count_field (keys, expires) field = elim (strip_prefix field (codes "keys=")) [
  | some v ↦ (int_or_zero v, expires)
  | none ↦ elim (strip_prefix field (codes "expires=")) [
    | some v ↦ (keys, int_or_zero v)
    | none ↦ (keys, expires)
  ]
]

unfoldable pub count_fields : ℤ × ℤ → List Str → ℤ × ℤ
count_fields counts [] = counts
count_fields counts (field ∷ fields) = count_fields (count_field counts field) fields

unfoldable pub db_entry : Str → ℕ → KeyspaceEntry
db_entry fields db_idx =
    let (keys, expires) = count_fields (pos 0, pos 0) (split fields b',') in (db_idx, keys, expires)

-- What stands behind `db`, cut at the colon. The inner `none` falls through to the `key:value` case.
unfoldable pub db_line : Str → Option ℕ → Option (Option KeyspaceEntry)
db_line rest none = some none
db_line rest (some colon) = do
  db_idx_str ← slice_to rest colon
  fields ← slice_from rest (colon + 1)
  some (Option.map (db_entry fields) (parse_u32 db_idx_str))

unfoldable pub keyspace_line : Str → Option (Option KeyspaceEntry)
unfolding db_line
keyspace_line line = elim (strip_prefix line (codes "db")) [
  | some rest ↦ db_line rest (find rest b':')
  | none ↦ some none
]

-- A blank line or a comment.
abbrev pub is_skipped : Str → Bool
is_skipped line = starts_with line b'#' || is_empty line

module _ {F : Type 0} (floats : Floats F) where
  -- `RedisInfo::default()`
  abbrev pub default : RedisInfo F
  default = record {
    connected_clients = pos 0;
    blocked_clients = pos 0;
    used_memory = pos 0;
    used_memory_rss = pos 0;
    mem_fragmentation_ratio = floats.zero;
    total_commands_processed = pos 0;
    keyspace_hits = pos 0;
    keyspace_misses = pos 0;
    evicted_keys = pos 0;
    replication_offset = pos 0;
    connected_slaves = pos 0;
    keyspace = [];
  }

  -- `match key { … }`
  unfoldable pub assign : RedisInfo F → Str → Str → RedisInfo F
  assign info key value =
      if str_eq key (codes "connected_clients")
      then record info { connected_clients = int_or_zero value }
      else if str_eq key (codes "blocked_clients")
      then record info { blocked_clients = int_or_zero value }
      else if str_eq key (codes "used_memory")
      then record info { used_memory = int_or_zero value }
      else if str_eq key (codes "used_memory_rss")
      then record info { used_memory_rss = int_or_zero value }
      else if str_eq key (codes "mem_fragmentation_ratio")
      then record info { mem_fragmentation_ratio = unwrap_or (floats.parse_f64 value) floats.zero }
      else if str_eq key (codes "total_commands_processed")
      then record info { total_commands_processed = int_or_zero value }
      else if str_eq key (codes "keyspace_hits")
      then record info { keyspace_hits = int_or_zero value }
      else if str_eq key (codes "keyspace_misses")
      then record info { keyspace_misses = int_or_zero value }
      else if str_eq key (codes "evicted_keys")
      then record info { evicted_keys = int_or_zero value }
      else if str_eq key (codes "master_repl_offset")
      then record info { replication_offset = int_or_zero value }
      else if str_eq key (codes "connected_slaves")
      then record info { connected_slaves = int_or_zero value }
      else info

  unfoldable pub assign_pair : RedisInfo F → Option (Str × Str) → RedisInfo F
  assign_pair info none = info
  assign_pair info (some (key, value)) = assign info key (trim value)

  unfoldable pub record_line : RedisInfo F → Str → Option KeyspaceEntry → RedisInfo F
  record_line info line (some entry) = record info { keyspace = info.keyspace ++ entry ∷ [] }
  record_line info line none = assign_pair info (split_once line b':')

  -- One round of the loop over `raw.lines()`.
  unfoldable pub parse_line : RedisInfo F → Str → Option (RedisInfo F)
  parse_line info raw_line =
      let line = trim raw_line in
      if is_skipped line
      then some info
      else do entry ← keyspace_line line; some (record_line info line entry)

  unfoldable pub parse_lines : RedisInfo F → List Str → Option (RedisInfo F)
  parse_lines info [] = some info
  parse_lines info (line ∷ lines) = do info' ← parse_line info line; parse_lines info' lines

  unfoldable pub parse_info : Str → Option (RedisInfo F)
  parse_info raw = parse_lines default (lines raw)
