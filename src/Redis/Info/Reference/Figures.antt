-- ===== src/Redis/Info/Reference/Figures.antt =====
-- What the lines of an INFO text say of each figure.
use mathlib.Core.Option
use dr_metrix.Prelude.{
  ◌≡◌, refl, false, Option, none, some, List, [], ◌∷◌, ◌++◌, inl, inr, append_assoc, append-nil,
  if◌then◌else◌, Bool-cases, unwrap_or, arith,
}
use dr_metrix.Std.{Str, codes, str_eq, Floats}
use dr_metrix.Std.Splitting.{str_eq_iff}
use dr_metrix.Redis.Info.{RedisInfo, KeyspaceEntry, int_or_zero, assign}
use dr_metrix.Redis.Info.Reference.Lines.{Line, skipped, entry, pair, line_state}

-- The value on the last line with a key.
pub value_of : Str → List Line → Option Str
value_of key [] = none
value_of key (pair k value ∷ ls) = elim (value_of key ls) [
  | some later ↦ some later
  | none ↦ if str_eq k key then some value else none
]
value_of key (_ ∷ ls) = value_of key ls

-- The keyspace entries, in the order of their lines.
pub entries : List Line → List KeyspaceEntry
entries [] = []
entries (entry e ∷ ls) = e ∷ entries ls
entries (_ ∷ ls) = entries ls

-- The figure that is stated, read by `read`.
abbrev pub stated : {A : Type 0} → (Str → A) → Str → A → List Line → A
stated read key old ls = unwrap_or (Option.map read (value_of key ls)) old

abbrev when : {A : Type 0} → (Str → A) → Str → A → Str → Str → A
when read k old key value = if str_eq key k then read value else old

stated-pair :
    {A : Type 0} (read : Str → A) (k : Str) (old : A) (key value : Str) (ls : List Line)
    → stated read k (when read k old key value) ls ≡ stated read k old (pair key value ∷ ls)
unfolding value_of
stated-pair read k old key value ls = ground arith

by_key : (P : Str → Type 0) (k key : Str) → P k → (str_eq key k ≡ false → P key) → P key
by_key P k key same other = elim (Bool-cases (str_eq key k)) [
  | inl e ↦ rw ((str_eq_iff key k).0 e) same
  | inr e ↦ other e
]

module _ {F : Type 0} (floats : Floats F) where
  abbrev ratio : Str → F
  ratio value = unwrap_or (floats.parse_f64 value) floats.zero

  abbrev pub overlay : RedisInfo F → List Line → RedisInfo F
  overlay info ls = record {
    connected_clients = stated int_or_zero (codes "connected_clients") info.connected_clients ls;
    blocked_clients = stated int_or_zero (codes "blocked_clients") info.blocked_clients ls;
    used_memory = stated int_or_zero (codes "used_memory") info.used_memory ls;
    used_memory_rss = stated int_or_zero (codes "used_memory_rss") info.used_memory_rss ls;
    mem_fragmentation_ratio =
        stated ratio (codes "mem_fragmentation_ratio") info.mem_fragmentation_ratio ls;
    total_commands_processed =
        stated int_or_zero (codes "total_commands_processed") info.total_commands_processed ls;
    keyspace_hits = stated int_or_zero (codes "keyspace_hits") info.keyspace_hits ls;
    keyspace_misses = stated int_or_zero (codes "keyspace_misses") info.keyspace_misses ls;
    evicted_keys = stated int_or_zero (codes "evicted_keys") info.evicted_keys ls;
    replication_offset = stated int_or_zero (codes "master_repl_offset") info.replication_offset ls;
    connected_slaves = stated int_or_zero (codes "connected_slaves") info.connected_slaves ls;
    keyspace = info.keyspace ++ entries ls;
  }

  abbrev assigned : RedisInfo F → Str → Str → RedisInfo F
  assigned info key value = record {
    connected_clients =
        when int_or_zero (codes "connected_clients") info.connected_clients key value;
    blocked_clients = when int_or_zero (codes "blocked_clients") info.blocked_clients key value;
    used_memory = when int_or_zero (codes "used_memory") info.used_memory key value;
    used_memory_rss = when int_or_zero (codes "used_memory_rss") info.used_memory_rss key value;
    mem_fragmentation_ratio =
        when ratio (codes "mem_fragmentation_ratio") info.mem_fragmentation_ratio key value;
    total_commands_processed =
        when int_or_zero (codes "total_commands_processed") info.total_commands_processed key value;
    keyspace_hits = when int_or_zero (codes "keyspace_hits") info.keyspace_hits key value;
    keyspace_misses = when int_or_zero (codes "keyspace_misses") info.keyspace_misses key value;
    evicted_keys = when int_or_zero (codes "evicted_keys") info.evicted_keys key value;
    replication_offset =
        when int_or_zero (codes "master_repl_offset") info.replication_offset key value;
    connected_slaves = when int_or_zero (codes "connected_slaves") info.connected_slaves key value;
    keyspace = info.keyspace;
  }

  abbrev Same : RedisInfo F → Str → Str → Type 0
  Same info value key = assign floats info key value ≡ assigned info key value

  assign-assigned :
      (info : RedisInfo F) (key value : Str)
      → assign floats info key value ≡ assigned info key value
  unfolding assign str_eq
  assign-assigned info key value =
      by_key (Same info value) (codes "connected_clients") key refl λ n1.
        by_key (Same info value) (codes "blocked_clients") key refl λ n2.
          by_key (Same info value) (codes "used_memory") key refl λ n3.
            by_key (Same info value) (codes "used_memory_rss") key refl λ n4.
              by_key (Same info value) (codes "mem_fragmentation_ratio") key refl λ n5.
                by_key (Same info value) (codes "total_commands_processed") key refl λ n6.
                  by_key (Same info value) (codes "keyspace_hits") key refl λ n7.
                    by_key (Same info value) (codes "keyspace_misses") key refl λ n8.
                      by_key (Same info value) (codes "evicted_keys") key refl λ n9.
                        by_key (Same info value) (codes "master_repl_offset") key refl λ n10.
                          by_key (Same info value) (codes "connected_slaves") key refl
                            λ n11. rw (n1, n2, n3, n4, n5, n6, n7, n8, n9, n10, n11) refl

  pub overlay-line_state :
      (info : RedisInfo F) (line : Line) (ls : List Line)
      → overlay (line_state floats info line) ls ≡ overlay info (line ∷ ls)
  unfolding value_of entries
  overlay-line_state info skipped ls = refl
  overlay-line_state info (entry e) ls = rw (append_assoc info.keyspace (e ∷ []) (entries ls)) refl
  overlay-line_state info (pair key value) ls =
      rw
        (
          assign-assigned info key value,
          stated-pair int_or_zero (codes "connected_clients") info.connected_clients key value ls,
          stated-pair int_or_zero (codes "blocked_clients") info.blocked_clients key value ls,
          stated-pair int_or_zero (codes "used_memory") info.used_memory key value ls,
          stated-pair int_or_zero (codes "used_memory_rss") info.used_memory_rss key value ls,
          stated-pair ratio (codes "mem_fragmentation_ratio") info.mem_fragmentation_ratio key value
              ls,
          stated-pair int_or_zero (codes "total_commands_processed") info.total_commands_processed
              key value ls,
          stated-pair int_or_zero (codes "keyspace_hits") info.keyspace_hits key value ls,
          stated-pair int_or_zero (codes "keyspace_misses") info.keyspace_misses key value ls,
          stated-pair int_or_zero (codes "evicted_keys") info.evicted_keys key value ls,
          stated-pair int_or_zero (codes "master_repl_offset") info.replication_offset key value ls,
          stated-pair int_or_zero (codes "connected_slaves") info.connected_slaves key value ls,
        )
        refl

  pub overlay-nil : (info : RedisInfo F) → overlay info [] ≡ info
  unfolding value_of entries
  overlay-nil info = rw (append-nil info.keyspace) refl
