-- ===== src/Redis/Info/RoundTrip.antt =====
-- The text of a Redis server for given figures, which `parse_info` reads back.
mod Lines
mod Entries
mod Figures
use dr_metrix.Prelude.{
  ℕ, ◌≡◌, ◌≢◌, refl, sym, ap, ◌∙◌, Bool, true, false, Option, none, some, List, [], ◌∷◌, ◌++◌,
  arith, ℤ, pos, map, All, All-append, append_assoc, append-nil, IsI64, unwrap_or, Option-cases,
  inl, inr, not, ◌&&◌, ◌==ℕ◌,
}
use dr_metrix.Prelude.Options.{◌>>=◌}
use dr_metrix.Std.{
  Str, Floats, codes, trim, lines, print_int, strip_prefix, starts_with, is_empty, is_whitespace,
  str_eq,
}
use dr_metrix.Std.Slices.{Lacks}
use dr_metrix.Std.Trimming.{NoSpace}
use dr_metrix.Redis.Info.{
  RedisInfo, KeyspaceEntry, is_skipped, assign, parse_line, parse_lines, parse_info, default,
  int_or_zero,
}
use dr_metrix.Redis.Info.Ranges.{InRange, EntryInRange}
use Lines.{render, lines-render, print_int-NoSpace, int_or_zero-print_int}
use Figures.{
  key_chars, IsKey-of_chars, IsFigure, assign_all, info_lines, info_lines-Lacks,
  parse_lines-info_lines,
}

-- Joins the proofs for the elements of a list.
infixr 5 ◌&◌
abbrev ◌&◌ : {A B : Type 0} → A → B → A × B
a & b = (a, b)

module _ {F : Type 0} (floats : Floats F) (print_f64 : F → Str) where
  -- The figures of an `INFO` text, in the order in which a server writes them.
  abbrev figures : RedisInfo F → List (Str × Str)
  figures info =
      (codes "connected_clients", print_int info.connected_clients)
      ∷ (codes "blocked_clients", print_int info.blocked_clients)
      ∷ (codes "used_memory", print_int info.used_memory)
      ∷ (codes "used_memory_rss", print_int info.used_memory_rss)
      ∷ (codes "mem_fragmentation_ratio", print_f64 info.mem_fragmentation_ratio)
      ∷ (codes "total_commands_processed", print_int info.total_commands_processed)
      ∷ (codes "keyspace_hits", print_int info.keyspace_hits)
      ∷ (codes "keyspace_misses", print_int info.keyspace_misses)
      ∷ (codes "evicted_keys", print_int info.evicted_keys)
      ∷ (codes "master_repl_offset", print_int info.replication_offset)
      ∷ (codes "connected_slaves", print_int info.connected_slaves)
      ∷ []

  -- The text of `INFO ALL` for the given figures.
  pub print_info : RedisInfo F → Str
  print_info info = render (info_lines (figures info) info.keyspace)

  module _ (info : RedisInfo F)
      (parse-print_f64 : floats.parse_f64 (print_f64 info.mem_fragmentation_ratio)
        ≡ some info.mem_fragmentation_ratio)
      (print_f64-NoSpace : NoSpace (print_f64 info.mem_fragmentation_ratio)) where
    figures-IsFigure : All IsFigure (figures info)
    unfolding strip_prefix is_whitespace key_chars
    figures-IsFigure =
        (
          IsKey-of_chars (codes "connected_clients") refl (λ v. refl) (λ v. refl),
          print_int-NoSpace info.connected_clients,
        )
        & (
          IsKey-of_chars (codes "blocked_clients") refl (λ v. refl) (λ v. refl),
          print_int-NoSpace info.blocked_clients,
        )
        & (
          IsKey-of_chars (codes "used_memory") refl (λ v. refl) (λ v. refl),
          print_int-NoSpace info.used_memory,
        )
        & (
          IsKey-of_chars (codes "used_memory_rss") refl (λ v. refl) (λ v. refl),
          print_int-NoSpace info.used_memory_rss,
        )
        & (
          IsKey-of_chars (codes "mem_fragmentation_ratio") refl (λ v. refl) (λ v. refl),
          print_f64-NoSpace,
        )
        & (
          IsKey-of_chars (codes "total_commands_processed") refl (λ v. refl) (λ v. refl),
          print_int-NoSpace info.total_commands_processed,
        )
        & (
          IsKey-of_chars (codes "keyspace_hits") refl (λ v. refl) (λ v. refl),
          print_int-NoSpace info.keyspace_hits,
        )
        & (
          IsKey-of_chars (codes "keyspace_misses") refl (λ v. refl) (λ v. refl),
          print_int-NoSpace info.keyspace_misses,
        )
        & (
          IsKey-of_chars (codes "evicted_keys") refl (λ v. refl) (λ v. refl),
          print_int-NoSpace info.evicted_keys,
        )
        & (
          IsKey-of_chars (codes "master_repl_offset") refl (λ v. refl) (λ v. refl),
          print_int-NoSpace info.replication_offset,
        )
        & (
          IsKey-of_chars (codes "connected_slaves") refl (λ v. refl) (λ v. refl),
          print_int-NoSpace info.connected_slaves,
        )
        & tt

    assign_all-figures :
        InRange info
        → assign_all floats (default floats) (figures info) ≡ record info { keyspace = [] }
    unfolding assign_all assign str_eq
    assign_all-figures h = rw (
      int_or_zero-print_int info.connected_clients h.connected_clients,
      int_or_zero-print_int info.blocked_clients h.blocked_clients,
      int_or_zero-print_int info.used_memory h.used_memory,
      int_or_zero-print_int info.used_memory_rss h.used_memory_rss,
      parse-print_f64,
      int_or_zero-print_int info.total_commands_processed h.total_commands_processed,
      int_or_zero-print_int info.keyspace_hits h.keyspace_hits,
      int_or_zero-print_int info.keyspace_misses h.keyspace_misses,
      int_or_zero-print_int info.evicted_keys h.evicted_keys,
      int_or_zero-print_int info.replication_offset h.replication_offset,
      int_or_zero-print_int info.connected_slaves h.connected_slaves,
    )

    -- The figures of an `INFO` result, printed as a server does and parsed, come back unchanged, if its
    -- integers are in range and its ratio is printed without spaces as a text that parses back.
    pub parse_info-print_info : InRange info → parse_info floats (print_info info) ≡ some info
    unfolding parse_info print_info
    parse_info-print_info h =
        rw
          (lines-render (info_lines (figures info) info.keyspace)
            (info_lines-Lacks (figures info) info.keyspace figures-IsFigure))
          (parse_lines-info_lines floats (default floats) (figures info) info.keyspace
              figures-IsFigure h.keyspace
            ∙ ap
                (λ (done : RedisInfo F).
                  some (record done { keyspace = done.keyspace ++ info.keyspace }))
                (assign_all-figures h))
