-- ===== src/Redis/Info/Reference.antt =====
-- What an INFO text says, line by line and field by field: a description of the parser's result with no
-- state and no slices.
pub mod Lines
pub mod Figures
use dr_metrix.Prelude.{
  ℕ, ◌≡◌, refl, sym, ap, ◌∙◌, Option, none, some, List, [], ◌∷◌, ◌++◌, map, append_assoc,
  append-nil, ℤ, pos, if◌then◌else◌,
}
use dr_metrix.Std.{
  Str, codes, str_eq, trim, lines, strip_prefix, split_once, split, parse_u32, Floats,
}
use dr_metrix.Redis.Info.{
  RedisInfo, KeyspaceEntry, int_or_zero, is_skipped, default, parse_lines, parse_info,
}
use dr_metrix.Redis.Info.Reference.Lines.{
  Line, skipped, entry, pair, classify, line_state, parse_line-classify,
}
use dr_metrix.Redis.Info.Reference.Figures.{
  value_of, stated, entries, overlay, overlay-line_state, overlay-nil,
}

module _ {F : Type 0} (floats : Floats F) where
  -- The figure of a key is that of the last line with it, and zero where no line has it.
  abbrev pub reference : List Line → RedisInfo F
  reference ls = overlay floats (default floats) ls

  parse_lines-overlay :
      (ls : List Str) (info : RedisInfo F)
      → parse_lines floats info ls ≡ some (overlay floats info (map classify ls))
  unfolding parse_lines
  parse_lines-overlay [] info = ap some (sym (overlay-nil floats info))
  parse_lines-overlay (l ∷ ls) info = rw (parse_line-classify floats info l) (
      parse_lines-overlay ls (line_state floats info (classify l))
      ∙ ap some (overlay-line_state floats info (classify l) (map classify ls)))

  -- `parse_info` gives what the lines of the text say, each read on its own: every figure is that of the last
  -- line with its key, or zero, and the entries of the keyspace come in the order of their lines.
  pub parse_info-reference :
      (raw : Str) → parse_info floats raw ≡ some (reference (map classify (lines raw)))
  unfolding parse_info
  parse_info-reference raw = parse_lines-overlay (lines raw) (default floats)
