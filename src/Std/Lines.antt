-- ===== src/Std/Lines.antt =====
-- `str::lines`: the text is cut behind every line feed; a line that one ends loses it, and a
-- carriage return before it. What follows the last line feed is a line unless it is empty.
use dr_metrix.Prelude.{true, false, List, [], ◌∷◌, ◌++◌, ◌==ℕ◌, if◌then◌else◌}
use dr_metrix.Std.Text.{Str}

-- A line without its last carriage return.
unfoldable pub strip_cr : Str → Str
strip_cr [] = []
strip_cr (c ∷ []) = if c ==ℕ b'\r' then [] else c ∷ []
strip_cr (c ∷ d ∷ s) = c ∷ strip_cr (d ∷ s)

abbrev last_line : Str → List Str
last_line [] = []
last_line (c ∷ s) = (c ∷ s) ∷ []

-- `cur` holds the read part of the current line.
unfoldable pub lines_from : Str → Str → List Str
lines_from cur [] = last_line cur
lines_from cur (c ∷ s) = elim (c ==ℕ b'\n') [
  | true ↦ strip_cr cur ∷ lines_from [] s
  | false ↦ lines_from (cur ++ c ∷ []) s
]

unfoldable pub lines : Str → List Str
unfolding lines_from strip_cr
lines s = lines_from [] s
