-- ===== src/Redis/Info/RoundTrip/Figures.antt =====
-- The lines `key:value` of a server, and the text that they make with the databases.
use dr_metrix.Prelude.{
  ℕ, ◌≡◌, ◌≢◌, refl, Bool, true, false, none, some, List, [], ◌∷◌, ◌++◌, arith, map, All,
  All-append, Option-cases, inl, inr, not, ◌&&◌, ◌==ℕ◌,
}
use dr_metrix.Prelude.Options.{◌>>=◌}
use dr_metrix.Std.{Str, Floats, codes, trim, strip_prefix, is_whitespace}
use dr_metrix.Std.Slices.{Lacks}
use dr_metrix.Std.Trimming.{NoSpace}
use dr_metrix.Redis.Info.{RedisInfo, KeyspaceEntry, is_skipped, assign, parse_line, parse_lines}
use dr_metrix.Redis.Info.Ranges.{EntryInRange}
use dr_metrix.Redis.Info.RoundTrip.Entries.{field-NoSpace, parse_line-field, parse_lines-entries}
use dr_metrix.Redis.Info.RoundTrip.Lines.{print_entry, field, print_entry-Lacks}

-- What a key of `INFO` must be for its line to be read as `key:value`.
abbrev pub IsKey : Str → Type 0
IsKey key =
    ((v : Str) → is_skipped (field key v) ≡ false)
    × ((v : Str) → strip_prefix (field key v) (codes "db") ≡ none)
    × Lacks b':' key
    × NoSpace key

-- The same of the characters, as a test.
unfoldable pub key_chars : Str → Bool
key_chars [] = true
key_chars (c ∷ s) = not (is_whitespace c) && not (c ==ℕ b':') && key_chars s

key_chars_sound : (s : Str) → key_chars s ≡ true → Lacks b':' s × NoSpace s
unfolding key_chars
key_chars_sound [] h = (tt, tt)
key_chars_sound (c ∷ s) h =
    let ih = key_chars_sound s (ground arith) in ((ground arith, ih.0), (ground arith, ih.1))

-- A key is told by its test and by its first letters.
pub IsKey-of_chars :
    (key : Str)
    → key_chars key ≡ true
    → ((v : Str) → is_skipped (field key v) ≡ false)
    → ((v : Str) → strip_prefix (field key v) (codes "db") ≡ none)
    → IsKey key
IsKey-of_chars key h kept other = let c = key_chars_sound key h in (kept, other, c.0, c.1)

abbrev pub IsFigure : Str × Str → Type 0
IsFigure (key, value) = IsKey key × NoSpace value

space_ends_lines : (c : ℕ) → is_whitespace c ≡ false → c ≢ b'\n'
unfolding is_whitespace
space_ends_lines c h = ground arith

NoSpace-Lacks : (s : Str) → NoSpace s → Lacks b'\n' s
NoSpace-Lacks [] h = tt
NoSpace-Lacks (c ∷ s) (p, h) = (space_ends_lines c p, NoSpace-Lacks s h)

abbrev figure_line : Str × Str → Str
figure_line (key, value) = field key value

figures-Lacks : (ps : List (Str × Str)) → All IsFigure ps → All (Lacks b'\n') (map figure_line ps)
figures-Lacks [] h = tt
figures-Lacks ((key, value) ∷ ps) ((k, v), hs) =
    (NoSpace-Lacks (field key value) (field-NoSpace key value k.3 v), figures-Lacks ps hs)

entries-Lacks : (es : List KeyspaceEntry) → All (Lacks b'\n') (map print_entry es)
entries-Lacks [] = tt
entries-Lacks (e ∷ es) = (print_entry-Lacks e, entries-Lacks es)

module _ {F : Type 0} (floats : Floats F) where
  unfoldable pub assign_all : RedisInfo F → List (Str × Str) → RedisInfo F
  assign_all info [] = info
  assign_all info ((key, value) ∷ ps) = assign_all (assign floats info key value) ps

  parse_lines-append :
      (info : RedisInfo F) (ls ms : List Str)
      → parse_lines floats info (ls ++ ms)
        ≡ (do next ← parse_lines floats info ls; parse_lines floats next ms)
  unfolding parse_lines
  parse_lines-append info [] ms = refl
  parse_lines-append info (l ∷ ls) ms = elim (Option-cases (parse_line floats info l)) [
    | inl fault ↦ rw fault
    | inr (next, e) ↦ rw e (parse_lines-append next ls ms)
  ]

  parse_lines-figures :
      (info : RedisInfo F) (ps : List (Str × Str))
      → All IsFigure ps
      → parse_lines floats info (map figure_line ps) ≡ some (assign_all info ps)
  unfolding parse_lines assign_all
  parse_lines-figures info [] h = refl
  parse_lines-figures info ((key, value) ∷ ps) ((k, v), hs) =
      rw (parse_line-field floats info key value (k.0 value) (k.1 value) k.2 k.3 v)
        (parse_lines-figures (assign floats info key value) ps hs)

-- A comment, the figures, an empty line, a comment, the databases.
pub info_lines : List (Str × Str) → List KeyspaceEntry → List Str
info_lines ps es =
    codes "# Figures" ∷ (map figure_line ps ++ [] ∷ codes "# Keyspace" ∷ map print_entry es)

pub info_lines-Lacks :
    (ps : List (Str × Str)) (es : List KeyspaceEntry)
    → All IsFigure ps
    → All (Lacks b'\n') (info_lines ps es)
unfolding info_lines
info_lines-Lacks ps es h = (
  omega arith,
  All-append (Lacks b'\n') (map figure_line ps) ([] ∷ codes "# Keyspace" ∷ map print_entry es)
      (figures-Lacks ps h) (tt, (omega arith, entries-Lacks es)),
)

module _ {F : Type 0} (floats : Floats F) where
  skip_heading :
      (info : RedisInfo F)
      → (parse_line floats info (codes "# Figures") ≡ some info)
        × (parse_line floats info [] ≡ some info)
        × (parse_line floats info (codes "# Keyspace") ≡ some info)
  unfolding parse_line trim
  skip_heading info = (refl, refl, refl)

  parse_lines-databases :
      (info : RedisInfo F) (es : List KeyspaceEntry)
      → All EntryInRange es
      → parse_lines floats info ([] ∷ codes "# Keyspace" ∷ map print_entry es)
        ≡ some (record info { keyspace = info.keyspace ++ es })
  unfolding parse_lines
  parse_lines-databases info es h =
      rw ((skip_heading info).1, (skip_heading info).2) (parse_lines-entries floats info es h)

  pub parse_lines-info_lines :
      (info : RedisInfo F) (ps : List (Str × Str)) (es : List KeyspaceEntry)
      → All IsFigure ps
      → All EntryInRange es
      → parse_lines floats info (info_lines ps es) ≡ (
          let done = assign_all floats info ps in
          some (record done { keyspace = done.keyspace ++ es }))
  unfolding info_lines parse_lines
  parse_lines-info_lines info ps es h hs =
      rw
        (
          (skip_heading info).0,
          parse_lines-append floats info (map figure_line ps),
          parse_lines-figures floats info ps h,
        )
        (parse_lines-databases (assign_all floats info ps) es hs)
