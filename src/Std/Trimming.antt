-- ===== src/Std/Trimming.antt =====
-- Trimming a text that holds no white space, and lines that a line feed ends.
use mathlib.Core.List.{append_assoc, append-nil}
use dr_metrix.Prelude.{◌≡◌, refl, ap, ◌∙◌, false, [], ◌∷◌, ◌++◌, arith, All}
use dr_metrix.Std.Text.{Str, trim, trim_start, trim_end, is_whitespace}
use dr_metrix.Std.Lines.{lines, lines_from, strip_cr}
use dr_metrix.Std.Slices.{Lacks}

abbrev pub NoSpace : Str → Type 0
NoSpace = All (λ c. is_whitespace c ≡ false)

trim_start_of_NoSpace : (s : Str) → NoSpace s → trim_start s ≡ s
unfolding trim_start
trim_start_of_NoSpace [] h = refl
trim_start_of_NoSpace (c ∷ s) (e, h) = rw e

trim_end_of_NoSpace : (s : Str) → NoSpace s → trim_end s ≡ s
unfolding trim_end
trim_end_of_NoSpace [] h = refl
trim_end_of_NoSpace (c ∷ []) (e, h) = rw e
trim_end_of_NoSpace (c ∷ d ∷ s) (e, h) = rw (trim_end_of_NoSpace (d ∷ s) h)

-- `trim` leaves a text without white space as it is.
pub trim_of_NoSpace : (s : Str) → NoSpace s → trim s ≡ s
trim_of_NoSpace s h = unfold trim in (rw (trim_start_of_NoSpace s h) (trim_end_of_NoSpace s h))

strip_cr_end : (s : Str) → strip_cr (s ++ b'\r' ∷ []) ≡ s
unfolding strip_cr
strip_cr_end [] = refl
strip_cr_end (c ∷ []) = refl
strip_cr_end (c ∷ d ∷ s) = ap (λ (t : Str). c ∷ t) (strip_cr_end (d ∷ s))

lines_from-append :
    (cur l s : Str) → Lacks b'\n' l → lines_from cur (l ++ s) ≡ lines_from (cur ++ l) s
unfolding lines_from
lines_from-append cur [] s h = rw append-nil
lines_from-append cur (c ∷ l) s (ne, h) =
    ground (arith, lines_from-append (cur ++ c ∷ []) l s h, append_assoc cur (c ∷ []) l)

-- A line that CR LF ends comes back without them, before the lines of the rest.
pub lines-crlf : (l s : Str) → Lacks b'\n' l → lines (l ++ b'\r' ∷ b'\n' ∷ s) ≡ l ∷ lines s
lines-crlf l s h =
    unfold lines in
    (lines_from-append [] l (b'\r' ∷ b'\n' ∷ s) h
      ∙ ap (λ (t : Str). t ∷ lines_from [] s) (strip_cr_end l))

-- A line that LF ends.
pub lines-lf : (l s : Str) → Lacks b'\n' l → lines (l ++ b'\n' ∷ s) ≡ strip_cr l ∷ lines s
lines-lf l s h = unfold lines in (lines_from-append [] l (b'\n' ∷ s) h)

lines_from-concat :
    (cur a b : Str)
    → lines_from cur (a ++ b'\n' ∷ b) ≡ lines_from cur (a ++ b'\n' ∷ []) ++ lines_from [] b
unfolding lines_from
lines_from-concat cur [] b = refl
lines_from-concat cur (c ∷ a) b =
    ground (arith, lines_from-concat [] a b, lines_from-concat (cur ++ c ∷ []) a b)

-- The lines of two texts, the first of which ends in a line feed, are those of each in turn.
pub lines-concat : (a b : Str) → lines (a ++ b'\n' ∷ b) ≡ lines (a ++ b'\n' ∷ []) ++ lines b
unfolding lines
lines-concat = lines_from-concat []
