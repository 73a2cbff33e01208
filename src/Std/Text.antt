-- ===== src/Std/Text.antt =====
-- `str` as its list of code points. Offsets are byte offsets of the UTF-8 text, as in Rust.
use Prim.Native.String.{String}
use dr_metrix.Prelude.{
  ℕ, zero, suc, ◌+◌, ◌-◌, code, Bool, true, false, ◌&&◌, ◌||◌, Option, none, some, List, [], ◌∷◌,
  leb, ltb, ◌==ℕ◌, if◌then◌else◌, ◌==◌, nat_eq, list_eq, list_beq,
}
use mathlib.Core.Option

abbrev pub Str : Type 0
Str = List ℕ

-- The code points of a literal.
abbrev pub codes : String → Str
codes String.[] = []
codes (String.◌∷◌ c s) = code c ∷ codes s

unfoldable pub str_eq : Str → Str → Bool
unfolding list_beq
str_eq s t = s == t

abbrev pub is_empty : Str → Bool
is_empty [] = true
is_empty (_ ∷ _) = false

-- `s.strip_prefix(p)`
unfoldable pub strip_prefix : Str → Str → Option Str
strip_prefix s [] = some s
strip_prefix [] (_ ∷ _) = none
strip_prefix (c ∷ s) (d ∷ p) = if c ==ℕ d then strip_prefix s p else none

-- `s.starts_with(c)`
abbrev pub starts_with : Str → ℕ → Bool
starts_with [] c = false
starts_with (d ∷ s) c = d ==ℕ c

-- `char::is_whitespace`: the code points with the Unicode property White_Space.
unfoldable pub is_whitespace : ℕ → Bool
is_whitespace c =
    (leb 9 c && leb c 13)
    || c ==ℕ 32
    || c ==ℕ 0x85
    || c ==ℕ 0xa0
    || c ==ℕ 0x1680
    || (leb 0x2000 c && leb c 0x200a)
    || c ==ℕ 0x2028
    || c ==ℕ 0x2029
    || c ==ℕ 0x202f
    || c ==ℕ 0x205f
    || c ==ℕ 0x3000

unfoldable pub trim_start : Str → Str
trim_start [] = []
trim_start (c ∷ s) = if is_whitespace c then trim_start s else c ∷ s

abbrev pub trim_cons : ℕ → Str → Str
trim_cons c [] = if is_whitespace c then [] else c ∷ []
trim_cons c (d ∷ s) = c ∷ d ∷ s

unfoldable pub trim_end : Str → Str
trim_end [] = []
trim_end (c ∷ s) = trim_cons c (trim_end s)

unfoldable pub trim : Str → Str
unfolding trim_start trim_end is_whitespace
trim s = trim_end (trim_start s)

-- `char::len_utf8`
unfoldable pub len_utf8 : ℕ → ℕ
len_utf8 c = if ltb c 0x80 then 1 else if ltb c 0x800 then 2 else if ltb c 0x10000 then 3 else 4

-- `s.find(c)`: the byte offset of the first `c`.
unfoldable pub find : Str → ℕ → Option ℕ
find [] p = none
find (c ∷ s) p = if c ==ℕ p then some 0 else Option.map (λ i. len_utf8 c + i) (find s p)

-- A text cut at a byte offset; `none` is the panic past the end or inside a character.
unfoldable pub cut_at : Str → ℕ → Option (Str × Str)
cut_at s zero = some ([], s)
cut_at [] (suc i) = none
cut_at (c ∷ s) (suc i) =
    if leb (len_utf8 c) (suc i)
    then Option.map (λ (a, b). (c ∷ a, b)) (cut_at s (suc i - len_utf8 c))
    else none

-- `&s[..i]` and `&s[i..]`
unfoldable pub slice_to : Str → ℕ → Option Str
unfolding cut_at
slice_to s i = Option.map (λ p. p.0) (cut_at s i)

unfoldable pub slice_from : Str → ℕ → Option Str
unfolding cut_at
slice_from s i = Option.map (λ p. p.1) (cut_at s i)

-- `s.split_once(c)`
unfoldable pub split_once : Str → ℕ → Option (Str × Str)
split_once [] p = none
split_once (c ∷ s) p =
    if c ==ℕ p then some ([], s) else Option.map (λ (a, b). (c ∷ a, b)) (split_once s p)

abbrev pub push_head : ℕ → List Str → List Str
push_head c [] = (c ∷ []) ∷ []
push_head c (f ∷ fs) = (c ∷ f) ∷ fs

-- `s.split(c)`, at least one part
unfoldable pub split : Str → ℕ → List Str
split [] p = [] ∷ []
split (c ∷ s) p = let rest = split s p in if c ==ℕ p then [] ∷ rest else push_head c rest
