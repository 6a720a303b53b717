-- ===== src/Base/Texts.antt =====
-- Go's strings. A text is a native `String`: `len` counts its bytes and `codes` lists its runes.
-- Only valid UTF-8 is represented.
use Prim.Native.Nat.{ℕ, zero, suc, ◌+◌, ◌-◌, ◌/◌, ◌%◌}
use Prim.Native.Char.{code}
use Prim.Native.String.{String, ◌++◌ as text_append}
use mathlib.Core.Bool.{Bool, true, false, ◌&&◌, ◌||◌}
use mathlib.Core.List.{List, [], ◌∷◌}
use text.Mathlib.Text.{◌==◌ as text_eq}
use vibe_local_go.Base.Tests.{leb, ltb, ◌==◌, if◌then◌else◌}

-- s == t
abbrev pub str_eq : String → String → Bool
str_eq = text_eq

-- The runes of a text.
abbrev pub codes : String → List ℕ
codes String.[] = []
codes (String.◌∷◌ c s) = code c ∷ codes s

abbrev pub is_prefix : List ℕ → List ℕ → Bool
is_prefix [] s = true
is_prefix (p ∷ ps) [] = false
is_prefix (p ∷ ps) (c ∷ s) = p == c && is_prefix ps s

abbrev pub is_infix : List ℕ → List ℕ → Bool
is_infix p [] = is_prefix p []
is_infix p (c ∷ s) = is_prefix p (c ∷ s) || is_infix p s

-- strings.HasPrefix(s, p) and strings.Contains(s, p), read by runes: on valid UTF-8 they are the
-- same as by bytes.
unfoldable pub has_prefix : String → String → Bool
has_prefix s p = is_prefix (codes p) (codes s)

unfoldable pub contains : String → String → Bool
contains s p = is_infix (codes p) (codes s)

-- unicode.ToLower and unicode.ToUpper. Outside of ASCII they are Go's case tables, an argument.
abbrev pub lower_rune : (ℕ → ℕ) → ℕ → ℕ
lower_rune table c = if ltb c 128 then (if leb b'A' c && leb c b'Z' then c + 32 else c) else table c

abbrev pub upper_rune : (ℕ → ℕ) → ℕ → ℕ
upper_rune table c = if ltb c 128 then (if leb b'a' c && leb c b'z' then c - 32 else c) else table c

-- The parts of a strings.Builder or of a Sprintf, joined.
abbrev pub concat : List String → String
concat [] = ""
concat (s ∷ ss) = text_append s (concat ss)

-- strings.Join(ss, sep)
abbrev pub join : String → List String → String
join sep [] = ""
join sep (s ∷ []) = s
join sep (s ∷ t ∷ ss) = text_append s (text_append sep (join sep (t ∷ ss)))

digit : ℕ → String
digit d =
    if d == 0
    then "0"
    else if d == 1
    then "1"
    else if d == 2
    then "2"
    else if d == 3
    then "3"
    else if d == 4
    then "4"
    else if d == 5
    then "5"
    else if d == 6
    then "6"
    else if d == 7
    then "7"
    else if d == 8
    then "8"
    else "9"

digits_of : ℕ → ℕ → String
unfolding digit
digits_of zero n = digit n
digits_of (suc fuel) n =
    let more = text_append (digits_of fuel (n / 10)) (digit (n % 10)) in
    if ltb n 10 then digit n else more

-- A number as %d prints it.
unfoldable pub decimal : ℕ → String
unfolding digits_of
decimal n = digits_of n n
