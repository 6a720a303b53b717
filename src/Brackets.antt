-- ===== src/Brackets.antt =====
-- internal/llm/sync.go: balanceBrackets, which repairs the brackets of a cut off JSON text. A text
-- is the list of its runes; the index of `range` counts bytes.
pub mod Step
pub mod Balance
mod Tests
use vibe_local_go.Base.{
  ℕ, ◌+◌, ◌*◌, Bool, true, false, not, ◌&&◌, ◌||◌, List, [], ◌∷◌, ◌++◌, Option, none, some, ltb,
  ◌==◌, if◌then◌else◌,
}

unfoldable pub brackets_match : ℕ → ℕ → Bool
brackets_match opening closing =
    if opening == b'{'
    then closing == b'}'
    else if opening == b'['
    then closing == b']'
    else if opening == b'('
    then closing == b')'
    else false

-- The state of the loop, the stack with its top first.
pub record Scan : Type 0 where
  pub stack : List ℕ
  pub balanced : List ℕ
  pub escape : Bool
  pub in_string : Bool

abbrev pub is_open : ℕ → Bool
is_open c = c == b'{' || c == b'[' || c == b'('

abbrev pub is_close : ℕ → Bool
is_close c = c == b'}' || c == b']' || c == b')'

-- balanced.WriteRune(ch)
abbrev pub write : ℕ → Scan → Scan
write c s = record s { balanced = s.balanced ++ c ∷ [] }

-- A closing bracket: written where it matches the top of the stack, and left out otherwise. The
-- Boolean says whether the end of the loop's body is reached.
unfoldable pub close : ℕ → List ℕ → Scan → Scan × Bool
unfolding brackets_match
close c [] s = (s, false)
close c (top ∷ stack) s =
    if brackets_match top c then (record (write c s) { stack = stack }, true) else (s, false)

-- The body of the loop for one rune.
unfoldable pub scan_rune : ℕ → Scan → Scan × Bool
unfolding close
scan_rune c s =
    if c == b'\\' && not s.escape
    then (record (write c s) { escape = true }, false)
    else if s.escape
    then (record (write c s) { escape = false }, false)
    else if c == b'"'
    then (record (write c s) { in_string = not s.in_string }, false)
    else if s.in_string
    then (write c s, false)
    else if is_open c
    then (record (write c s) { stack = c ∷ s.stack }, true)
    else if is_close c
    then close c s.stack s
    else (write c s, true)

-- The bytes of a rune, and of a text.
abbrev pub rune_length : ℕ → ℕ
rune_length c = if ltb c 0x80 then 1 else if ltb c 0x800 then 2 else if ltb c 0x10000 then 3 else 4

abbrev pub byte_length : List ℕ → ℕ
byte_length [] = 0
byte_length (c ∷ cs) = rune_length c + byte_length cs

-- The loop, with the length of the whole text and the index; `none` is its error.
unfoldable pub scan_from : ℕ → ℕ → List ℕ → Scan → Option Scan
unfolding scan_rune
scan_from total i [] s = some s
scan_from total i (c ∷ cs) s =
    let next = scan_rune c s in
    elim (next.1 && ltb (total * 10) i) [
      | true ↦ none
      | false ↦ scan_from total (i + rune_length c) cs next.0
    ]

-- The brackets that close the stack.
unfoldable pub closers : List ℕ → List ℕ
closers [] = []
closers (c ∷ stack) =
    let rest = closers stack in
    if c == b'{'
    then b'}' ∷ rest
    else if c == b'['
    then b']' ∷ rest
    else if c == b'('
    then b')' ∷ rest
    else rest

abbrev pub start : Scan
start = record { stack = []; balanced = []; escape = false; in_string = false }

unfoldable pub balance_brackets : List ℕ → Option (List ℕ)
unfolding scan_from closers
balance_brackets str = elim (scan_from (byte_length str) 0 str start) [
  | none ↦ none
  | some s ↦ some (s.balanced ++ closers s.stack)
]
