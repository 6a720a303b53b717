-- ===== src/LineEditor.antt =====
-- internal/ui/lineeditor.go: the input line, its cursor and its history. A text is the list of its
-- runes. What is drawn is left out, and so are the bytes of the terminal: a key is a constructor of
-- `Key`.
pub mod Keys
pub mod Cursor
pub mod Position
pub mod Zipper
pub mod Paste
mod Tests
use vibe_local_go.Base.{
  ℕ, zero, suc, ◌+◌, ◌-◌, ◌^◌, Bool, true, false, not, ◌&&◌, ◌||◌, List, [], ◌∷◌, ◌++◌, Option,
  none, some, length, take, drop, get_elem?, is_empty, leb, ltb, ◌==◌, if◌then◌else◌,
}

abbrev pub newline : ℕ
newline = 10

abbrev pub space : ℕ
space = 32

-- The editor with the variables of ReadLine. Lines of the history are texts, oldest first.
pub record Editor : Type 0 where
  pub history : List (List ℕ)
  pub max_history : ℕ
  pub history_index : ℕ
  pub saved_input : List ℕ
  pub buf : List ℕ
  pub cursor : ℕ

abbrev pub eq_runes : List ℕ → List ℕ → Bool
eq_runes [] [] = true
eq_runes (a ∷ s) (b ∷ t) = a == b && eq_runes s t
eq_runes _ _ = false

-- The last element of a list, for history[len-1].
abbrev pub last {ℓ} : {A : Type ℓ} → List A → Option A
last [] = none
last (x ∷ []) = some x
last (x ∷ y ∷ l) = last (y ∷ l)

abbrev pub is_last : Option (List ℕ) → List ℕ → Bool
is_last none line = false
is_last (some l) line = eq_runes l line

unfoldable pub add_history : List ℕ → Editor → Editor
add_history line e =
    let history' = e.history ++ line ∷ [] in
    if is_empty line || is_last (last e.history) line then e else record e {
      history = (if ltb e.max_history (length history') then drop 1 history' else history');
    }

-- The start and the end of a line within a buffer.
pub record LineInfo : Type 0 where
  pub start : ℕ
  pub end : ℕ

-- The loop of getLines, at index i of the buffer.
unfoldable pub lines_from : ℕ → ℕ → List ℕ → List LineInfo
lines_from start i [] = record { start = start; end = i } ∷ []
lines_from start i (r ∷ rs) =
    let rest = lines_from (i + 1) (i + 1) rs in
    let more = lines_from start (i + 1) rs in
    elim (r == newline) [ true ↦ record { start = start; end = i } ∷ rest | false ↦ more ]

unfoldable pub get_lines : List ℕ → List LineInfo
unfolding lines_from
get_lines buf = lines_from 0 0 buf

-- The loop of cursorLineAndCol from line i on; `fallback` is what follows it.
unfoldable pub find_line : ℕ → ℕ → List LineInfo → ℕ × ℕ → ℕ × ℕ
find_line cursor i [] fallback = fallback
find_line cursor i (li ∷ lines) fallback =
    if leb li.start cursor && leb cursor li.end
    then (i, cursor - li.start)
    else find_line cursor (i + 1) lines fallback

abbrev pub last_start : Option LineInfo → ℕ
last_start none = 0
last_start (some li) = li.start

unfoldable pub cursor_line_and_col : List ℕ → ℕ → ℕ × ℕ
unfolding get_lines find_line
cursor_line_and_col buf cursor =
    let lines = get_lines buf in
    find_line cursor 0 lines (length lines - 1, cursor - last_start (last lines))

unfoldable pub is_multi_line : List ℕ → Bool
is_multi_line [] = false
is_multi_line (r ∷ rs) = r == newline || is_multi_line rs

unfoldable pub line_count : List ℕ → ℕ
line_count [] = 1
line_count (r ∷ rs) = (if r == newline then 1 else 0) + line_count rs

-- lines[i]
abbrev pub line_at : List LineInfo → ℕ → LineInfo
line_at lines i = elim (get_elem? lines i) [ none ↦ record { start = 0; end = 0 } | some li ↦ li ]

-- i - 1 as the 64 bits of an int: below 0 it is no index of a buffer.
abbrev pub before : ℕ → ℕ
before zero = 2 ^ 64 - 1
before (suc i) = i

-- buf = append(buf, 0); copy(buf[cursor+1:], buf[cursor:]); buf[cursor] = r; cursor++
unfoldable pub insert_rune : ℕ → Editor → Editor
insert_rune r e = record e {
  buf = take e.cursor e.buf ++ r ∷ drop e.cursor e.buf;
  cursor = e.cursor + 1;
}

-- copy(buf[from:], buf[to:]); buf = buf[:len(buf)-(to-from)]
abbrev pub cut : ℕ → ℕ → List ℕ → List ℕ
cut from to buf = take from buf ++ drop to buf
