-- ===== src/LineEditor/Keys.antt =====
-- The keys of ReadLine (internal/ui/lineeditor.go), the completion of commands and the paste mode.
use vibe_local_go.Base.{
  ℕ, zero, suc, ◌+◌, ◌-◌, Bool, false, not, ◌&&◌, List, [], ◌∷◌, ◌++◌, none, some, length, take,
  drop, get_elem?, is_empty, ltb, ◌==◌, if◌then◌else◌, is_prefix,
}
use vibe_local_go.LineEditor.{
  Editor, LineInfo, newline, space, get_lines, line_at, cursor_line_and_col, is_multi_line,
  insert_rune, cut, before,
}

-- buf[i] == r
abbrev pub has_rune : List ℕ → ℕ → ℕ → Bool
has_rune buf i r = elim (get_elem? buf i) [ none ↦ false | some c ↦ c == r ]

-- The keys: Ctrl+J and Alt+Enter, Delete, Backspace, Ctrl+A, Ctrl+E, Ctrl+U, Ctrl+W, Ctrl+K, the
-- arrows, Home, End, Tab, and what was typed otherwise.
pub data Key : Type 0 where
  break_line delete backspace line_start line_end clear_all delete_word kill : Key
  up down right left home to_end tab : Key
  typed : List ℕ → Key

unfoldable pub delete_at_cursor : Editor → Editor
delete_at_cursor e =
    if ltb e.cursor (length e.buf) then record e { buf = cut e.cursor (e.cursor + 1) e.buf } else e

unfoldable pub press_backspace : Editor → Editor
press_backspace e =
    if ltb 0 e.cursor
    then record e { buf = cut (before e.cursor) e.cursor e.buf; cursor = before e.cursor }
    else e

-- The line of the cursor.
abbrev pub current_line : Editor → LineInfo
current_line e = line_at (get_lines e.buf) (cursor_line_and_col e.buf e.cursor).0

-- The two loops of Ctrl+W, at newCursor.
unfoldable pub skip_spaces : List ℕ → ℕ → ℕ
skip_spaces buf zero = zero
skip_spaces buf (suc n) = if has_rune buf (suc n) space then skip_spaces buf n else suc n

unfoldable pub word_start : List ℕ → ℕ → ℕ
word_start buf zero = zero
word_start buf (suc n) =
    if not (has_rune buf n space) && not (has_rune buf n newline) then word_start buf n else suc n

unfoldable pub delete_previous_word : Editor → Editor
unfolding skip_spaces word_start
delete_previous_word e =
    let n = word_start e.buf (skip_spaces e.buf (before e.cursor)) in
    if ltb 0 e.cursor then record e { buf = cut n e.cursor e.buf; cursor = n } else e

unfoldable pub kill_line : Editor → Editor
kill_line e =
    let end = (current_line e).end in
    if ltb e.cursor end then record e { buf = cut e.cursor end e.buf } else e

-- The position in a line of column `col`, or its end.
abbrev pub column_in : LineInfo → ℕ → ℕ
column_in li col = li.start + (if ltb (li.end - li.start) col then li.end - li.start else col)

-- history[i]
abbrev pub history_at : Editor → ℕ → List ℕ
history_at e i = elim (get_elem? e.history i) [ none ↦ [] | some line ↦ line ]

unfoldable pub move_up : Editor → Editor
move_up e =
    let at = cursor_line_and_col e.buf e.cursor in
    if ltb 0 at.0
    then record e { cursor = column_in (line_at (get_lines e.buf) (before at.0)) at.1 }
    else e

unfoldable pub move_down : Editor → Editor
move_down e =
    let at = cursor_line_and_col e.buf e.cursor in
    if ltb (at.0 + 1) (length (get_lines e.buf))
    then record e { cursor = column_in (line_at (get_lines e.buf) (at.0 + 1)) at.1 }
    else e

-- An older line of the history; the new input is kept.
unfoldable pub older : Editor → Editor
older e =
    let saved = (if e.history_index == length e.history then e.buf else e.saved_input) in
    let line = history_at e (before e.history_index) in
    if is_empty e.history
    then e
    else if ltb 0 e.history_index
    then record e {
      saved_input = saved;
      history_index = before e.history_index;
      buf = line;
      cursor = length line;
    }
    else record e { saved_input = saved }

unfoldable pub newer : Editor → Editor
newer e =
    let next = e.history_index + 1 in
    let line = (if next == length e.history then e.saved_input else history_at e next) in
    if ltb e.history_index (length e.history)
    then record e { history_index = next; buf = line; cursor = length line }
    else e

-- The runes of an input, from the one behind a carriage return or not: line breaks of all kinds
-- become a newline, and other control characters are left out.
unfoldable pub insert_text : Bool → List ℕ → Editor → Editor
insert_text was_cr [] e = e
insert_text was_cr (r ∷ rs) e = insert_text (r == 13) rs (
    if r == newline
    then (if was_cr then e else insert_rune newline e)
    else if r == 13
    then insert_rune newline e
    else if ltb r 32
    then e
    else insert_rune r e)

-- commonPrefix
unfoldable pub common_prefix : List ℕ → List ℕ → List ℕ
common_prefix [] b = []
common_prefix (x ∷ a) [] = []
common_prefix (x ∷ a) (y ∷ b) = if x == y then x ∷ common_prefix a b else []

unfoldable pub common_of : List ℕ → List (List ℕ) → List ℕ
unfolding common_prefix
common_of common [] = common
common_of common (c ∷ cs) = common_of (common_prefix common c) cs

unfoldable pub candidates_for : List ℕ → List (List ℕ) → List (List ℕ)
candidates_for prefix [] = []
candidates_for prefix (cmd ∷ cmds) =
    let rest = candidates_for prefix cmds in if is_prefix prefix cmd then cmd ∷ rest else rest

-- The input up to the cursor is replaced.
abbrev pub complete : List ℕ → Editor → Editor
complete text e = record e { buf = text ++ drop e.cursor e.buf; cursor = length text }

unfoldable pub complete_with : List (List ℕ) → Editor → Editor
unfolding common_of
complete_with [] e = e
complete_with (c ∷ []) e = complete (c ++ space ∷ []) e
complete_with (c ∷ d ∷ cs) e =
    let common = common_of c (d ∷ cs) in
    if ltb (length (take e.cursor e.buf)) (length common) then complete common e else e

-- `sort` is sort.Strings.
module _ (sort : List (List ℕ) → List (List ℕ)) (completions : List (List ℕ)) where
  unfoldable pub handle_tab : Editor → Editor
  unfolding candidates_for complete_with
  handle_tab e =
      let input = take e.cursor e.buf in
      if has_rune input 0 b'/' then complete_with (sort (candidates_for input completions)) e else e

  unfoldable pub press : Key → Editor → Editor
  unfolding delete_at_cursor press_backspace delete_previous_word kill_line move_up move_down older
      newer insert_text handle_tab
  press break_line e = insert_rune newline e
  press delete e = delete_at_cursor e
  press backspace e = press_backspace e
  press line_start e = record e { cursor = (current_line e).start }
  press line_end e = record e { cursor = (current_line e).end }
  press clear_all e = record e { buf = []; cursor = 0 }
  press delete_word e = delete_previous_word e
  press kill e = kill_line e
  press up e = if is_multi_line e.buf then move_up e else older e
  press down e = if is_multi_line e.buf then move_down e else newer e
  press right e = if ltb e.cursor (length e.buf) then record e { cursor = e.cursor + 1 } else e
  press left e = if ltb 0 e.cursor then record e { cursor = before e.cursor } else e
  press home e = record e { cursor = 0 }
  press to_end e = record e { cursor = length e.buf }
  press tab e = handle_tab e
  press (typed runes) e = insert_text false runes e

  unfoldable pub press_all : List Key → Editor → Editor
  press_all [] e = e
  press_all (k ∷ ks) e = press_all ks (press k e)
