-- ===== src/LineEditor/Tests.antt =====
-- Keys pressed in the line editor (internal/ui/lineeditor.go), and the theorems about them.
use vibe_local_go.Base.{true, false, ◌++◌, ℕ, ◌≡◌, refl, List, [], ◌∷◌, arith, map}
use vibe_local_go.LineEditor.{
  Editor, cursor_line_and_col, get_lines, lines_from, find_line, insert_rune, is_multi_line,
}
use vibe_local_go.LineEditor.Keys.{
  Key, delete_word, break_line, kill, up, down, tab, typed, press, press_all, insert_text,
  delete_previous_word, skip_spaces, word_start, kill_line, move_up, older, newer, handle_tab,
  candidates_for, complete_with, common_of, common_prefix,
}
use vibe_local_go.LineEditor.Cursor.{IsValid, press_all-IsValid}
use vibe_local_go.LineEditor.Paste.{
  process_paste_data, process_paste_data-view, paste_end_marker, before_marker, display_width,
}
use vibe_local_go.LineEditor.Zipper.{
  clean, put_all, view, Edit, key_of, meaning_all, type_in, step_back, erase_before, erase_after,
  to_start, view-press_all,
}

abbrev editor : Editor
editor = record {
  history = (b'l' ∷ b's' ∷ []) ∷ [];
  max_history = 100;
  history_index = 1;
  saved_input = [];
  buf = [];
  cursor = 0;
}

abbrev editor-IsValid : IsValid editor
editor-IsValid = record { in_text = omega arith; in_history = omega arith }

-- sort.Strings where the texts are in order already.
abbrev sorted : List (List ℕ) → List (List ℕ)
sorted l = l

abbrev commands : List (List ℕ)
commands = (b'/' ∷ b'm' ∷ b'a' ∷ []) ∷ (b'/' ∷ b'm' ∷ b'o' ∷ []) ∷ (b'/' ∷ b'q' ∷ []) ∷ []

abbrev keys : List Key
keys = typed (b'a' ∷ b' ' ∷ b'b' ∷ []) ∷ break_line ∷ typed (b'c' ∷ []) ∷ up ∷ kill ∷ []

run_keys : (press_all sorted commands keys editor).buf ≡ b'a' ∷ 10 ∷ b'c' ∷ []
unfolding press_all press insert_text insert_rune kill_line move_up cursor_line_and_col get_lines
    lines_from find_line is_multi_line
run_keys = refl

-- After a new line the whole line before it is deleted, and the line break with it.
run_word :
    (press sorted [] delete_word (record editor { buf = b'a' ∷ b'b' ∷ 10 ∷ []; cursor = 3 })).buf
    ≡ []
unfolding press delete_previous_word skip_spaces word_start
run_word = refl

run_tab :
    (press_all sorted commands (typed (b'/' ∷ []) ∷ typed (b'm' ∷ []) ∷ tab ∷ tab ∷ []) editor).buf
    ≡ b'/' ∷ b'm' ∷ []
unfolding press_all press insert_text insert_rune handle_tab candidates_for complete_with common_of
    common_prefix
run_tab = refl

run_history : press_all sorted [] (up ∷ down ∷ []) editor ≡ editor
unfolding press_all press is_multi_line older newer
run_history = refl

abbrev edits : List Edit
edits =
    type_in (b'a' ∷ 13 ∷ 10 ∷ 7 ∷ b'b' ∷ [])
    ∷ step_back
    ∷ erase_before
    ∷ to_start
    ∷ erase_after
    ∷ []

press_all-IsValid_example : IsValid (press_all sorted commands keys editor)
press_all-IsValid_example = press_all-IsValid sorted commands keys editor editor-IsValid

abbrev two_lines : List ℕ
two_lines = b'a' ∷ 10 ∷ b'b' ∷ []

view-press_all_example :
    view (press_all sorted commands (map key_of edits) editor) ≡ meaning_all edits (view editor)
view-press_all_example = view-press_all sorted commands edits editor editor-IsValid

abbrev ascii_decode : List ℕ → List ℕ
ascii_decode bytes = bytes

abbrev pasted : List ℕ
pasted = b'x' ∷ 13 ∷ 10 ∷ b'y' ∷ []

-- A marker that is cut by the end of a read does not end the paste, and its printable bytes are
-- inserted.
cut_marker :
    process_paste_data ascii_decode (b'x' ∷ 27 ∷ b'[' ∷ []) editor
    ≡ (true, record editor { buf = b'x' ∷ b'[' ∷ []; cursor = 2 })
unfolding process_paste_data before_marker insert_text insert_rune
cut_marker = refl

wide_text : display_width (b'a' ∷ 0x3042 ∷ []) ≡ 3
unfolding display_width
wide_text = refl

process_paste_data-view_example :
    let done = process_paste_data ascii_decode (pasted ++ paste_end_marker ++ b'z' ∷ []) editor in
    (done.0 ≡ false) × (view done.1 ≡ put_all (clean false (ascii_decode pasted)) (view editor))
process_paste_data-view_example =
    process_paste_data-view ascii_decode pasted (b'z' ∷ []) editor editor-IsValid refl
