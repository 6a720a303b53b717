-- ===== src/LineEditor/Cursor.antt =====
-- Where the cursor of internal/ui/lineeditor.go can be.
use vibe_local_go.Base.{
  ℕ, zero, suc, ◌+◌, ◌-◌, ◌≤◌, ◌≡◌, refl, Bool, false, List, [], ◌∷◌, ◌++◌, length, take, drop,
  ◌==◌, arith, length-append, length-drop,
}
use vibe_local_go.LineEditor.{
  Editor, newline, space, get_lines, lines_from, line_at, cursor_line_and_col, insert_rune, cut,
}
use vibe_local_go.LineEditor.Keys.{
  Key, break_line, delete, backspace, line_start, line_end, clear_all, delete_word, kill, up, down,
  right, left, home, to_end, tab, typed, skip_spaces, word_start, current_line, delete_at_cursor,
  press_backspace, delete_previous_word, kill_line, move_up, move_down, older, newer, insert_text,
  complete_with, complete, common_of, candidates_for, handle_tab, press, press_all,
}

-- The cursor stands in the text or at its end, and the index in the history or at its end.
pub record IsValid (e : Editor) : Type 0 where
  pub in_text : e.cursor ≤ length e.buf
  pub in_history : e.history_index ≤ length e.history

pub length-take {ℓ} : {A : Type ℓ} (n : ℕ) (xs : List A) → n ≤ length xs → length (take n xs) ≡ n
length-take zero xs h = refl
length-take (suc n) [] h = absurd (omega arith)
length-take (suc n) (x ∷ xs) h = omega (arith, length-take n xs)

length-cut :
    (from to : ℕ) (xs : List ℕ)
    → from ≤ to
    → to ≤ length xs
    → length (cut from to xs) ≡ length xs - (to - from)
length-cut from to xs h k =
    omega (arith, length-append (take from xs) (drop to xs), length-take from xs, length-drop to xs)

-- Every line lies within the buffer, also the one that stands for an index out of range.
lines_from-bounds :
    (start i n : ℕ) (rs : List ℕ)
    → start ≤ i
    → let li = line_at (lines_from start i rs) n in (li.start ≤ li.end) × (li.end ≤ i + length rs)
unfolding lines_from
lines_from-bounds start i zero [] h = omega arith
lines_from-bounds start i (suc n) [] h = omega arith
lines_from-bounds start i zero (r ∷ rs) h = ground (arith, lines_from-bounds start (i + 1) zero rs)
lines_from-bounds start i (suc n) (r ∷ rs) h =
    ground
      (arith, lines_from-bounds (i + 1) (i + 1) n rs, lines_from-bounds start (i + 1) (suc n) rs)

pub get_lines-bounds :
    (n : ℕ) (buf : List ℕ)
    → let li = line_at (get_lines buf) n in (li.start ≤ li.end) × (li.end ≤ length buf)
unfolding get_lines
get_lines-bounds n buf = omega (arith, lines_from-bounds 0 0 n buf (omega arith))

skip_spaces-le : (buf : List ℕ) (n : ℕ) → skip_spaces buf n ≤ n
unfolding skip_spaces
skip_spaces-le buf zero = omega arith
skip_spaces-le buf (suc n) = ground (arith, skip_spaces-le buf n)

word_start-le : (buf : List ℕ) (n : ℕ) → word_start buf n ≤ n
unfolding word_start
word_start-le buf zero = omega arith
word_start-le buf (suc n) = ground (arith, word_start-le buf n)

pub insert_rune-IsValid : (r : ℕ) (e : Editor) → IsValid e → IsValid (insert_rune r e)
unfolding insert_rune
insert_rune-IsValid r e v = ground (
  arith,
  length-append (take e.cursor e.buf) (r ∷ drop e.cursor e.buf),
  length-take e.cursor e.buf,
  length-drop e.cursor e.buf,
)

insert_text-IsValid :
    (was_cr : Bool) (rs : List ℕ) (e : Editor) → IsValid e → IsValid (insert_text was_cr rs e)
unfolding insert_text
insert_text-IsValid was_cr [] e v = v
insert_text-IsValid was_cr (r ∷ rs) e v =
    let broken = insert_rune-IsValid newline e v in
    let plain = insert_rune-IsValid r e v in
    insert_text-IsValid (r == 13) rs _ (ground (arith, broken, plain))

cut-IsValid :
    (e : Editor) (from to : ℕ)
    → IsValid e
    → from ≤ to
    → to ≤ length e.buf
    → IsValid (record e { buf = cut from to e.buf; cursor = from })
cut-IsValid e from to v h k = ground (arith, length-cut from to e.buf)

delete-IsValid : (e : Editor) → IsValid e → IsValid (delete_at_cursor e)
unfolding delete_at_cursor
delete-IsValid e v = ground (arith, length-cut e.cursor (e.cursor + 1) e.buf)

backspace-IsValid : (e : Editor) → IsValid e → IsValid (press_backspace e)
unfolding press_backspace
backspace-IsValid e v = ground (arith, length-cut (e.cursor - 1) e.cursor e.buf)

word-IsValid : (e : Editor) → IsValid e → IsValid (delete_previous_word e)
unfolding delete_previous_word
word-IsValid e v =
    let spaces = skip_spaces e.buf (e.cursor - 1) in
    ground (
      arith,
      length-cut (word_start e.buf spaces) e.cursor e.buf,
      word_start-le e.buf spaces,
      skip_spaces-le e.buf (e.cursor - 1),
    )

kill-IsValid : (e : Editor) → IsValid e → IsValid (kill_line e)
unfolding kill_line
kill-IsValid e v = ground (
  arith,
  length-cut e.cursor (current_line e).end e.buf,
  get_lines-bounds (cursor_line_and_col e.buf e.cursor).0 e.buf,
)

move_up-IsValid : (e : Editor) → IsValid e → IsValid (move_up e)
unfolding move_up
move_up-IsValid e v =
    ground (arith, get_lines-bounds ((cursor_line_and_col e.buf e.cursor).0 - 1) e.buf)

move_down-IsValid : (e : Editor) → IsValid e → IsValid (move_down e)
unfolding move_down
move_down-IsValid e v =
    ground (arith, get_lines-bounds ((cursor_line_and_col e.buf e.cursor).0 + 1) e.buf)

older-IsValid : (e : Editor) → IsValid e → IsValid (older e)
unfolding older
older-IsValid e v = ground arith

newer-IsValid : (e : Editor) → IsValid e → IsValid (newer e)
unfolding newer
newer-IsValid e v = ground arith

complete-IsValid : (text : List ℕ) (e : Editor) → IsValid e → IsValid (complete text e)
complete-IsValid text e v = ground (arith, length-append text (drop e.cursor e.buf))

complete_with-IsValid :
    (candidates : List (List ℕ)) (e : Editor) → IsValid e → IsValid (complete_with candidates e)
unfolding complete_with
complete_with-IsValid [] e v = v
complete_with-IsValid (c ∷ []) e v = complete-IsValid (c ++ space ∷ []) e v
complete_with-IsValid (c ∷ d ∷ cs) e v = ground (arith, complete-IsValid (common_of c (d ∷ cs)) e v)

module _ (sort : List (List ℕ) → List (List ℕ)) (completions : List (List ℕ)) where
  tab-IsValid : (e : Editor) → IsValid e → IsValid (handle_tab sort completions e)
  unfolding handle_tab
  tab-IsValid e v =
      ground
        (arith, complete_with-IsValid (sort (candidates_for (take e.cursor e.buf) completions)) e v)

  pub press-IsValid : (k : Key) (e : Editor) → IsValid e → IsValid (press sort completions k e)
  unfolding press
  press-IsValid break_line e v = insert_rune-IsValid newline e v
  press-IsValid delete e v = delete-IsValid e v
  press-IsValid backspace e v = backspace-IsValid e v
  press-IsValid line_start e v =
      ground (arith, get_lines-bounds (cursor_line_and_col e.buf e.cursor).0 e.buf)
  press-IsValid line_end e v =
      ground (arith, get_lines-bounds (cursor_line_and_col e.buf e.cursor).0 e.buf)
  press-IsValid clear_all e v = ground arith
  press-IsValid delete_word e v = word-IsValid e v
  press-IsValid kill e v = kill-IsValid e v
  press-IsValid up e v = ground (arith, move_up-IsValid e v, older-IsValid e v)
  press-IsValid down e v = ground (arith, move_down-IsValid e v, newer-IsValid e v)
  press-IsValid right e v = ground arith
  press-IsValid left e v = ground arith
  press-IsValid home e v = ground arith
  press-IsValid to_end e v = ground arith
  press-IsValid tab e v = tab-IsValid e v
  press-IsValid (typed runes) e v = insert_text-IsValid false runes e v

  -- After any keys the cursor stands in the text or at its end, and the index of the history in the
  -- history or at its end.
  pub press_all-IsValid :
      (keys : List Key) (e : Editor) → IsValid e → IsValid (press_all sort completions keys e)
  unfolding press_all
  press_all-IsValid [] e v = v
  press_all-IsValid (k ∷ ks) e v = press_all-IsValid ks _ (press-IsValid k e v)
