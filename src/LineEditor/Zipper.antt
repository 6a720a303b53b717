-- ===== src/LineEditor/Zipper.antt =====
-- The keys of internal/ui/lineeditor.go that edit or move by runes, against a text that is two
-- lists: the runes before the cursor, nearest first, and those after it.
use mathlib.Core.List.{reverse, reverse-append, reverse-reverse}
use vibe_local_go.Base.{
  ℕ, zero, suc, ◌≤◌, ◌<◌, ◌≡◌, refl, sym, ap, ◌∙◌, inl, inr, Bool, true, false, List, [], ◌∷◌, ◌++◌,
  append-nil, append_assoc, map, length, take, drop, ltb, ◌==◌, arith, Bool-cases, ltb→lt,
  length-append, if◌then◌else◌,
}
use vibe_local_go.LineEditor.{Editor, newline, insert_rune, cut}
use vibe_local_go.LineEditor.Keys.{
  Key, break_line, delete, backspace, clear_all, right, left, home, to_end, typed, delete_at_cursor,
  press_backspace, insert_text, press, press_all,
}
use vibe_local_go.LineEditor.Cursor.{IsValid, length-take, press-IsValid, insert_rune-IsValid}

pub record Zipper : Type 0 where
  pub before : List ℕ
  pub after : List ℕ

abbrev pub view : Editor → Zipper
view e = record { before = reverse (take e.cursor e.buf); after = drop e.cursor e.buf }

-- The edits, and the keys that make them.
pub data Edit : Type 0 where
  break_here erase_before erase_after clear step_back step_on to_start to_finish : Edit
  type_in : List ℕ → Edit

abbrev pub key_of : Edit → Key
key_of break_here = break_line
key_of erase_before = backspace
key_of erase_after = delete
key_of clear = clear_all
key_of step_back = left
key_of step_on = right
key_of to_start = home
key_of to_finish = to_end
key_of (type_in runes) = typed runes

abbrev pub put : ℕ → Zipper → Zipper
put r z = record { before = r ∷ z.before; after = z.after }

abbrev pub put_all : List ℕ → Zipper → Zipper
put_all [] z = z
put_all (r ∷ rs) z = put_all rs (put r z)

-- A text as it is inserted: CR LF, CR and LF are newlines, other control characters are left out.
abbrev pub clean : Bool → List ℕ → List ℕ
clean was_cr [] = []
clean was_cr (r ∷ rs) =
    if r == 13
    then newline ∷ clean true rs
    else if r == newline
    then (if was_cr then clean false rs else newline ∷ clean false rs)
    else if ltb r 32
    then clean false rs
    else r ∷ clean false rs

abbrev pub behead : List ℕ → List ℕ
behead [] = []
behead (x ∷ xs) = xs

abbrev pub back : List ℕ → List ℕ → Zipper
back [] after = record { before = []; after = after }
back (x ∷ before) after = record { before = before; after = x ∷ after }

abbrev pub on : List ℕ → List ℕ → Zipper
on before [] = record { before = before; after = [] }
on before (x ∷ after) = record { before = x ∷ before; after = after }

abbrev pub meaning : Edit → Zipper → Zipper
meaning break_here z = put newline z
meaning erase_before z = record z { before = behead z.before }
meaning erase_after z = record z { after = behead z.after }
meaning clear z = record { before = []; after = [] }
meaning step_back z = back z.before z.after
meaning step_on z = on z.before z.after
meaning to_start z = record { before = []; after = reverse z.before ++ z.after }
meaning to_finish z = record { before = reverse z.after ++ z.before; after = [] }
meaning (type_in runes) z = put_all (clean false runes) z

abbrev pub meaning_all : List Edit → Zipper → Zipper
meaning_all [] z = z
meaning_all (d ∷ ds) z = meaning_all ds (meaning d z)

take-drop : (n : ℕ) (xs : List ℕ) → xs ≡ take n xs ++ drop n xs
take-drop zero xs = refl
take-drop (suc n) [] = refl
take-drop (suc n) (x ∷ xs) = ap (λ l. x ∷ l) (take-drop n xs)

take-length : (xs ys : List ℕ) → take (length xs) (xs ++ ys) ≡ xs
take-length [] ys = refl
take-length (x ∷ xs) ys = ap (λ l. x ∷ l) (take-length xs ys)

drop-length : (xs ys : List ℕ) → drop (length xs) (xs ++ ys) ≡ ys
drop-length [] ys = refl
drop-length (x ∷ xs) ys = drop-length xs ys

-- The view of an editor whose text is known in two parts.
view-append :
    (e : Editor) (xs ys : List ℕ)
    → e.buf ≡ xs ++ ys
    → e.cursor ≡ length xs
    → view e ≡ record { before = reverse xs; after = ys }
view-append e xs ys b c =
    let before : take e.cursor e.buf ≡ xs =
      ap (λ n. take n e.buf) c ∙ ap (take (length xs)) b ∙ take-length xs ys in
    let after : drop e.cursor e.buf ≡ ys =
      ap (λ n. drop n e.buf) c ∙ ap (drop (length xs)) b ∙ drop-length xs ys in
    λ i. record { before = reverse (before i); after = after i }

view-insert : (r : ℕ) (e : Editor) → IsValid e → view (insert_rune r e) ≡ put r (view e)
unfolding insert_rune
view-insert r e v =
    let xs = take e.cursor e.buf in
    let ys = drop e.cursor e.buf in
    view-append (insert_rune r e) (xs ++ r ∷ []) ys (sym (append_assoc xs (r ∷ []) ys))
      (omega (arith, length-append xs (r ∷ []), length-take e.cursor e.buf v.in_text))
    ∙ ap (λ l. record { before = l; after = ys }) (reverse-append xs (r ∷ []))

drop-all : (n : ℕ) (xs : List ℕ) → length xs ≤ n → drop n xs ≡ []
drop-all zero [] h = refl
drop-all zero (x ∷ xs) h = absurd (omega arith)
drop-all (suc n) [] h = refl
drop-all (suc n) (x ∷ xs) h = drop-all n xs (omega arith)

-- The rune behind n others.
split-at :
    (n : ℕ) (xs : List ℕ)
    → n < length xs
    → (x : ℕ) × (take (suc n) xs ≡ take n xs ++ x ∷ []) × (drop n xs ≡ x ∷ drop (suc n) xs)
split-at n [] h = absurd (omega arith)
split-at zero (x ∷ xs) h = (x, refl, refl)
split-at (suc n) (x ∷ xs) h =
    let (y, t, d) = split-at n xs (omega arith) in (y, ap (λ l. x ∷ l) t, d)

-- The runes before the cursor, when it is not at the start.
reverse-take :
    (n x : ℕ) (xs : List ℕ)
    → take (suc n) xs ≡ take n xs ++ x ∷ []
    → reverse (take (suc n) xs) ≡ x ∷ reverse (take n xs)
reverse-take n x xs t = ap reverse t ∙ reverse-append (take n xs) (x ∷ [])

abbrev at : Editor → List ℕ → ℕ → Editor
at e buf c = record e { buf = buf; cursor = c }

pub view-text :
    (was_cr : Bool) (rs : List ℕ) (e : Editor)
    → IsValid e
    → view (insert_text was_cr rs e) ≡ put_all (clean was_cr rs) (view e)
unfolding insert_text
view-text was_cr [] e v = refl
view-text was_cr (r ∷ rs) e v =
    let line = view-text (r == 13) rs (insert_rune newline e) (insert_rune-IsValid newline e v) in
    let rune = view-text (r == 13) rs (insert_rune r e) (insert_rune-IsValid r e v) in
    let same = view-text (r == 13) rs e v in
    let line' = line ∙ ap (put_all (clean (r == 13) rs)) (view-insert newline e v) in
    let rune' = rune ∙ ap (put_all (clean (r == 13) rs)) (view-insert r e v) in
    ground (arith, line', rune', same)

view-backspace :
    (e : Editor) (buf : List ℕ) (c : ℕ)
    → c ≤ length buf
    → view (press_backspace (at e buf c)) ≡ meaning erase_before (view (at e buf c))
unfolding press_backspace
view-backspace e buf zero h = refl
view-backspace e buf (suc c) h =
    let (x, t, d) = split-at c buf (omega arith) in
    let xs = take c buf in
    let n = sym (length-take c buf (omega arith)) in
    let pressed : press_backspace (at e buf (suc c)) ≡ at e (cut c (suc c) buf) c = ground arith in
    ap view pressed
    ∙ view-append (at e (cut c (suc c) buf) c) xs (drop (suc c) buf) refl n
    ∙ ap (λ l. record { before = behead l; after = drop (suc c) buf })
        (sym (reverse-take c x buf t))

-- What lies after the cursor.
view-delete :
    (e : Editor) (buf : List ℕ) (c : ℕ)
    → c ≤ length buf
    → view (delete_at_cursor (at e buf c)) ≡ meaning erase_after (view (at e buf c))
unfolding delete_at_cursor
view-delete e buf c h = elim (Bool-cases (ltb c (length buf))) [
  | inl t ↦
      let (x, u, d) = split-at c buf (ltb→lt c (length buf) t) in
      let xs = take c buf in
      let n = sym (length-take c buf (omega arith)) in
      let pressed : delete_at_cursor (at e buf c) ≡ at e (cut c (suc c) buf) c = ground arith in
      ap view pressed
      ∙ view-append (at e (cut c (suc c) buf) c) xs (drop (suc c) buf) refl n
      ∙ ap (λ l. record { before = reverse xs; after = behead l }) (sym d)
  | inr f ↦
      let pressed : delete_at_cursor (at e buf c) ≡ at e buf c = ground arith in
      let nil = drop-all c buf (ground arith) in
      ap view pressed
      ∙ ap (λ l. record { before = reverse (take c buf); after = l }) nil
      ∙ ap (λ l. record { before = reverse (take c buf); after = behead l }) (sym nil)
]

module _ (sort : List (List ℕ) → List (List ℕ)) (completions : List (List ℕ)) where
  view-left :
      (e : Editor) (buf : List ℕ) (c : ℕ)
      → c ≤ length buf
      → view (press sort completions left (at e buf c)) ≡ meaning step_back (view (at e buf c))
  unfolding press
  view-left e buf zero h = refl
  view-left e buf (suc c) h =
      let (x, t, d) = split-at c buf (omega arith) in
      let pressed : press sort completions left (at e buf (suc c)) ≡ at e buf c = ground arith in
      ap view pressed
      ∙ ap (λ l. record { before = reverse (take c buf); after = l }) d
      ∙ ap (λ l. back l (drop (suc c) buf)) (sym (reverse-take c x buf t))

  view-right :
      (e : Editor) (buf : List ℕ) (c : ℕ)
      → c ≤ length buf
      → view (press sort completions right (at e buf c)) ≡ meaning step_on (view (at e buf c))
  unfolding press
  view-right e buf c h = elim (Bool-cases (ltb c (length buf))) [
    | inl t ↦
        let (x, u, d) = split-at c buf (ltb→lt c (length buf) t) in
        let pressed : press sort completions right (at e buf c) ≡ at e buf (suc c) = ground arith in
        ap view pressed
        ∙ ap (λ l. record { before = l; after = drop (suc c) buf }) (reverse-take c x buf u)
        ∙ ap (on (reverse (take c buf))) (sym d)
    | inr f ↦
        let pressed : press sort completions right (at e buf c) ≡ at e buf c = ground arith in
        let nil = drop-all c buf (ground arith) in
        ap view pressed
        ∙ ap (λ l. record { before = reverse (take c buf); after = l }) nil
        ∙ ap (on (reverse (take c buf))) (sym nil)
  ]

  view-home : (e : Editor) → view (press sort completions home e) ≡ meaning to_start (view e)
  unfolding press
  view-home e =
      ap (λ l. record { before = []; after = l })
        (take-drop e.cursor e.buf
          ∙ ap (λ l. l ++ drop e.cursor e.buf) (sym (reverse-reverse (take e.cursor e.buf))))

  view-end : (e : Editor) → view (press sort completions to_end e) ≡ meaning to_finish (view e)
  unfolding press
  view-end e =
      let xs = take e.cursor e.buf in
      let ys = drop e.cursor e.buf in
      view-append (press sort completions to_end e) e.buf [] (sym (append-nil e.buf)) refl
      ∙ ap (λ l. record { before = l; after = [] })
          (ap reverse (take-drop e.cursor e.buf) ∙ reverse-append xs ys)

  view-press :
      (d : Edit) (e : Editor)
      → IsValid e
      → view (press sort completions (key_of d) e) ≡ meaning d (view e)
  unfolding press
  view-press break_here e v = view-insert newline e v
  view-press erase_before e v = view-backspace e e.buf e.cursor v.in_text
  view-press erase_after e v = view-delete e e.buf e.cursor v.in_text
  view-press clear e v = refl
  view-press step_back e v = view-left e e.buf e.cursor v.in_text
  view-press step_on e v = view-right e e.buf e.cursor v.in_text
  view-press to_start e v = view-home e
  view-press to_finish e v = view-end e
  view-press (type_in runes) e v = view-text false runes e v

  -- Pressing a sequence of editing keys (new line, Backspace, Delete, clear, the arrows to the left
  -- and to the right, Home, End, typed text), from an editor whose cursor is in its text, changes the
  -- runes before and after the cursor as the same edits change two lists.
  pub view-press_all :
      (ds : List Edit) (e : Editor)
      → IsValid e
      → view (press_all sort completions (map key_of ds) e) ≡ meaning_all ds (view e)
  unfolding press_all
  view-press_all [] e v = refl
  view-press_all (d ∷ ds) e v =
      view-press_all ds (press sort completions (key_of d) e)
        (press-IsValid sort completions (key_of d) e v)
      ∙ ap (meaning_all ds) (view-press d e v)
