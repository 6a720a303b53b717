-- ===== src/LineEditor/Paste.antt =====
-- The paste mode of internal/ui/lineeditor.go, and the width of a text on the screen. `decode` is
-- the runes of UTF-8 bytes without the invalid ones.
use vibe_local_go.Base.{
  ℕ, ◌+◌, ◌≡◌, refl, Bool, true, false, ◌&&◌, ◌||◌, List, [], ◌∷◌, ◌++◌, Option, none, some, leb,
  ◌==◌, is_prefix, arith, if◌then◌else◌,
}
use vibe_local_go.LineEditor.{Editor}
use vibe_local_go.LineEditor.Keys.{insert_text}
use vibe_local_go.LineEditor.Cursor.{IsValid}
use vibe_local_go.LineEditor.Zipper.{view, clean, put_all, view-text}

-- ESC [ 2 0 1 ~
abbrev pub paste_end_marker : List ℕ
paste_end_marker = 27 ∷ b'[' ∷ b'2' ∷ b'0' ∷ b'1' ∷ b'~' ∷ []

-- data[:endIdx], where the marker is found.
unfoldable pub before_marker : List ℕ → Option (List ℕ)
before_marker [] = none
before_marker (b ∷ bs) =
    let rest = before_marker bs in
    if is_prefix paste_end_marker (b ∷ bs)
    then some []
    else elim rest [ none ↦ none | some text ↦ some (b ∷ text) ]

-- isCJK
abbrev pub is_wide : ℕ → Bool
is_wide r =
    (leb 0x2E80 r && leb r 0x9FFF)
    || (leb 0xAC00 r && leb r 0xD7AF)
    || (leb 0xF900 r && leb r 0xFAFF)
    || (leb 0xFE30 r && leb r 0xFE4F)
    || (leb 0xFF00 r && leb r 0xFFEF)
    || (leb 0x20000 r && leb r 0x2FA1F)

unfoldable pub display_width : List ℕ → ℕ
display_width [] = 0
display_width (r ∷ rs) = (if is_wide r then 2 else 1) + display_width rs

-- The runes without ESC.
abbrev pub has_no_escape : List ℕ → Bool
has_no_escape [] = true
has_no_escape (b ∷ bs) = if b == 27 then false else has_no_escape bs

module _ (decode : List ℕ → List ℕ) where
  -- Whether the paste goes on, and the editor behind it.
  unfoldable pub process_paste_data : List ℕ → Editor → Bool × Editor
  unfolding before_marker insert_text
  process_paste_data bytes e = elim (before_marker bytes) [
    | none ↦ (true, insert_text false (decode bytes) e)
    | some text ↦ (false, insert_text false (decode text) e)
  ]

before_marker-append :
    (text rest : List ℕ)
    → has_no_escape text ≡ true
    → before_marker (text ++ paste_end_marker ++ rest) ≡ some text
unfolding before_marker
before_marker-append [] rest h = refl
before_marker-append (b ∷ bs) rest h =
    let ih = before_marker-append bs rest (ground arith) in
    let other : (27 == b) ≡ false = ground arith in rw (before_marker, other, ih) refl

-- A paste that comes in one read, in an editor whose cursor is in its text, ends at the first end
-- marker: the text before it, when it has no ESC, is put at the cursor with its line breaks as
-- newlines and without its other control characters, and what follows the marker is dropped.
pub process_paste_data-view :
    (decode : List ℕ → List ℕ) (text rest : List ℕ) (e : Editor)
    → IsValid e
    → has_no_escape text ≡ true
    → let pasted = process_paste_data decode (text ++ paste_end_marker ++ rest) e in
      (pasted.0 ≡ false) × (view pasted.1 ≡ put_all (clean false (decode text)) (view e))
unfolding process_paste_data
process_paste_data-view decode text rest e v h =
    rw (process_paste_data, before_marker-append text rest h)
      (refl, view-text false (decode text) e v)
