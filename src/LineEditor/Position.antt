-- ===== src/LineEditor/Position.antt =====
-- The line and the column that cursorLineAndCol (internal/ui/lineeditor.go) computes, and the lines
-- of getLines.
use vibe_local_go.Base.{
  ℕ, suc, ◌+◌, ◌-◌, ◌≤◌, ◌≡◌, refl, inl, inr, true, false, ◌&&◌, List, [], ◌∷◌, some, length,
  get_elem?, leb, ◌==◌, arith, Bool-cases,
}
use vibe_local_go.LineEditor.{
  LineInfo, newline, get_lines, lines_from, find_line, cursor_line_and_col,
}

-- Line j of `lines` holds the cursor; the first line has number k.
pub record IsPosition (lines : List LineInfo) (k limit cursor : ℕ) (at : ℕ × ℕ) : Type 0 where
  pub j : ℕ
  pub li : LineInfo
  pub number : at.0 ≡ k + j
  pub here : get_elem? lines j ≡ some li
  pub column : li.start + at.1 ≡ cursor
  pub within : cursor ≤ li.end
  pub bound : li.end ≤ limit

found :
    (li : LineInfo) (lines : List LineInfo) (k limit cursor : ℕ)
    → li.start ≤ cursor
    → cursor ≤ li.end
    → li.end ≤ limit
    → IsPosition (li ∷ lines) k limit cursor (k, cursor - li.start)
found li lines k limit cursor h l b = record {
  j = 0;
  li = li;
  number = omega arith;
  here = refl;
  column = omega arith;
  within = l;
  bound = b;
}

further :
    (li : LineInfo) (lines : List LineInfo) (k limit limit' cursor : ℕ) (at : ℕ × ℕ)
    → limit ≤ limit'
    → IsPosition lines (k + 1) limit cursor at
    → IsPosition (li ∷ lines) k limit' cursor at
further li lines k limit limit' cursor at h p = record {
  j = suc p.j;
  li = p.li;
  number = omega (arith, p.number);
  here = p.here;
  column = p.column;
  within = p.within;
  bound = omega (arith, p.bound);
}

weaken :
    (lines : List LineInfo) (k limit limit' cursor : ℕ) (at : ℕ × ℕ)
    → limit ≤ limit'
    → IsPosition lines k limit cursor at
    → IsPosition lines k limit' cursor at
weaken lines k limit limit' cursor at h p = record {
  j = p.j;
  li = p.li;
  number = p.number;
  here = p.here;
  column = p.column;
  within = p.within;
  bound = omega (arith, p.bound);
}

find_line-IsPosition :
    (start i k cursor : ℕ) (rs : List ℕ) (fallback : ℕ × ℕ)
    → start ≤ i
    → start ≤ cursor
    → cursor ≤ i + length rs
    → IsPosition
        (lines_from start i rs)
        k
        (i + length rs)
        cursor
        (find_line cursor k (lines_from start i rs) fallback)
unfolding lines_from find_line
find_line-IsPosition start i k cursor [] fallback h l b =
    let hit : (leb start cursor && leb cursor i) ≡ true = ground arith in
    rw hit (found _ [] k (i + 0) cursor l (omega arith) (omega arith))
find_line-IsPosition start i k cursor (r ∷ rs) fallback h l b = elim (Bool-cases (r == newline)) [
  | inl t ↦
      let rest = lines_from (i + 1) (i + 1) rs in
      elim (Bool-cases (leb cursor i)) [
        | inl y ↦
            let hit : (leb start cursor && leb cursor i) ≡ true = ground arith in
            rw (lines_from, t, find_line, hit)
              (found _ rest k (i + length (r ∷ rs)) cursor l (ground arith) (omega arith))
        | inr n ↦
            let miss : (leb start cursor && leb cursor i) ≡ false = ground arith in
            rw (lines_from, t, find_line, miss)
              (further _ rest k (i + 1 + length rs) (i + length (r ∷ rs)) cursor _ (omega arith) (
                find_line-IsPosition (i + 1) (i + 1) (k + 1) cursor rs fallback (omega arith)
                  (ground arith) (omega arith)))
      ]
  | inr f ↦
      rw (lines_from, f)
        (weaken _ k (i + 1 + length rs) (i + length (r ∷ rs)) cursor _ (omega arith)
          (find_line-IsPosition start (i + 1) k cursor rs fallback (omega arith) l (omega arith)))
]

-- A cursor in the text stands on the line that cursorLineAndCol returns, in the column that it
-- returns: the line exists, starts that many runes before the cursor and does not end before it.
pub cursor_line_and_col-IsPosition :
    (buf : List ℕ) (cursor : ℕ)
    → cursor ≤ length buf
    → IsPosition (get_lines buf) 0 (length buf) cursor (cursor_line_and_col buf cursor)
unfolding cursor_line_and_col get_lines
cursor_line_and_col-IsPosition buf cursor h =
    weaken _ 0 (0 + length buf) (length buf) cursor _ (omega arith)
      (find_line-IsPosition 0 0 0 cursor buf _ (omega arith) (omega arith) (omega arith))
