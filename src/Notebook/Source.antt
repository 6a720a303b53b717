-- ===== src/Notebook/Source.antt =====
-- The source of a cell that splitSource of internal/tool/notebook_edit.go makes.
use vibe_local_go.Base.{
  ℕ, ◌≡◌, refl, ap, ◌∙◌, Bool, false, List, [], ◌∷◌, ◌++◌, ◌==◌, any, All, arith, subst, Bool-cases,
  inl, inr,
}
use vibe_local_go.Notebook.{end_lines, split_source}
use vibe_local_go.Sandbox.Diff.{lines_of}

abbrev pub flatten : List (List ℕ) → List ℕ
flatten [] = []
flatten (l ∷ ls) = l ++ flatten ls

abbrev pub has_newline : List ℕ → Bool
has_newline l = any (λ c. c == 10) l

-- Lines that give a text when they are joined: each but the last ends with the only newline in it, and
-- the last has none.
pub record IsSource (text : List ℕ) (lines : List (List ℕ)) : Type 0 where
  pub whole : flatten lines ≡ text
  pub parts : List (List ℕ)
  pub ended : lines ≡ end_lines parts
  pub plain : All (λ p. has_newline p ≡ false) parts

lines-cons : (s : List ℕ) → (l : List ℕ) × (ls : List (List ℕ)) × (lines_of s ≡ l ∷ ls)
unfolding lines_of
lines-cons [] = ([], [], refl)
lines-cons (c ∷ s) =
    let (l, ls, e) = lines-cons s in
    elim (Bool-cases (c == 10)) [
      | inl t ↦ ([], lines_of s, rw (lines_of, t) refl)
      | inr f ↦ (c ∷ l, ls, rw (lines_of, f, e) refl)
    ]

end-front :
    (c : ℕ) (l : List ℕ) (ls : List (List ℕ))
    → flatten (end_lines ((c ∷ l) ∷ ls)) ≡ c ∷ flatten (end_lines (l ∷ ls))
end-front c l [] = refl
end-front c l (m ∷ ls) = refl

flatten-lines : (s : List ℕ) → flatten (end_lines (lines_of s)) ≡ s
unfolding lines_of
flatten-lines [] = refl
flatten-lines (c ∷ s) =
    let (l, ls, e) = lines-cons s in
    let ih : flatten (end_lines (l ∷ ls)) ≡ s = rw (← e) (flatten-lines s) in
    elim (Bool-cases (c == 10)) [
      | inl t ↦
          let newline : 10 ≡ c = ground (arith, t) in rw (lines_of, t, e) (λ i. newline i ∷ ih i)
      | inr f ↦ rw (lines_of, f, e) (end-front c l ls ∙ ap (λ r. c ∷ r) ih)
    ]

lines-plain : (s : List ℕ) → All (λ p. has_newline p ≡ false) (lines_of s)
unfolding lines_of
lines-plain [] = (refl, tt)
lines-plain (c ∷ s) =
    let (l, ls, e) = lines-cons s in
    let ih = subst (All (λ p. has_newline p ≡ false)) e (lines-plain s) in
    elim (Bool-cases (c == 10)) [
      | inl t ↦ rw (lines_of, t) (refl, lines-plain s)
      | inr f ↦ let (h, hs) = ih in rw (lines_of, f, e) (ground (arith, f, h), hs)
    ]

-- The source of a cell is the text when its lines are joined, and each line but the last ends with the
-- only newline in it.
pub split_source-IsSource : (text : List ℕ) → IsSource text (split_source text)
unfolding split_source
split_source-IsSource [] = record { whole = refl; parts = []; ended = refl; plain = tt }
split_source-IsSource (c ∷ s) = record {
  whole = flatten-lines (c ∷ s);
  parts = lines_of (c ∷ s);
  ended = refl;
  plain = lines-plain (c ∷ s);
}
