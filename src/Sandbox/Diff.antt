-- ===== src/Sandbox/Diff.antt =====
-- The difference that internal/sandbox/manager.go shows, as a list of lines. A content is the list
-- of its runes, and a line that is no line of a content is a note.
use vibe_local_go.Base.{
  ℕ, ◌≡◌, refl, ap, ◌∙◌, String, Bool, true, false, ◌&&◌, ◌||◌, List, [], ◌∷◌, Option, none, some,
  arith, decimal, concat, codes, length, ltb, ◌==◌, if◌then◌else◌, is_empty, Bool-cases, inl, inr,
  lookup,
}
use vibe_local_go.Sandbox.{FilePath, Manager, Files, path_key}

abbrev pub equal_line : List ℕ → List ℕ → Bool
equal_line [] [] = true
equal_line (a ∷ s) (b ∷ t) = a == b && equal_line s t
equal_line _ _ = false

abbrev pub add_to_line : ℕ → List (List ℕ) → List (List ℕ)
add_to_line c [] = (c ∷ []) ∷ []
add_to_line c (l ∷ ls) = (c ∷ l) ∷ ls

-- strings.Split(content, "\n")
unfoldable pub lines_of : List ℕ → List (List ℕ)
lines_of [] = [] ∷ []
lines_of (c ∷ cs) = let rest = lines_of cs in if c == 10 then [] ∷ rest else add_to_line c rest

pub data DiffLine : Type 0 where
  both old new : List ℕ → DiffLine
  note : String → DiffLine

-- The comparison line by line.
unfoldable pub diff_lines : List (List ℕ) → List (List ℕ) → List DiffLine
diff_lines [] [] = []
diff_lines [] (n ∷ ns) = new n ∷ diff_lines [] ns
diff_lines (o ∷ os) [] = old o ∷ diff_lines os []
diff_lines (o ∷ os) (n ∷ ns) = elim (equal_line o n) [
  | true ↦ both o ∷ diff_lines os ns
  | false ↦ old o ∷ diff_lines os (n ∷ ns)
]

unfoldable pub all_new : List (List ℕ) → List DiffLine
all_new [] = []
all_new (n ∷ ns) = new n ∷ all_new ns

-- generateUnifiedDiff behind its two lines of names.
unfoldable pub generate_unified_diff : List ℕ → List ℕ → List DiffLine
unfolding lines_of diff_lines all_new
generate_unified_diff old_content new_content =
    let olds = lines_of old_content in
    let news = lines_of new_content in
    if is_empty old_content
    then note (concat ("@@ -0,0 +1," ∷ decimal (length news) ∷ " @@" ∷ [])) ∷ all_new news
    else if equal_line new_content old_content
    then note "(変更なし)" ∷ []
    else note (concat ("@@ -" ∷ decimal (length olds) ∷ " +" ∷ decimal (length news) ∷ " @@" ∷ []))
      ∷ (if ltb 200 (length olds) || ltb 200 (length news)
          then note (
              concat (
                "(ファイルが大きいため要約のみ表示: "
                ∷ decimal (length olds)
                ∷ "行 → "
                ∷ decimal (length news)
                ∷ "行)"
                ∷ []))
            ∷ []
          else diff_lines olds news)

-- Diff; `none` is an error.
unfoldable pub diff : FilePath → Manager → Files → Option (List DiffLine)
unfolding generate_unified_diff
diff rel m files = elim (lookup rel m.staged) [
  | none ↦ none
  | some s ↦ elim (lookup s.sandbox_path files) [
    | none ↦ none
    | some content ↦
        let before : List ℕ = elim (lookup s.original_path files) [
          | none ↦ []
          | some text ↦ codes text
        ] in
        some (generate_unified_diff (if s.is_new then [] else before) (codes content))
  ]
]

-- The lines of a difference that come from the old and from the new content.
abbrev pub olds_of : List DiffLine → List (List ℕ)
olds_of [] = []
olds_of (both l ∷ ds) = l ∷ olds_of ds
olds_of (old l ∷ ds) = l ∷ olds_of ds
olds_of (new l ∷ ds) = olds_of ds
olds_of (note s ∷ ds) = olds_of ds

abbrev pub news_of : List DiffLine → List (List ℕ)
news_of [] = []
news_of (both l ∷ ds) = l ∷ news_of ds
news_of (old l ∷ ds) = news_of ds
news_of (new l ∷ ds) = l ∷ news_of ds
news_of (note s ∷ ds) = news_of ds

equal_line-eq : (s t : List ℕ) → equal_line s t ≡ true → s ≡ t
equal_line-eq [] [] h = refl
equal_line-eq [] (b ∷ t) h = absurd (ground (arith, h))
equal_line-eq (a ∷ s) [] h = absurd (ground (arith, h))
equal_line-eq (a ∷ s) (b ∷ t) h =
    let heads : a ≡ b = ground (arith, h) in
    let tails = equal_line-eq s t (ground (arith, h)) in λ i. heads i ∷ tails i

-- The comparison line by line loses nothing: the lines marked as kept or removed are those of the
-- old content, in order, and the lines marked as kept or added are those of the new content.
diff_lines-contents :
    (os ns : List (List ℕ)) → (olds_of (diff_lines os ns) ≡ os) × (news_of (diff_lines os ns) ≡ ns)
unfolding diff_lines
diff_lines-contents [] [] = (refl, refl)
diff_lines-contents [] (n ∷ ns) = let ih = diff_lines-contents [] ns in (ih.0, ap (λ l. n ∷ l) ih.1)
diff_lines-contents (o ∷ os) [] = let ih = diff_lines-contents os [] in (ap (λ l. o ∷ l) ih.0, ih.1)
diff_lines-contents (o ∷ os) (n ∷ ns) = elim (Bool-cases (equal_line o n)) [
  | inl t ↦
      let ih = diff_lines-contents os ns in
      rw (diff_lines, t)
        (ap (λ l. o ∷ l) ih.0, ap (λ l. o ∷ l) ih.1 ∙ ap (λ l. l ∷ ns) (equal_line-eq o n t))
  | inr f ↦
      let ih = diff_lines-contents os (n ∷ ns) in rw (diff_lines, f) (ap (λ l. o ∷ l) ih.0, ih.1)
]
