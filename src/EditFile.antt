-- ===== src/EditFile.antt =====
-- internal/tool/file_edit.go: the replacement of a text in a file's content. Texts are lists of
-- runes. Reading and writing the file, its path and the difference that is shown are left out.
pub mod Replacing
mod Tests
use vibe_local_go.Base.{
  ℕ, zero, suc, ◌-◌, String, Bool, true, false, List, [], ◌∷◌, ◌++◌, length, drop, ltb, ◌==◌,
  is_prefix, is_empty, concat, decimal, if◌then◌else◌,
}

-- strings.Count for a text that is not empty, behind that many runes of a match.
unfoldable pub count_from : ℕ → List ℕ → List ℕ → ℕ
count_from k old [] = 0
count_from (suc k) old (c ∷ cs) = count_from k old cs
count_from zero old (c ∷ cs) =
    let matched = count_from (length old - 1) old cs in
    let rest = count_from zero old cs in if is_prefix old (c ∷ cs) then suc matched else rest

-- strings.ReplaceAll for a text that is not empty.
unfoldable pub replace_from : ℕ → List ℕ → List ℕ → List ℕ → List ℕ
replace_from k old new [] = []
replace_from (suc k) old new (c ∷ cs) = replace_from k old new cs
replace_from zero old new (c ∷ cs) =
    let matched = replace_from (length old - 1) old new cs in
    let rest = replace_from zero old new cs in
    if is_prefix old (c ∷ cs) then new ++ matched else c ∷ rest

-- strings.Replace(content, old, new, 1)
unfoldable pub replace_first : List ℕ → List ℕ → List ℕ → List ℕ
replace_first old new [] = []
replace_first old new (c ∷ cs) =
    let rest = replace_first old new cs in
    if is_prefix old (c ∷ cs) then new ++ drop (length old) (c ∷ cs) else c ∷ rest

pub data Edited : Type 0 where
  edit_error : String → Edited
  edited : List ℕ → Edited

-- The part of Execute that makes the new content.
unfoldable pub edit_content : Bool → List ℕ → List ℕ → List ℕ → Edited
unfolding count_from replace_from replace_first
edit_content replace_all old new content =
    let count = count_from 0 old content in
    if is_empty old
    then edit_error "old_string cannot be empty"
    else if replace_all
    then edited (replace_from 0 old new content)
    else if ltb 1 count
    then edit_error (
        concat (
          "old_string appears "
          ∷ decimal count
          ∷ " times; use replace_all=true or provide more unique context"
          ∷ []))
    else if count == 0
    then edit_error "old_string not found in file"
    else edited (replace_first old new content)
