-- ===== src/Notebook.antt =====
-- internal/tool/notebook_edit.go: edits of the cells of a Jupyter notebook, with NewResult and
-- NewErrorResult of internal/tool/registry.go. Texts of cells are lists of runes. encoding/json is
-- the argument `codec`, and a json.RawMessage stands for the JSON value that it holds, a `J`.
-- resolvePath, which asks the file system for the links, is the argument `resolve_path`. Of a disk
-- the code uses what reading a path gives and how the next writes go. Schema and Name, which return
-- constants, are left out.
pub mod Execute
pub mod Source
pub mod Editing
pub mod Saving
pub mod Undo
mod Tests
use vibe_local_go.Base.{
  ℕ, zero, suc, ◌+◌, ◌==◌, String, Bool, true, false, not, ◌&&◌, ◌||◌, List, [], ◌∷◌, ◌++◌, Option,
  none, some, ◌⊎◌, ◌||◌, inl, inr, ltb, leb, str_eq, length, is_empty, concat, decimal,
  if◌then◌else◌,
}
use vibe_local_go.Config.{ℤ, pos, negsuc}
use vibe_local_go.Tool.{ExecResult}
use vibe_local_go.Sandbox.Diff.{lines_of}

pub record NotebookCell (J : Type 0) : Type 0 where
  pub cell_type : String
  pub source : List (List ℕ)
  pub metadata : Option J
  pub execution_count : Option ℤ
  pub outputs : Option J
  pub id : String

-- The file's notebook structure.
pub record Notebook (J : Type 0) : Type 0 where
  pub cells : List (NotebookCell J)
  pub metadata : Option J
  pub nb_format : ℤ
  pub nb_format_minor : ℤ

pub record NotebookArgs : Type 0 where
  pub path : String
  pub cell_number : ℤ
  pub edit_mode : String
  pub new_source : List ℕ
  pub cell_type : String

-- encoding/json on the bytes `B`: an error, by its text, or a value; and `append(data, '\n')`.
pub record NotebookCodec (J B : Type 0) : Type 0 where
  pub unmarshal_args : B → String ⊎ NotebookArgs
  pub unmarshal : B → String ⊎ Notebook J
  pub marshal_indent : Notebook J → String ⊎ B
  pub with_newline : B → B
  pub empty_array : J
  pub empty_object : J

-- How os.WriteFile goes. Where it fails, it may leave a part of the data in the file.
pub data NotebookWrite (B : Type 0) : Type 0 where
  write_done : NotebookWrite B
  write_error : String → Option B → NotebookWrite B

pub record Disk (B : Type 0) : Type 0 where
  pub read_file : String → String ⊎ B
  pub writes : List (NotebookWrite B)

abbrev pub new_result : String → ExecResult
new_result output = record { output = output; is_error = false; tool_call_id = ""; error = "" }

abbrev pub new_error_result : String → ExecResult
new_error_result e = record { output = ""; is_error = true; tool_call_id = ""; error = e }

-- %d
abbrev pub int_text : ℤ → String
int_text (pos n) = decimal n
int_text (negsuc n) = concat ("-" ∷ decimal (suc n) ∷ [])

-- The loop over the lines: every line but the last gets its "\n" back.
abbrev pub end_lines : List (List ℕ) → List (List ℕ)
end_lines [] = []
end_lines (l ∷ []) = l ∷ []
end_lines (l ∷ m ∷ ls) = (l ++ 10 ∷ []) ∷ end_lines (m ∷ ls)

unfoldable pub split_source : List ℕ → List (List ℕ)
split_source text = if is_empty text then [] else end_lines (lines_of text)

-- The index of a cell, where 0 <= number < bound.
abbrev pub index_below : ℤ → ℕ → Option ℕ
index_below (pos n) bound = if ltb n bound then some n else none
index_below (negsuc n) bound = none

abbrev pub update_cell {ℓ} : {A : Type ℓ} → ℕ → (A → A) → List A → List A
update_cell n f [] = []
update_cell zero f (c ∷ cs) = f c ∷ cs
update_cell (suc n) f (c ∷ cs) = c ∷ update_cell n f cs

-- The contents of the file are replaced.
abbrev pub put_file : {B : Type 0} → String → B → (String → String ⊎ B) → String → String ⊎ B
put_file path bytes files p = if str_eq p path then inr bytes else files p

abbrev pub next_writes : {B : Type 0} → List (NotebookWrite B) → List (NotebookWrite B)
next_writes [] = []
next_writes (w ∷ ws) = ws

-- What a write leaves of the files, and its error.
abbrev pub files_after :
    {B : Type 0}
    → String
    → B
    → List (NotebookWrite B)
    → (String → String ⊎ B)
    → Option String × (String → String ⊎ B)
files_after path bytes [] files = (none, put_file path bytes files)
files_after path bytes (write_done ∷ ws) files = (none, put_file path bytes files)
files_after path bytes (write_error e none ∷ ws) files = (some e, files)
files_after path bytes (write_error e (some part) ∷ ws) files = (some e, put_file path part files)

-- os.WriteFile
unfoldable pub os_write_file : {B : Type 0} → String → B → Disk B → Option String × Disk B
os_write_file path bytes disk =
    let (e, files) = files_after path bytes disk.writes disk.read_file in
    (e, record { read_file = files; writes = next_writes disk.writes })

abbrev pub mode_of : NotebookArgs → String
mode_of args = if str_eq args.edit_mode "" then "replace" else args.edit_mode

abbrev pub is_mode : String → Bool
is_mode mode = str_eq mode "replace" || str_eq mode "insert" || str_eq mode "delete"
