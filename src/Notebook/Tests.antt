-- ===== src/Notebook/Tests.antt =====
-- Edits of a small notebook (internal/tool/notebook_edit.go), and the theorems about them.
use vibe_local_go.Base.{
  ℕ, ◌≡◌, refl, String, false, List, [], ◌∷◌, none, some, ◌⊎◌, inl, inr, codes, arith, decimal,
}
use vibe_local_go.Config.{ℤ, pos, negsuc}
use vibe_local_go.Sandbox.Diff.{lines_of}
use vibe_local_go.Notebook.{
  NotebookCell, Notebook, NotebookArgs, NotebookCodec, write_error, split_source, os_write_file,
  new_error_result,
}
use vibe_local_go.Notebook.Execute.{
  execute_edit, edit_file, edit_cells, replace_cell, delete_cell, conclude, write_notebook,
  with_cell_type, out_of_range,
}
use vibe_local_go.Notebook.Saving.{IsEdit, execute_edit-IsEdit}
use vibe_local_go.Notebook.Undo.{IsFaithful, disk_of, insert_delete-holding}

-- The bytes of arguments and of a notebook, as what they are decoded to.
data Bytes : Type 0 where
  args_bytes : NotebookArgs → Bytes
  notebook_bytes : Notebook ℕ → Bytes

abbrev args_in : Bytes → String ⊎ NotebookArgs
args_in (args_bytes args) = inr args
args_in (notebook_bytes nb) = inl "no arguments"

abbrev notebook_in : Bytes → String ⊎ Notebook ℕ
notebook_in (args_bytes args) = inl "no notebook"
notebook_in (notebook_bytes nb) = inr nb

abbrev codec : NotebookCodec ℕ Bytes
codec = record {
  unmarshal_args = args_in;
  unmarshal = notebook_in;
  marshal_indent = λ nb. inr (notebook_bytes nb);
  with_newline = λ b. b;
  empty_array = 0;
  empty_object = 1;
}

abbrev faithful : IsFaithful codec
faithful = record { encode = notebook_bytes; encodes = λ nb. refl; decodes = λ nb. refl }

abbrev cell : String → List (List ℕ) → NotebookCell ℕ
cell kind source = record {
  cell_type = kind;
  source = source;
  metadata = some 1;
  execution_count = some (pos 3);
  outputs = some 7;
  id = "a1";
}

abbrev book : List (NotebookCell ℕ) → Notebook ℕ
book cells = record { cells = cells; metadata = some 1; nb_format = pos 4; nb_format_minor = pos 5 }

abbrev two_cells : Notebook ℕ
two_cells = book (cell "code" (codes "x = 1" ∷ []) ∷ cell "markdown" (codes "# Notes" ∷ []) ∷ [])

abbrev args_of : ℤ → String → String → String → NotebookArgs
args_of number mode source kind = record {
  path = "n.ipynb";
  cell_number = number;
  edit_mode = mode;
  new_source = codes source;
  cell_type = kind;
}

abbrev files : String → String ⊎ Bytes
files p = inr (notebook_bytes two_cells)

abbrev resolved : String → String ⊎ String
resolved p = inr p

splits_lines : split_source (codes "a\nb\n") ≡ codes "a\n" ∷ codes "b\n" ∷ [] ∷ []
unfolding split_source lines_of
splits_lines = refl

-- A cell that becomes markdown keeps a list of outputs, which is empty.
keeps_outputs : (with_cell_type codec "markdown" (cell "code" [])).outputs ≡ some 0
unfolding with_cell_type
keeps_outputs = refl

refuses_negative :
    (execute_edit codec resolved
      (args_bytes (args_of (negsuc 0) "" "y" ""))
      (disk_of codec files)).0
    ≡ new_error_result "cell_number -1 out of range (notebook has 2 cells)"
unfolding execute_edit edit_file edit_cells replace_cell out_of_range decimal
refuses_negative = refl

reports_failed_write :
    (execute_edit codec resolved
      (args_bytes (args_of (pos 0) "delete" "" ""))
      (record { read_file = files; writes = write_error "disk full" none ∷ [] })).0
    ≡ new_error_result "failed to write notebook: disk full"
unfolding execute_edit edit_file edit_cells delete_cell conclude write_notebook os_write_file
reports_failed_write = refl

execute_edit-IsEdit_example :
    let params = args_bytes (args_of (pos 0) "" "x = 2\nx" "") in
    IsEdit codec resolved params
      (disk_of codec files)
      (execute_edit codec resolved params (disk_of codec files)).1
unfolding execute_edit edit_file edit_cells replace_cell conclude write_notebook os_write_file
execute_edit-IsEdit_example =
    execute_edit-IsEdit codec resolved (args_bytes (args_of (pos 0) "" "x = 2\nx" ""))
      (disk_of codec files) refl

insert_delete-holding_example :
    let args = args_of (pos 1) "insert" "y" "" in
    let first = edit_file codec "insert" "n.ipynb" args (disk_of codec files) in
    let second = edit_file codec "delete" "n.ipynb" args first.1 in
    (first.0.is_error ≡ false)
    × (second.0.is_error ≡ false)
    × (second.1.read_file "n.ipynb" ≡ inr (notebook_bytes two_cells))
insert_delete-holding_example =
    insert_delete-holding codec faithful two_cells "n.ipynb" (args_of (pos 1) "insert" "y" "") 1
      (notebook_bytes two_cells) files refl refl refl (omega arith) (omega arith)
