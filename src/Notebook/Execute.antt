-- ===== src/Notebook/Execute.antt =====
-- The edits of internal/tool/notebook_edit.go: replacing, inserting and deleting a cell, and Execute.
use vibe_local_go.Base.{
  ℕ, suc, String, not, List, [], ◌∷◌, ◌++◌, Option, none, some, ◌⊎◌, inl, inr, leb, str_eq, length,
  take, drop, concat, decimal, if◌then◌else◌,
}
use vibe_local_go.Config.{ℤ}
use vibe_local_go.Tool.{ExecResult}
use vibe_local_go.Notebook.{
  NotebookCell, Notebook, NotebookArgs, NotebookCodec, Disk, new_result, new_error_result, int_text,
  split_source, index_below, update_cell, os_write_file, mode_of, is_mode,
}

module _ {J B : Type 0} (codec : NotebookCodec J B) where
  unfoldable pub write_notebook : Notebook J → String → Disk B → Option String × Disk B
  write_notebook nb path disk = elim (codec.marshal_indent nb) [
    | inl e ↦ (some (concat ("failed to marshal notebook: " ∷ e ∷ [])), disk)
    | inr bytes ↦
        let (failed, after) = os_write_file path (codec.with_newline bytes) disk in
        elim failed [
          | none ↦ (none, after)
          | some e ↦ (some (concat ("failed to write notebook: " ∷ e ∷ [])), after)
        ]
  ]

  -- The end of the three edits: the notebook is written, and the result says so.
  unfoldable pub conclude : Notebook J → String → String → Disk B → ExecResult × Disk B
  conclude nb path output disk =
      let (failed, after) = write_notebook nb path disk in
      (elim failed [ none ↦ new_result output | some e ↦ new_error_result e ], after)

  -- The cell type that a replacement asks for.
  unfoldable pub with_cell_type : String → NotebookCell J → NotebookCell J
  with_cell_type wanted c =
      if str_eq wanted ""
      then c
      else if str_eq wanted "markdown"
      then record c { cell_type = wanted; execution_count = none; outputs = some codec.empty_array }
      else if str_eq wanted "code"
      then record c {
        cell_type = wanted;
        outputs = elim c.outputs [ none ↦ some codec.empty_array | some o ↦ some o ];
      }
      else record c { cell_type = wanted }

  unfoldable pub without_execution : NotebookCell J → NotebookCell J
  without_execution c =
      if str_eq c.cell_type "code"
      then record c { execution_count = none; outputs = some codec.empty_array }
      else c

  unfoldable pub replaced_cell : List ℕ → String → NotebookCell J → NotebookCell J
  replaced_cell text wanted c =
      without_execution (with_cell_type wanted (record c { source = split_source text }))

  unfoldable pub new_cell : List ℕ → String → NotebookCell J
  new_cell text kind = record {
    cell_type = kind;
    source = split_source text;
    metadata = some codec.empty_object;
    execution_count = none;
    outputs = if str_eq kind "code" then some codec.empty_array else none;
    id = "";
  }

  unfoldable pub out_of_range : ℤ → Notebook J → ExecResult
  out_of_range number nb = new_error_result (
      concat (
        "cell_number "
        ∷ int_text number
        ∷ " out of range (notebook has "
        ∷ decimal (length nb.cells)
        ∷ " cells)"
        ∷ []))

  unfoldable pub replace_cell :
      Notebook J → String → ℤ → List ℕ → String → Disk B → ExecResult × Disk B
  replace_cell nb path number text wanted disk = elim (index_below number (length nb.cells)) [
    | none ↦ (out_of_range number nb, disk)
    | some n ↦
        conclude (record nb { cells = update_cell n (replaced_cell text wanted) nb.cells }) path
          (concat ("Replaced cell " ∷ int_text number ∷ " in " ∷ path ∷ [])) disk
  ]

  unfoldable pub insert_cell :
      Notebook J → String → ℤ → List ℕ → String → Disk B → ExecResult × Disk B
  insert_cell nb path number text wanted disk =
      let kind = if str_eq wanted "" then "code" else wanted in
      elim (index_below number (suc (length nb.cells))) [
        | none ↦ (
          new_error_result (
              concat (
                "cell_number "
                ∷ int_text number
                ∷ " out of range for insert (valid: 0-"
                ∷ decimal (length nb.cells)
                ∷ ")"
                ∷ [])),
          disk,
        )
        | some n ↦
            conclude (record nb { cells = take n nb.cells ++ new_cell text kind ∷ drop n nb.cells })
              path
              (concat (
                "Inserted new "
                ∷ kind
                ∷ " cell at position "
                ∷ int_text number
                ∷ " in "
                ∷ path
                ∷ []))
              disk
      ]

  unfoldable pub delete_cell : Notebook J → String → ℤ → Disk B → ExecResult × Disk B
  delete_cell nb path number disk = elim (index_below number (length nb.cells)) [
    | none ↦ (out_of_range number nb, disk)
    | some n ↦
        let left = take n nb.cells ++ drop (suc n) nb.cells in
        if leb (length nb.cells) 1
        then (new_error_result "cannot delete the last remaining cell", disk)
        else conclude (record nb { cells = left }) path
            (concat (
              "Deleted cell "
              ∷ int_text number
              ∷ " from "
              ∷ path
              ∷ " (now "
              ∷ decimal (length left)
              ∷ " cells)"
              ∷ []))
            disk
  ]

  -- The switch of Execute on the edit mode.
  unfoldable pub edit_cells :
      String → Notebook J → String → NotebookArgs → Disk B → ExecResult × Disk B
  edit_cells mode nb path args disk =
      if str_eq mode "replace"
      then replace_cell nb path args.cell_number args.new_source args.cell_type disk
      else if str_eq mode "insert"
      then insert_cell nb path args.cell_number args.new_source args.cell_type disk
      else if str_eq mode "delete"
      then delete_cell nb path args.cell_number disk
      else (new_error_result (concat ("unexpected edit_mode: " ∷ mode ∷ [])), disk)

  -- Execute behind the arguments.
  unfoldable pub edit_file : String → String → NotebookArgs → Disk B → ExecResult × Disk B
  edit_file mode path args disk = elim (disk.read_file path) [
    | inl e ↦ (new_error_result (concat ("cannot read notebook: " ∷ e ∷ [])), disk)
    | inr bytes ↦ elim (codec.unmarshal bytes) [
      | inl e ↦ (new_error_result (concat ("invalid notebook format: " ∷ e ∷ [])), disk)
      | inr nb ↦ edit_cells mode nb path args disk
    ]
  ]

  unfoldable pub execute_edit : (String → String ⊎ String) → B → Disk B → ExecResult × Disk B
  execute_edit resolve_path params disk = elim (codec.unmarshal_args params) [
    | inl e ↦ (new_error_result (concat ("invalid parameters: " ∷ e ∷ [])), disk)
    | inr args ↦
        if str_eq args.path ""
        then (new_error_result "path is required", disk)
        else if not (is_mode (mode_of args))
        then (
          new_error_result (
              concat (
                "invalid edit_mode: "
                ∷ mode_of args
                ∷ " (must be replace, insert, or delete)"
                ∷ [])),
          disk,
        )
        else elim (resolve_path args.path) [
          | inl e ↦ (new_error_result (concat ("cannot resolve path: " ∷ e ∷ [])), disk)
          | inr path ↦ edit_file (mode_of args) path args disk
        ]
  ]
