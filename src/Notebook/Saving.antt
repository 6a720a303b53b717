-- ===== src/Notebook/Saving.antt =====
-- What Execute of internal/tool/notebook_edit.go leaves in the file.
use vibe_local_go.Base.{
  ℕ, suc, ◌<◌, ◌≡◌, refl, sym, ap, ◌∙◌, String, false, not, ◌∷◌, ◌++◌, some, ◌⊎◌, inl, inr, leb,
  str_eq, eq_iff, length, take, drop, Bool-cases, Option-cases, arith, if◌then◌else◌,
}
use vibe_local_go.Config.{ℤ, pos, negsuc}
use vibe_local_go.Tool.{ExecResult}
use vibe_local_go.Notebook.{
  Notebook, NotebookArgs, NotebookCodec, Disk, index_below, update_cell, mode_of, is_mode,
}
use vibe_local_go.Notebook.Execute.{
  conclude, out_of_range, replaced_cell, new_cell, replace_cell, insert_cell, delete_cell,
  edit_cells, edit_file, execute_edit,
}
use vibe_local_go.Notebook.Editing.{
  Sum-cases, at, take-drop, length-take, IsEdited, cell_replaced, cell_inserted, cell_deleted,
  conclude-written, replaced_cell-IsReplaced, new_cell-IsNew,
}

index_below-some : (z : ℤ) (bound n : ℕ) → index_below z bound ≡ some n → (z ≡ pos n) × (n < bound)
index_below-some (pos m) bound n h =
    let e : m ≡ n = ground (arith, h) in (ap pos e, ground (arith, h))
index_below-some (negsuc m) bound n h = absurd (ground (arith, h))

module _ {J B : Type 0} (codec : NotebookCodec J B) where
  -- The file holds a notebook that differs from the one before in the edited cells.
  pub record IsSaved (args : NotebookArgs) (path : String) (nb : Notebook J) (disk : Disk B)
      : Type 0 where
    pub after : Notebook J
    pub bytes : B
    pub encoded : codec.marshal_indent after ≡ inr bytes
    pub stored : disk.read_file path ≡ inr (codec.with_newline bytes)
    pub edited : IsEdited codec args nb.cells after.cells
    pub rest : after ≡ record nb { cells = after.cells }

  -- A result that is no error left a saved notebook.
  abbrev SavedBy : NotebookArgs → String → Notebook J → ExecResult × Disk B → Type 0
  SavedBy args path nb (r, disk) = r.is_error ≡ false → IsSaved args path nb disk

  conclude-SavedBy :
      (args : NotebookArgs) (nb after : Notebook J) (path output : String) (disk : Disk B)
      → IsEdited codec args nb.cells after.cells
      → after ≡ record nb { cells = after.cells }
      → SavedBy args path nb (conclude codec after path output disk)
  conclude-SavedBy args nb after path output disk edited rest h =
      let (bytes, encoded, stored) = conclude-written codec after path output disk h in
      record {
        after = after;
        bytes = bytes;
        encoded = encoded;
        stored = stored;
        edited = edited;
        rest = rest;
      }

  replace_cell-SavedBy :
      (args : NotebookArgs) (nb : Notebook J) (path : String) (disk : Disk B)
      → mode_of args ≡ "replace"
      → SavedBy args path nb
          (replace_cell codec nb path args.cell_number args.new_source args.cell_type disk)
  unfolding replace_cell out_of_range
  replace_cell-SavedBy args nb path disk mode =
      elim (Option-cases (index_below args.cell_number (length nb.cells))) [
        | inl e ↦ rw (replace_cell, e) λ h. absurd (ground (arith, h))
        | inr (n, e) ↦
            let (z, b) = index_below-some args.cell_number (length nb.cells) n e in
            let f = replaced_cell codec args.new_source args.cell_type in
            let a = at n f nb.cells b in
            rw (replace_cell, e)
              (conclude-SavedBy args nb (record nb { cells = update_cell n f nb.cells }) path _ disk
                (cell_replaced a.front a.here (f a.here) a.back mode (z ∙ ap pos (sym a.position))
                  (replaced_cell-IsReplaced codec args a.here) a.whole a.updated)
                refl)
      ]

  insert_cell-SavedBy :
      (args : NotebookArgs) (nb : Notebook J) (path : String) (disk : Disk B)
      → mode_of args ≡ "insert"
      → SavedBy args path nb
          (insert_cell codec nb path args.cell_number args.new_source args.cell_type disk)
  unfolding insert_cell
  insert_cell-SavedBy args nb path disk mode =
      let kind = if str_eq args.cell_type "" then "code" else args.cell_type in
      let c = new_cell codec args.new_source kind in
      elim (Option-cases (index_below args.cell_number (suc (length nb.cells)))) [
        | inl e ↦ rw (insert_cell, e) λ h. absurd (ground (arith, h))
        | inr (n, e) ↦
            let (z, b) = index_below-some args.cell_number (suc (length nb.cells)) n e in
            rw (insert_cell, e)
              (conclude-SavedBy args nb
                (record nb { cells = take n nb.cells ++ c ∷ drop n nb.cells }) path _ disk
                (cell_inserted (take n nb.cells) c (drop n nb.cells) mode
                  (z ∙ ap pos (sym (length-take n nb.cells (omega (arith, b)))))
                  (new_cell-IsNew codec args) (take-drop n nb.cells) refl)
                refl)
      ]

  delete_cell-SavedBy :
      (args : NotebookArgs) (nb : Notebook J) (path : String) (disk : Disk B)
      → mode_of args ≡ "delete"
      → SavedBy args path nb (delete_cell codec nb path args.cell_number disk)
  unfolding delete_cell out_of_range
  delete_cell-SavedBy args nb path disk mode =
      elim (Option-cases (index_below args.cell_number (length nb.cells))) [
        | inl e ↦ rw (delete_cell, e) λ h. absurd (ground (arith, h))
        | inr (n, e) ↦ elim (Bool-cases (leb (length nb.cells) 1)) [
          | inl t ↦ rw (delete_cell, e, t) λ h. absurd (ground (arith, h))
          | inr s ↦
              let (z, b) = index_below-some args.cell_number (length nb.cells) n e in
              let a = at n (λ c. c) nb.cells b in
              rw (delete_cell, e, s)
                (conclude-SavedBy args nb
                  (record nb { cells = take n nb.cells ++ drop (suc n) nb.cells }) path _ disk
                  (cell_deleted a.front a.here a.back mode (z ∙ ap pos (sym a.position)) a.whole
                    a.without (ground (arith, s)))
                  refl)
        ]
      ]

  edit_cells-SavedBy :
      (args : NotebookArgs) (nb : Notebook J) (path : String) (disk : Disk B)
      → SavedBy args path nb (edit_cells codec (mode_of args) nb path args disk)
  unfolding edit_cells
  edit_cells-SavedBy args nb path disk = elim (Bool-cases (str_eq (mode_of args) "replace")) [
    | inl t ↦
        rw (edit_cells, t)
          (replace_cell-SavedBy args nb path disk ((eq_iff (mode_of args) "replace").0 t))
    | inr r ↦ elim (Bool-cases (str_eq (mode_of args) "insert")) [
      | inl t ↦
          rw (edit_cells, r, t)
            (insert_cell-SavedBy args nb path disk ((eq_iff (mode_of args) "insert").0 t))
      | inr i ↦ elim (Bool-cases (str_eq (mode_of args) "delete")) [
        | inl t ↦
            rw (edit_cells, r, i, t)
              (delete_cell-SavedBy args nb path disk ((eq_iff (mode_of args) "delete").0 t))
        | inr d ↦ rw (edit_cells, r, i, d) λ h. absurd (ground (arith, h))
      ]
    ]
  ]

  -- The arguments, the path and the notebook of a call, and what the call saved.
  pub record IsEdit (resolve_path : String → String ⊎ String) (params : B) (before after : Disk B)
      : Type 0 where
    pub args : NotebookArgs
    pub path : String
    pub bytes : B
    pub notebook : Notebook J
    pub decoded_args : codec.unmarshal_args params ≡ inr args
    pub resolved : resolve_path args.path ≡ inr path
    pub read : before.read_file path ≡ inr bytes
    pub decoded : codec.unmarshal bytes ≡ inr notebook
    pub saved : IsSaved args path notebook after

  edit_file-IsEdit :
      (resolve_path : String → String ⊎ String) (params : B) (args : NotebookArgs) (path : String)
      (disk : Disk B)
      → codec.unmarshal_args params ≡ inr args
      → resolve_path args.path ≡ inr path
      → (edit_file codec (mode_of args) path args disk).0.is_error ≡ false
      → IsEdit resolve_path params disk (edit_file codec (mode_of args) path args disk).1
  unfolding edit_file
  edit_file-IsEdit resolve_path params args path disk a p = elim (Sum-cases (disk.read_file path)) [
    | inl (e, r) ↦ rw (edit_file, r) λ h. absurd (ground (arith, h))
    | inr (bytes, r) ↦ elim (Sum-cases (codec.unmarshal bytes)) [
      | inl (e, u) ↦ rw (edit_file, r, u) λ h. absurd (ground (arith, h))
      | inr (nb, u) ↦
          rw (edit_file, r, u)
            λ h. record {
              args = args;
              path = path;
              bytes = bytes;
              notebook = nb;
              decoded_args = a;
              resolved = p;
              read = r;
              decoded = u;
              saved = edit_cells-SavedBy args nb path disk h;
            }
    ]
  ]

  -- A call whose result is no error saved, for the notebook that the file of its path was decoded to, one
  -- with a cell replaced, inserted or deleted at the position of its arguments, and nothing else of the
  -- decoded notebook changed. The parts of a file that decoding drops, such as attachments, are not
  -- covered.
  pub execute_edit-IsEdit :
      (resolve_path : String → String ⊎ String) (params : B) (disk : Disk B)
      → (execute_edit codec resolve_path params disk).0.is_error ≡ false
      → IsEdit resolve_path params disk (execute_edit codec resolve_path params disk).1
  unfolding execute_edit
  execute_edit-IsEdit resolve_path params disk = elim (Sum-cases (codec.unmarshal_args params)) [
    | inl (e, a) ↦ rw (execute_edit, a) λ h. absurd (ground (arith, h))
    | inr (args, a) ↦ elim (Bool-cases (str_eq args.path "")) [
      | inl t ↦ rw (execute_edit, a, t) λ h. absurd (ground (arith, h))
      | inr n ↦ elim (Bool-cases (not (is_mode (mode_of args)))) [
        | inl t ↦ rw (execute_edit, a, n, t) λ h. absurd (ground (arith, h))
        | inr m ↦ elim (Sum-cases (resolve_path args.path)) [
          | inl (e, p) ↦ rw (execute_edit, a, n, m, p) λ h. absurd (ground (arith, h))
          | inr (path, p) ↦
              rw (execute_edit, a, n, m, p)
                (edit_file-IsEdit resolve_path params args path disk a p)
        ]
      ]
    ]
  ]
