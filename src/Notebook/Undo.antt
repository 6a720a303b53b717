-- ===== src/Notebook/Undo.antt =====
-- Inserting a cell and deleting it again (internal/tool/notebook_edit.go).
use vibe_local_go.Base.{
  ℕ, zero, suc, ◌≤◌, ◌≡◌, refl, ap, String, false, List, [], ◌∷◌, ◌++◌, some, ◌⊎◌, inr, leb, str_eq,
  eq_refl, length, take, drop, concat, decimal, arith, if◌then◌else◌,
}
use vibe_local_go.Config.{pos}
use vibe_local_go.Notebook.{
  Notebook, NotebookArgs, NotebookCodec, Disk, int_text, index_below, put_file, new_result,
  os_write_file,
}
use vibe_local_go.Notebook.Execute.{
  write_notebook, conclude, new_cell, insert_cell, delete_cell, edit_cells, edit_file,
}

length-inserted {ℓ} :
    {A : Type ℓ} (n : ℕ) (c : A) (cs : List A)
    → n ≤ length cs
    → length (take n cs ++ c ∷ drop n cs) ≡ suc (length cs)
length-inserted zero c cs h = refl
length-inserted (suc n) c [] h = elim h [ ]
length-inserted (suc n) c (x ∷ cs) h = ap suc (length-inserted n c cs (omega arith))

delete-inserted {ℓ} :
    {A : Type ℓ} (n : ℕ) (c : A) (cs : List A)
    → n ≤ length cs
    → take n (take n cs ++ c ∷ drop n cs) ++ drop (suc n) (take n cs ++ c ∷ drop n cs) ≡ cs
delete-inserted zero c cs h = refl
delete-inserted (suc n) c [] h = elim h [ ]
delete-inserted (suc n) c (x ∷ cs) h = ap (λ l. x ∷ l) (delete-inserted n c cs (omega arith))

module _ {J B : Type 0} (codec : NotebookCodec J B) where
  -- Every notebook is encoded, and what is written is read back as the same notebook.
  pub record IsFaithful : Type 0 where
    pub encode : Notebook J → B
    pub encodes : (nb : Notebook J) → codec.marshal_indent nb ≡ inr (encode nb)
    pub decodes : (nb : Notebook J) → codec.unmarshal (codec.with_newline (encode nb)) ≡ inr nb

  -- A disk whose writes succeed, and the one whose file holds a notebook.
  abbrev pub disk_of : (String → String ⊎ B) → Disk B
  disk_of files = record { read_file = files; writes = [] }

  abbrev pub holding : IsFaithful → Notebook J → String → (String → String ⊎ B) → Disk B
  holding faithful nb path files = record {
    read_file = put_file path (codec.with_newline (faithful.encode nb)) files;
    writes = [];
  }

  conclude-holding :
      (faithful : IsFaithful) (nb : Notebook J) (path output : String) (files : String → String ⊎ B)
      → conclude codec nb path output (disk_of files)
        ≡ (new_result output, holding faithful nb path files)
  unfolding conclude write_notebook os_write_file
  conclude-holding faithful nb path output files =
      rw (conclude, write_notebook, faithful.encodes nb, os_write_file) refl

  abbrev kind_of : NotebookArgs → String
  kind_of args = if str_eq args.cell_type "" then "code" else args.cell_type

  abbrev inserted : ℕ → NotebookArgs → Notebook J → Notebook J
  inserted n args nb = record nb {
    cells = take n nb.cells ++ new_cell codec args.new_source (kind_of args) ∷ drop n nb.cells;
  }

  insert-holding :
      (faithful : IsFaithful) (nb : Notebook J) (path : String) (args : NotebookArgs) (n : ℕ)
      (bytes : B) (files : String → String ⊎ B)
      → files path ≡ inr bytes
      → codec.unmarshal bytes ≡ inr nb
      → index_below args.cell_number (suc (length nb.cells)) ≡ some n
      → (output : String) × (edit_file codec "insert" path args (disk_of files)
          ≡ (new_result output, holding faithful (inserted n args nb) path files))
  unfolding edit_file edit_cells insert_cell
  insert-holding faithful nb path args n bytes files r u z = (
    concat (
        "Inserted new "
        ∷ kind_of args
        ∷ " cell at position "
        ∷ int_text args.cell_number
        ∷ " in "
        ∷ path
        ∷ []),
    rw (edit_file, r, u, edit_cells, insert_cell, z)
        (conclude-holding faithful (inserted n args nb) path _ files),
  )

  delete-holding :
      (faithful : IsFaithful) (nb : Notebook J) (path : String) (args : NotebookArgs) (n : ℕ)
      (bytes : B) (files : String → String ⊎ B)
      → files path ≡ inr bytes
      → codec.unmarshal bytes ≡ inr nb
      → index_below args.cell_number (length nb.cells) ≡ some n
      → 2 ≤ length nb.cells
      → (output : String) × (edit_file codec "delete" path args (disk_of files) ≡ (
        new_result output,
        holding faithful
            (record nb { cells = take n nb.cells ++ drop (suc n) nb.cells })
            path
            files,
      ))
  unfolding edit_file edit_cells delete_cell
  delete-holding faithful nb path args n bytes files r u z two =
      let more : leb (length nb.cells) 1 ≡ false = ground (arith, two) in
      (
        concat (
            "Deleted cell "
            ∷ int_text args.cell_number
            ∷ " from "
            ∷ path
            ∷ " (now "
            ∷ decimal (length (take n nb.cells ++ drop (suc n) nb.cells))
            ∷ " cells)"
            ∷ []),
        rw (edit_file, r, u, edit_cells, delete_cell, z, more)
            (conclude-holding faithful _ path _ files),
      )

  -- A cell that is inserted into a notebook with cells and deleted at the same position leaves in the
  -- file the encoding of the notebook that the file was first decoded to, where writing succeeds and
  -- what is written is read back. The parts of the file that decoding drops are not covered.
  pub insert_delete-holding :
      (faithful : IsFaithful) (nb : Notebook J) (path : String) (args : NotebookArgs) (n : ℕ)
      (bytes : B) (files : String → String ⊎ B)
      → files path ≡ inr bytes
      → codec.unmarshal bytes ≡ inr nb
      → args.cell_number ≡ pos n
      → n ≤ length nb.cells
      → 1 ≤ length nb.cells
      → let first = edit_file codec "insert" path args (disk_of files) in
        let second = edit_file codec "delete" path args first.1 in
        (first.0.is_error ≡ false)
        × (second.0.is_error ≡ false)
        × (second.1.read_file path ≡ inr (codec.with_newline (faithful.encode nb)))
  insert_delete-holding faithful nb path args n bytes files r u z b some_cell =
      let added = inserted n args nb in
      let number = length-inserted n (new_cell codec args.new_source (kind_of args)) nb.cells b in
      let (out, first) =
        insert-holding faithful nb path args n bytes files r u (rw (z) (ground (arith, b))) in
      let (out', second) =
        delete-holding faithful added path args n (codec.with_newline (faithful.encode added))
          (put_file path (codec.with_newline (faithful.encode added)) files)
          (rw (eq_refl path) refl) (faithful.decodes added) (rw (z, number) (ground (arith, b)))
          (omega (arith, number, some_cell)) in
      let same = delete-inserted n (new_cell codec args.new_source (kind_of args)) nb.cells b in
      rw (first, second, same) (refl, refl, rw (eq_refl path) refl)
