-- ===== src/Notebook/Editing.antt =====
-- What an edit of internal/tool/notebook_edit.go leaves of the cells of a notebook.
use vibe_local_go.Base.{
  ℕ, zero, suc, ◌<◌, ◌≤◌, ◌≡◌, refl, ap, String, false, List, [], ◌∷◌, ◌++◌, none, some, ◌⊎◌, inl,
  inr, str_eq, eq_iff, eq_refl, length, take, drop, Bool-cases, Option-cases, arith, if◌then◌else◌,
}
use vibe_local_go.Config.{pos}
use vibe_local_go.Notebook.{
  NotebookCell, Notebook, NotebookArgs, NotebookCodec, NotebookWrite, write_done, write_error, Disk,
  split_source, update_cell, files_after, os_write_file, mode_of,
}
use vibe_local_go.Notebook.Execute.{
  write_notebook, conclude, with_cell_type, without_execution, replaced_cell, new_cell,
}
use vibe_local_go.Notebook.Source.{flatten, split_source-IsSource}

pub Sum-cases {ℓ κ} :
    {A : Type ℓ} {C : Type κ} (s : A ⊎ C) → ((a : A) × (s ≡ inl a)) ⊎ ((c : C) × (s ≡ inr c))
Sum-cases (inl a) = inl (a, refl)
Sum-cases (inr c) = inr (c, refl)

-- A list taken apart at a position.
pub record At {ℓ} {A : Type ℓ} (n : ℕ) (f : A → A) (cs : List A) : Type ℓ where
  pub front : List A
  pub here : A
  pub back : List A
  pub position : length front ≡ n
  pub whole : cs ≡ front ++ here ∷ back
  pub updated : update_cell n f cs ≡ front ++ f here ∷ back
  pub without : take n cs ++ drop (suc n) cs ≡ front ++ back

pub at {ℓ} : {A : Type ℓ} (n : ℕ) (f : A → A) (cs : List A) → n < length cs → At n f cs
at n f [] h = elim h [ ]
at zero f (c ∷ cs) h = record {
  front = [];
  here = c;
  back = cs;
  position = refl;
  whole = refl;
  updated = refl;
  without = refl;
}
at (suc n) f (c ∷ cs) h =
    let a = at n f cs (omega arith) in
    record {
      front = c ∷ a.front;
      here = a.here;
      back = a.back;
      position = omega (arith, a.position);
      whole = ap (λ l. c ∷ l) a.whole;
      updated = ap (λ l. c ∷ l) a.updated;
      without = ap (λ l. c ∷ l) a.without;
    }

pub take-drop {ℓ} : {A : Type ℓ} (n : ℕ) (cs : List A) → cs ≡ take n cs ++ drop n cs
take-drop zero cs = refl
take-drop (suc n) [] = refl
take-drop (suc n) (c ∷ cs) = ap (λ l. c ∷ l) (take-drop n cs)

pub length-take {ℓ} : {A : Type ℓ} (n : ℕ) (cs : List A) → n ≤ length cs → length (take n cs) ≡ n
length-take zero cs h = refl
length-take (suc n) [] h = elim h [ ]
length-take (suc n) (c ∷ cs) h = omega (arith, length-take n cs (omega arith))

written-lem :
    {B : Type 0} (path : String) (bytes : B) (ws : List (NotebookWrite B))
    (files : String → String ⊎ B)
    → (files_after path bytes ws files).0 ≡ none
    → (files_after path bytes ws files).1 path ≡ inr bytes
written-lem path bytes [] files h = rw (eq_refl path) refl
written-lem path bytes (write_done ∷ ws) files h = rw (eq_refl path) refl
written-lem path bytes (write_error e none ∷ ws) files h = absurd (ground arith)
written-lem path bytes (write_error e (some part) ∷ ws) files h = absurd (ground arith)

module _ {J B : Type 0} (codec : NotebookCodec J B) where
  -- A cell with a new source: it keeps its ID and metadata, and its type where none is asked for. A code
  -- cell has no execution left.
  pub record IsReplaced (args : NotebookArgs) (c c' : NotebookCell J) : Type 0 where
    pub kept : (c'.id ≡ c.id) × (c'.metadata ≡ c.metadata)
    pub text : flatten c'.source ≡ args.new_source
    pub kind : c'.cell_type ≡ (if str_eq args.cell_type "" then c.cell_type else args.cell_type)
    pub no_run :
        c'.cell_type ≡ "code" → (c'.execution_count ≡ none) × (c'.outputs ≡ some codec.empty_array)

  pub record IsNew (args : NotebookArgs) (c : NotebookCell J) : Type 0 where
    pub text : flatten c.source ≡ args.new_source
    pub kind : c.cell_type ≡ (if str_eq args.cell_type "" then "code" else args.cell_type)
    pub no_run : c.execution_count ≡ none

  -- The cells before and after an edit: what stands in front of the position and behind it stays.
  pub data IsEdited (args : NotebookArgs) (before after : List (NotebookCell J)) : Type 0 where
    cell_replaced :
        (front : List (NotebookCell J)) (c c' : NotebookCell J) (back : List (NotebookCell J))
        → mode_of args ≡ "replace"
        → args.cell_number ≡ pos (length front)
        → IsReplaced args c c'
        → before ≡ front ++ c ∷ back
        → after ≡ front ++ c' ∷ back
        → IsEdited args before after
    cell_inserted :
        (front : List (NotebookCell J)) (c : NotebookCell J) (back : List (NotebookCell J))
        → mode_of args ≡ "insert"
        → args.cell_number ≡ pos (length front)
        → IsNew args c
        → before ≡ front ++ back
        → after ≡ front ++ c ∷ back
        → IsEdited args before after
    cell_deleted :
        (front : List (NotebookCell J)) (c : NotebookCell J) (back : List (NotebookCell J))
        → mode_of args ≡ "delete"
        → args.cell_number ≡ pos (length front)
        → before ≡ front ++ c ∷ back
        → after ≡ front ++ back
        → 2 ≤ length before
        → IsEdited args before after

  pub conclude-written :
      (nb : Notebook J) (path output : String) (disk : Disk B)
      → (conclude codec nb path output disk).0.is_error ≡ false
      → (bytes : B) × (codec.marshal_indent nb ≡ inr bytes)
        × ((conclude codec nb path output disk).1.read_file path ≡ inr (codec.with_newline bytes))
  unfolding conclude write_notebook os_write_file
  conclude-written nb path output disk h = elim (Sum-cases (codec.marshal_indent nb)) [
    | inl (e, m) ↦ absurd (ground (arith, h, m))
    | inr (bytes, m) ↦
        elim (Option-cases
          (files_after path (codec.with_newline bytes) disk.writes disk.read_file).0) [
            | inl n ↦ (
              bytes,
              m,
              rw (conclude, write_notebook, m, os_write_file, n)
                  (written-lem path (codec.with_newline bytes) disk.writes disk.read_file n),
            )
            | inr (e, s) ↦ absurd (ground (arith, h, m, s))
          ]
  ]

  no_execution :
      (c : NotebookCell J)
      → (without_execution codec c).cell_type ≡ "code"
      → ((without_execution codec c).execution_count ≡ none)
        × ((without_execution codec c).outputs ≡ some codec.empty_array)
  unfolding without_execution
  no_execution c h = elim (Bool-cases (str_eq c.cell_type "code")) [
    | inl t ↦ rw (without_execution, t) (refl, refl)
    | inr f ↦
        let is_code = (eq_iff c.cell_type "code").1 (ground (arith, h, f)) in
        absurd (ground (arith, is_code, f))
  ]

  pub replaced_cell-IsReplaced :
      (args : NotebookArgs) (c : NotebookCell J)
      → IsReplaced args c (replaced_cell codec args.new_source args.cell_type c)
  unfolding replaced_cell with_cell_type without_execution
  replaced_cell-IsReplaced args c = record {
    kept = (ground arith, ground arith);
    text = ground (arith, (split_source-IsSource args.new_source).whole);
    kind = ground arith;
    no_run =
        no_execution (
          with_cell_type codec args.cell_type (record c { source = split_source args.new_source }));
  }

  pub new_cell-IsNew :
      (args : NotebookArgs)
      → IsNew args (
          new_cell codec args.new_source
            (if str_eq args.cell_type "" then "code" else args.cell_type))
  unfolding new_cell
  new_cell-IsNew args = record {
    text = (split_source-IsSource args.new_source).whole;
    kind = refl;
    no_run = refl;
  }
