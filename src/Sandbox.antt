-- ===== src/Sandbox.antt =====
-- internal/sandbox/manager.go: files that are staged in a directory of the project before they are
-- committed to it. A clean absolute path is the list of its names, and so is a path relative to the
-- project. The files of the disk are a map from paths to contents; whether a directory can be made, a
-- file be written and be moved is an argument, and os.Remove removes.
pub mod Diff
pub mod Staging
pub mod Committing
mod Tests
use vibe_local_go.Base.{
  ℕ, ◌≡◌, ◌↔◌, refl, subst, String, Bool, true, false, not, ◌&&◌, ◌||◌, List, [], ◌∷◌, ◌++◌, Option,
  none, some, Eq, string_key, lookup, insert, remove, str_eq, concat, has_prefix, arith, map,
  length, eq_iff, if◌then◌else◌,
}

abbrev pub FilePath : Type 0
FilePath = List String

abbrev pub same_path : FilePath → FilePath → Bool
same_path [] [] = true
same_path (a ∷ p) (b ∷ q) = str_eq a b && same_path p q
same_path _ _ = false

pub same_path_refl : (p : FilePath) → same_path p p ≡ true
same_path_refl [] = refl
same_path_refl (a ∷ p) = ground (arith, (eq_iff a a).1 refl, same_path_refl p)

pub same_path-eq : (p q : FilePath) → same_path p q ≡ true → p ≡ q
same_path-eq [] [] h = refl
same_path-eq [] (b ∷ q) h = absurd (ground (arith, h))
same_path-eq (a ∷ p) [] h = absurd (ground (arith, h))
same_path-eq (a ∷ p) (b ∷ q) h =
    let names : a ≡ b = (eq_iff a b).0 (ground (arith, h)) in
    let rest = same_path-eq p q (ground (arith, h)) in λ i. names i ∷ rest i

instance abbrev pub path_key : Eq FilePath
path_key = record {
  beq = same_path;
  beq_iff = λ p q. (same_path-eq p q, λ e. subst (λ x. same_path p x ≡ true) e (same_path_refl p));
}

abbrev pub sandbox_name : String
sandbox_name = ".vibe-sandbox"

pub record StagedFile : Type 0 where
  pub original_path : FilePath
  pub sandbox_path : FilePath
  pub relative_path : FilePath
  pub is_new : Bool

pub record Manager : Type 0 where
  pub project_dir : FilePath
  pub enabled : Bool
  pub staged : List (FilePath × StagedFile)

abbrev pub Files : Type 0
Files = List (FilePath × String)

-- What the file system lets happen.
pub record Abilities : Type 0 where
  pub can_make_dir : FilePath → Bool
  pub can_write : FilePath → Bool
  pub part_of : FilePath → Option String
  pub can_rename : FilePath → Bool

abbrev pub sandbox_dir : Manager → FilePath
sandbox_dir m = m.project_dir ++ sandbox_name ∷ []

-- What is left of a path behind another one that begins it.
abbrev pub strip : FilePath → FilePath → Option FilePath
strip [] p = some p
strip (d ∷ ds) [] = none
strip (d ∷ ds) (n ∷ ns) = if str_eq d n then strip ds ns else none

-- path + ".tmp"
abbrev pub tmp_of : FilePath → FilePath
tmp_of [] = ".tmp" ∷ []
tmp_of (n ∷ []) = concat (n ∷ ".tmp" ∷ []) ∷ []
tmp_of (n ∷ m ∷ ns) = n ∷ tmp_of (m ∷ ns)

-- filepath.Dir
abbrev pub dir : FilePath → FilePath
dir [] = []
dir (n ∷ []) = []
dir (n ∷ m ∷ ns) = n ∷ dir (m ∷ ns)

-- A path below the sandbox is that of the project; the sandbox itself is refused.
abbrev pub unnested : Manager → FilePath → Option FilePath
unnested m path = elim (strip (sandbox_dir m) path) [
  | none ↦ some path
  | some rest ↦ elim rest [ [] ↦ none | n ∷ ns ↦ some (m.project_dir ++ n ∷ ns) ]
]

-- The prefix of the sandbox is removed once more.
abbrev pub unprefixed : FilePath → FilePath
unprefixed [] = []
unprefixed (n ∷ []) = n ∷ []
unprefixed (n ∷ k ∷ ns) = if str_eq n sandbox_name then k ∷ ns else n ∷ k ∷ ns

-- strings.HasPrefix(relPath, "..")
abbrev pub leads_up : FilePath → Bool
leads_up [] = false
leads_up (n ∷ ns) = has_prefix n ".."

-- ToSandboxPath; `none` is an error.
unfoldable pub to_sandbox_path : Manager → FilePath → Option FilePath
to_sandbox_path m path = elim (unnested m path) [
  | none ↦ none
  | some inner ↦ elim (strip m.project_dir inner) [
    | none ↦ none
    | some rel ↦ if leads_up rel then none else some (sandbox_dir m ++ unprefixed rel)
  ]
]

-- What a WriteFile that fails leaves of its file.
abbrev pub left_over : Option String → FilePath → Files → Files
left_over none path files = files
left_over (some part) path files = insert path part files

module _ (disk : Abilities) where
  -- MkdirAll of the directory, WriteFile of the temporary file, Rename: whether it succeeded.
  unfoldable pub write_atomic : FilePath → String → Files → Bool × Files
  write_atomic path content files =
      let written = insert (tmp_of path) content files in
      let moved = remove (tmp_of path) written in
      if not (disk.can_make_dir (dir path))
      then (false, files)
      else if not (disk.can_write (tmp_of path))
      then (false, left_over (disk.part_of (tmp_of path)) (tmp_of path) files)
      else if not (disk.can_rename path)
      then (false, moved)
      else (true, insert path content moved)

  is_missing : Option String → Bool
  is_missing none = true
  is_missing (some content) = false

  -- relPath
  abbrev pub relative : Manager → FilePath → FilePath
  relative m path = elim (strip m.project_dir path) [ none ↦ path | some rel ↦ rel ]

  -- Stage of an absolute path: whether it succeeded.
  unfoldable pub stage : FilePath → String → Manager → Files → Bool × Manager × Files
  unfolding to_sandbox_path write_atomic is_missing
  stage path content m files = elim (to_sandbox_path m path) [
    | none ↦ (false, m, files)
    | some target ↦
        let (ok, files') = write_atomic target content files in
        elim ok [
          | false ↦ (false, m, files')
          | true ↦ (
            true,
            record m {
              staged =
                  insert (relative m path)
                    (record {
                      original_path = path;
                      sandbox_path = target;
                      relative_path = relative m path;
                      is_new = is_missing (lookup path files');
                    })
                    m.staged;
            },
            files',
          )
        ]
  ]

  -- commitFile
  unfoldable pub commit_staged : StagedFile → Files → Bool × Files
  unfolding write_atomic
  commit_staged s files = elim (lookup s.sandbox_path files) [
    | none ↦ (false, files)
    | some content ↦
        let (ok, files') = write_atomic s.original_path content files in
        elim ok [ false ↦ (false, files') | true ↦ (true, remove s.sandbox_path files') ]
  ]

  -- The loop of Commit: the relative paths that were committed before an error.
  unfoldable pub commit_all : List (FilePath × StagedFile) → Files → Bool × List FilePath × Files
  unfolding commit_staged
  commit_all [] files = (true, [], files)
  commit_all ((rel, s) ∷ rest) files =
      let (ok, files') = commit_staged s files in
      elim ok [
        | false ↦ (false, [], files')
        | true ↦ let (done, paths, files'') = commit_all rest files' in (done, rel ∷ paths, files'')
      ]

  unfoldable pub commit : Manager → Files → Bool × List FilePath × Manager × Files
  unfolding commit_all
  commit m files =
      let (done, paths, files') = commit_all m.staged files in
      (done, paths, (if done then record m { staged = [] } else m), files')

  unfoldable pub commit_file : FilePath → Manager → Files → Bool × Manager × Files
  unfolding commit_staged
  commit_file rel m files = elim (lookup rel m.staged) [
    | none ↦ (false, m, files)
    | some s ↦
        let (ok, files') = commit_staged s files in
        (ok, (if ok then record m { staged = remove rel m.staged } else m), files')
  ]

unfoldable pub discard_all : List (FilePath × StagedFile) → Files → Files
discard_all [] files = files
discard_all ((rel, s) ∷ rest) files = discard_all rest (remove s.sandbox_path files)

unfoldable pub discard : Manager → Files → Manager × Files
unfolding discard_all
discard m files = (record m { staged = [] }, discard_all m.staged files)

unfoldable pub discard_file : FilePath → Manager → Files → Bool × Manager × Files
discard_file rel m files = elim (lookup rel m.staged) [
  | none ↦ (false, m, files)
  | some s ↦ (true, record m { staged = remove rel m.staged }, remove s.sandbox_path files)
]

abbrev pub staged_count : Manager → ℕ
staged_count m = length m.staged
