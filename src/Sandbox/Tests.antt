-- ===== src/Sandbox/Tests.antt =====
-- Files that are staged and committed (internal/sandbox/manager.go), and the theorems about them.
use vibe_local_go.Base.{
  none, ◌≡◌, refl, String, Bool, true, false, not, List, [], ◌∷◌, Option, some, lookup, insert,
  remove, codes, has_prefix,
}
use vibe_local_go.Sandbox.{
  FilePath, path_key, Manager, StagedFile, Files, Abilities, same_path, to_sandbox_path,
  write_atomic, stage, commit_staged, commit_all, commit, commit_file,
}
use vibe_local_go.Sandbox.Diff.{old, new, lines_of, diff_lines}
use vibe_local_go.Sandbox.Staging.{stage-outside}
use vibe_local_go.Sandbox.Committing.{committed_at, commit_staged-committed}

-- A disk that lets everything happen, and one on which /p/b cannot be replaced.
abbrev able : Abilities
able = record {
  can_make_dir = λ path. true;
  can_write = λ path. true;
  part_of = λ path. none;
  can_rename = λ path. true;
}

abbrev half_able : Abilities
half_able = record able { can_rename = λ path. not (same_path path ("p" ∷ "b" ∷ [])) }

abbrev manager : Manager
manager = record { project_dir = "p" ∷ []; enabled = true; staged = [] }

abbrev a : FilePath
a = "p" ∷ "a" ∷ []

abbrev files : Files
files = (a, "1") ∷ []

-- A file is staged by its path within the sandbox, and committed: it is on the disk no more.
lost_file :
    let (ok, m, staged) = stage able ("p" ∷ ".vibe-sandbox" ∷ "c" ∷ []) "3" manager files in
    (commit_file able (".vibe-sandbox" ∷ "c" ∷ []) m staged).2 ≡ files
unfolding stage to_sandbox_path write_atomic commit_file commit_staged lookup insert remove
    has_prefix
lost_file = refl

abbrev two_staged : Manager × Files
two_staged =
    let (ok, m, staged) = stage able a "2" manager files in
    let (ok', m', staged') = stage able ("p" ∷ "b" ∷ []) "4" m staged in (m', staged')

-- The outcomes of a commit and of the next, with what the project holds between them.
abbrev two_commits : Bool × List FilePath × Option String × Bool × List FilePath
two_commits =
    let (ok, paths, m, left) = commit half_able two_staged.0 two_staged.1 in
    let (ok', paths', m', left') = commit able m left in (ok, paths, lookup a left, ok', paths')

abbrev stuck_at_first : Bool × List FilePath × Option String × Bool × List FilePath
stuck_at_first = (false, ("a" ∷ []) ∷ [], some "2", false, [])

-- A commit fails at the second file. All stays staged, and the next commit fails at the first file,
-- which is committed already.
stuck : two_commits ≡ stuck_at_first
unfolding stage to_sandbox_path write_atomic commit commit_all commit_staged lookup insert remove
    has_prefix
stuck = refl

-- One line is put in front, and the rest counts as removed and added.
coarse :
    diff_lines (lines_of (codes "a\nb")) (lines_of (codes "x\na\nb"))
    ≡ old (codes "a") ∷ old (codes "b") ∷ new (codes "x") ∷ new (codes "a") ∷ new (codes "b") ∷ []
unfolding diff_lines lines_of
coarse = refl

abbrev staged_c : StagedFile
staged_c = record {
  original_path = a;
  sandbox_path = "p" ∷ ".vibe-sandbox" ∷ "a" ∷ [];
  relative_path = "a" ∷ [];
  is_new = false;
}

abbrev with_staged : Files
with_staged = (a, "1") ∷ ("p" ∷ ".vibe-sandbox" ∷ "a" ∷ [], "2") ∷ []

stage-outside_example : lookup a (stage able a "2" manager files).2 ≡ lookup a files
stage-outside_example = stage-outside able a "2" manager files a refl refl

commit_staged-committed_example :
    let out = commit_staged able staged_c with_staged in
    (out.0 ≡ true) × (lookup a out.1 ≡ committed_at able staged_c "2" with_staged a)
unfolding lookup
commit_staged-committed_example =
    commit_staged-committed able staged_c "2" with_staged a refl
      (record { makes = refl; writes = refl; renames = refl })
