-- ===== src/Sandbox/Committing.antt =====
-- What the commit of a staged file (internal/sandbox/manager.go) leaves on the disk.
use vibe_local_go.Base.{
  ◌≡◌, refl, ap, String, true, Option, none, some, lookup, insert, remove, lookup-insert,
  lookup-remove, arith, if◌then◌else◌,
}
use vibe_local_go.Sandbox.{
  FilePath, path_key, same_path, StagedFile, Files, Abilities, tmp_of, dir, write_atomic,
  commit_staged,
}

-- The file can be written: its directory, its temporary file and the file itself.
pub record CanWrite (disk : Abilities) (path : FilePath) : Type 0 where
  pub makes : disk.can_make_dir (dir path) ≡ true
  pub writes : disk.can_write (tmp_of path) ≡ true
  pub renames : disk.can_rename path ≡ true

module _ (disk : Abilities) where
  write_atomic-written :
      (path : FilePath) (content : String) (files : Files)
      → CanWrite disk path
      → write_atomic disk path content files
        ≡ (true, insert path content (remove (tmp_of path) (insert (tmp_of path) content files)))
  unfolding write_atomic
  write_atomic-written path content files c = rw (write_atomic, c.makes, c.writes, c.renames) refl

  write_atomic-lookup :
      (path : FilePath) (content : String) (files : Files) (p : FilePath)
      → CanWrite disk path
      → lookup p (write_atomic disk path content files).1 ≡ (
          if same_path path p
          then some content
          else if same_path (tmp_of path) p
          then none
          else lookup p files)
  write_atomic-lookup path content files p c =
      let written = insert (tmp_of path) content files in
      ground (
        arith,
        ap (λ out. lookup p out.1) (write_atomic-written path content files c),
        lookup-insert (tmp_of path) p content files,
        lookup-remove (tmp_of path) p written,
        lookup-insert path p content (remove (tmp_of path) written),
      )

  -- What a disk holds at a path when a staged file is committed.
  abbrev pub committed_at : StagedFile → String → Files → FilePath → Option String
  committed_at s content files p =
      if same_path s.sandbox_path p
      then none
      else if same_path s.original_path p
      then some content
      else if same_path (tmp_of s.original_path) p
      then none
      else lookup p files

  -- The commit of a staged file that can be written succeeds: its original path holds the staged
  -- content, the staged file is removed, also where it is the original itself, and so is a file that
  -- has the name of the temporary one; nothing else changes.
  pub commit_staged-committed :
      (s : StagedFile) (content : String) (files : Files) (p : FilePath)
      → lookup s.sandbox_path files ≡ some content
      → CanWrite disk s.original_path
      → let out = commit_staged disk s files in
        (out.0 ≡ true) × (lookup p out.1 ≡ committed_at s content files p)
  unfolding commit_staged
  commit_staged-committed s content files p h c =
      let out = write_atomic disk s.original_path content files in
      let ok : out.0 ≡ true =
        ap (λ o. o.0) (write_atomic-written s.original_path content files c) in
      let at = write_atomic-lookup s.original_path content files p c in
      let gone = lookup-remove s.sandbox_path p out.1 in
      rw (commit_staged, h, ok) (refl, ground (arith, gone, at))
