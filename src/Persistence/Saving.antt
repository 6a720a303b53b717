-- ===== src/Persistence/Saving.antt =====
-- What SaveSession (internal/session/persistence.go) leaves in the files, however its writes go.
use vibe_local_go.Base.{
  ℕ, ◌≡◌, refl, ap, subst, ◌∙◌, Bool, true, false, ◌&&◌, List, [], ◌∷◌, Option, none, some, lookup,
  insert, remove, string_key, ltb, lookup-insert, lookup-remove, Bool-cases, inl, inr, arith,
  if◌then◌else◌,
}
use vibe_local_go.Persistence.{
  FileName, same_name, same_name_iff, name_key, FileEntry, Codec, World, pure, WriteOutcome,
  written, write_failed, rename_failed, set_mu, write_by, write_next, write_session_file,
  SaveResult, saved, too_large, not_written, index_not_saved, max_session_size,
}
use vibe_local_go.Persistence.Manager.{
  index_entries, session_bytes, enter, save_index, save_written, save_unlocked, save_session,
}
use vibe_local_go.Persistence.Locks.{IsUnlocked, >>=-eq, locked-eq}

abbrev pub is_temporary : FileName → Bool
is_temporary (FileName.temp_file id) = true
is_temporary FileName.index_temp = true
is_temporary _ = false

other_temp :
    (tmp name : FileName)
    → is_temporary tmp ≡ true
    → is_temporary name ≡ false
    → same_name tmp name ≡ false
other_temp tmp name t n = ground (arith, same_name_iff tmp name)

module _ {B : Type 0} where
  abbrev pub is_written : WriteOutcome B → Bool
  is_written written = true
  is_written _ = false

  abbrev pub first : List (WriteOutcome B) → WriteOutcome B
  first [] = written
  first (o ∷ os) = o

  abbrev pub rest : List (WriteOutcome B) → List (WriteOutcome B)
  rest [] = []
  rest (o ∷ os) = os

  abbrev pub entry_of : B → World B → FileEntry B
  entry_of bytes w = record { contents = bytes; modified = w.now }

  abbrev pub HasFiles : World B → (FileName → Option (FileEntry B)) → Type 0
  HasFiles w f = (name : FileName) → is_temporary name ≡ false → lookup name w.files ≡ f name

  -- What a write leaves at a name, if it succeeds or fails.
  abbrev pub file_after : Bool → FileName → B → World B → FileName → Option (FileEntry B)
  file_after done path bytes w name =
      if done && same_name path name then some (entry_of bytes w) else lookup name w.files

  record Wrote (done : Bool) (path : FileName) (bytes : B) (w w' : World B) : Type 0 where
    files : HasFiles w' (file_after done path bytes w)
    frame :
        (g : List (FileName × FileEntry B)) (os : List (WriteOutcome B))
        → record w' { files = g; outcomes = os } ≡ record w { files = g; outcomes = os }

  write_by-Wrote :
      (o : WriteOutcome B) (path tmp : FileName) (bytes : B) (w : World B)
      → is_temporary tmp ≡ true
      → (w' : World B) × (write_by o path tmp bytes w ≡ some (is_written o, w'))
        × (w'.outcomes ≡ w.outcomes)
        × Wrote (is_written o) path bytes w w'
  unfolding write_by
  write_by-Wrote written path tmp bytes w t = (
    _,
    refl,
    refl,
    record {
      files = λ name n.
          lookup-insert path name (entry_of bytes w) (remove tmp w.files)
          ∙ rw (lookup-remove tmp name w.files) (rw (other_temp tmp name t n) refl);
      frame = λ g os. refl;
    },
  )
  write_by-Wrote (write_failed none) path tmp bytes w t =
      (w, refl, refl, record { files = λ name n. refl; frame = λ g os. refl })
  write_by-Wrote (write_failed (some part)) path tmp bytes w t = (
    _,
    refl,
    refl,
    record {
      files = λ name n.
          lookup-insert tmp name (entry_of part w) w.files ∙ rw (other_temp tmp name t n) refl;
      frame = λ g os. refl;
    },
  )
  write_by-Wrote rename_failed path tmp bytes w t = (
    _,
    refl,
    refl,
    record {
      files = λ name n.
          lookup-insert tmp name (entry_of bytes w) w.files ∙ rw (other_temp tmp name t n) refl;
      frame = λ g os. refl;
    },
  )

  write_next-Wrote :
      (os : List (WriteOutcome B)) (path tmp : FileName) (bytes : B) (w : World B)
      → w.outcomes ≡ os
      → is_temporary tmp ≡ true
      → (w' : World B) × (write_next os path tmp bytes w ≡ some (is_written (first os), w'))
        × (w'.outcomes ≡ rest os)
        × Wrote (is_written (first os)) path bytes w w'
  unfolding write_next
  write_next-Wrote [] path tmp bytes w e t =
      let (w', r, same, wrote) = write_by-Wrote written path tmp bytes w t in
      (w', r, same ∙ e, wrote)
  write_next-Wrote (o ∷ os) path tmp bytes w e t =
      let (w', r, same, wrote) = write_by-Wrote o path tmp bytes (record w { outcomes = os }) t in
      (w', r, same, record { files = wrote.files; frame = wrote.frame })

  write-Wrote :
      (path tmp : FileName) (bytes : B) (w : World B)
      → is_temporary tmp ≡ true
      → (w' : World B) × (write_session_file path tmp bytes w
          ≡ some (is_written (first w.outcomes), w'))
        × (w'.outcomes ≡ rest w.outcomes)
        × Wrote (is_written (first w.outcomes)) path bytes w w'
  unfolding write_session_file
  write-Wrote path tmp bytes w t = write_next-Wrote w.outcomes path tmp bytes w refl t

module _ {B : Type 0} (codec : Codec B) where
  -- How SaveSession ends, by the size of the session and by its two writes.
  abbrev pub save_result : ℕ → World B → SaveResult
  save_result p w =
      if ltb max_session_size (codec.size (session_bytes codec p w))
      then too_large
      else if is_written (first w.outcomes)
      then (if is_written (first (rest w.outcomes)) then saved else index_not_saved)
      else not_written

  -- The index that is saved with a session.
  abbrev pub index_bytes : ℕ → World B → B
  index_bytes p w =
      codec.encode_index (index_entries w.now (insert w.project (w.heap p).id w.index))

  -- What stands at a name behind a call of SaveSession with this end.
  abbrev pub file_behind : SaveResult → ℕ → World B → FileName → Option (FileEntry B)
  file_behind too_large p w name = lookup name w.files
  file_behind not_written p w name = lookup name w.files
  file_behind index_not_saved p w name =
      file_after true (FileName.session_file (w.heap p).id) (session_bytes codec p w) w name
  file_behind saved p w name =
      if same_name FileName.index_file name
      then some (entry_of (index_bytes p w) w)
      else file_after true (FileName.session_file (w.heap p).id) (session_bytes codec p w) w name

  pub record Saves (p : ℕ) (r : SaveResult) (w w' : World B) : Type 0 where
    pub files : HasFiles w' (file_behind r p w)
    pub index : r ≡ saved → w'.index ≡ insert w.project (w.heap p).id w.index
    pub project : w'.project ≡ w.project

  abbrev end_of : Bool → Bool → SaveResult
  end_of done indexed = if done then (if indexed then saved else index_not_saved) else not_written

  index-Saves :
      (p : ℕ) (b : Bool) (w v w' : World B)
      → Wrote true (FileName.session_file (w.heap p).id) (session_bytes codec p w) w v
      → Wrote b FileName.index_file (index_bytes p v) (enter p v) w'
      → Saves p (end_of true b) w w'
  index-Saves p true w v w' one two = record {
    files = λ name n.
        two.files name n
        ∙ ap (λ e. if same_name FileName.index_file name then some e else lookup name v.files)
            (ap (λ x. entry_of (index_bytes p x) x) (one.frame [] []))
        ∙ ap
            (λ o.
              if same_name FileName.index_file name then some (entry_of (index_bytes p w) w) else o)
            (one.files name n);
    index = λ e.
        ap (λ x. x.index) (two.frame [] [])
        ∙ ap (λ x. insert x.project (x.heap p).id x.index) (one.frame [] []);
    project = ap (λ x. x.project) (two.frame [] []) ∙ ap (λ x. x.project) (one.frame [] []);
  }
  index-Saves p false w v w' one two = record {
    files = λ name n. two.files name n ∙ one.files name n;
    index = λ e. cc;
    project = ap (λ x. x.project) (two.frame [] []) ∙ ap (λ x. x.project) (one.frame [] []);
  }

  save_written-Saves :
      (p : ℕ) (done : Bool) (w v : World B)
      → Wrote done (FileName.session_file (w.heap p).id) (session_bytes codec p w) w v
      → (w' : World B) × (save_written codec p done v
          ≡ some (end_of done (is_written (first v.outcomes)), w'))
        × Saves p (end_of done (is_written (first v.outcomes))) w w'
  unfolding save_written save_index
  save_written-Saves p false w v wrote = (
    v,
    refl,
    record {
      files = wrote.files;
      index = λ e. cc;
      project = ap (λ x. x.project) (wrote.frame [] []);
    },
  )
  save_written-Saves p true w v wrote =
      let (w', e, _, two) =
        write-Wrote FileName.index_file FileName.index_temp (index_bytes p v) (enter p v) refl in
      (
        w',
        >>=-eq (save_index codec) (λ done. pure (if done then saved else index_not_saved))
            (enter p v) e,
        index-Saves p (is_written (first v.outcomes)) w v w' wrote two,
      )

  save_unlocked-Saves :
      (p : ℕ) (w : World B)
      → (w' : World B) × (save_unlocked codec p w ≡ some (save_result p w, w'))
        × Saves p (save_result p w) w w'
  unfolding save_unlocked
  save_unlocked-Saves p w =
      elim (Bool-cases (ltb max_session_size (codec.size (session_bytes codec p w)))) [
        | inl t ↦ (
          w,
          rw t refl,
          rw t (record { files = λ name n. refl; index = λ e. cc; project = refl }),
        )
        | inr f ↦
            let id = (w.heap p).id in
            let (v, e, left, wrote) =
              write-Wrote (FileName.session_file id) (FileName.temp_file id)
                (session_bytes codec p w) w refl in
            let (w', e', saves) = save_written-Saves p (is_written (first w.outcomes)) w v wrote in
            let ended =
              ap (λ os. end_of (is_written (first w.outcomes)) (is_written (first os))) left in
            rw f (
              w',
              >>=-eq (write_session_file _ _ _) (save_written codec p) w e
                  ∙ e'
                  ∙ ap (λ r. some (r, w')) ended,
              subst (λ r. Saves p r w w') ended saves,
            )
      ]

  file_behind-set_mu :
      (r : SaveResult) (p : ℕ) (w : World B) (name : FileName)
      → file_behind r p (set_mu 0 true w) name ≡ file_behind r p w name
  unfolding set_mu
  file_behind-set_mu saved p w name = refl
  file_behind-set_mu too_large p w name = refl
  file_behind-set_mu not_written p w name = refl
  file_behind-set_mu index_not_saved p w name = refl

  -- How SaveSession ends from a free lock is known by the size of the session and by its two writes.
  -- The files are those of before but for temporary ones, and but for the file of the session, which
  -- has the session if its write succeeds, and the index file, which has the index with the session
  -- for the project if that write succeeds too.
  pub save_session-Saves :
      (p : ℕ) (w : World B)
      → IsUnlocked w
      → (w' : World B) × (save_session codec p w ≡ some (save_result p w, w'))
        × Saves p (save_result p w) w w'
  unfolding save_session set_mu
  save_session-Saves p w u =
      let (w', e, saves) = save_unlocked-Saves p (set_mu 0 true w) in
      (
        set_mu w'.mu.readers false w',
        locked-eq (save_unlocked codec p) w u e,
        record {
          files = λ name n. saves.files name n ∙ file_behind-set_mu (save_result p w) p w name;
          index = saves.index;
          project = saves.project;
        },
      )
