-- ===== src/Persistence/Manager.antt =====
-- The methods of PersistenceManager (internal/session/persistence.go).
use vibe_local_go.Base.{
  ℕ, ◌+◌, ◌==◌, String, Bool, true, false, ◌&&◌, List, [], ◌∷◌, Option, none, some, ltb, lookup,
  insert, remove, length, string_key, str_eq, concat, if◌then◌else◌,
}
use vibe_local_go.Session.{Session, SavedSession, new_session, from_json}
use vibe_local_go.Persistence.{
  FileName, SessionInfo, SessionIndex, Codec, FileEntry, World, max_session_size, seven_days,
  SaveResult, saved, too_large, not_written, index_not_saved, LoadResult, loaded, read_error,
  parse_error, Last, no_last, last_error, last_session, saved_session, name_key, M, pure, ◌>>=◌,
  ◌>>◌, modify, gets, locked, r_locked, write_session_file,
}

-- The entries of the index file, one for each project.
unfoldable pub index_entries : ℕ → List (String × String) → List SessionIndex
index_entries now [] = []
index_entries now ((project, id) ∷ index) =
    let entry : SessionIndex = record {
      project_hash = project;
      session_id = id;
      last_active = now;
    } in
    entry ∷ index_entries now index

unfoldable pub index_of : List SessionIndex → List (String × String) → List (String × String)
index_of [] index = index
index_of (e ∷ es) index = index_of es (insert e.project_hash e.session_id index)

-- for hash, id := range pm.index { if id == sessionID { delete; break } }
unfoldable pub remove_first : String → List (String × String) → List (String × String)
remove_first id [] = []
remove_first id ((hash, other) ∷ index) =
    if str_eq other id then index else (hash, other) ∷ remove_first id index

unfoldable pub last_loaded : String → LoadResult → Last
last_loaded id (loaded p) = last_session p id
last_loaded id read_error = last_error
last_loaded id parse_error = last_error

-- strings.TrimSuffix(entry.Name(), ".jsonl")
abbrev pub trimmed_name : FileName → String
trimmed_name (FileName.session_file id) = id
trimmed_name (FileName.temp_file id) = concat (id ∷ ".jsonl.tmp" ∷ [])
trimmed_name (FileName.other_file name) = name
trimmed_name FileName.index_file = "session_index.json"
trimmed_name FileName.index_temp = "session_index.json.tmp"

abbrev pub is_in_sessions : FileName → Bool
is_in_sessions FileName.index_file = false
is_in_sessions FileName.index_temp = false
is_in_sessions _ = true

module _ {B : Type 0} where
  abbrev pub contents : Option (FileEntry B) → Option B
  contents none = none
  contents (some f) = some f.contents

  -- os.ReadFile
  abbrev pub contents_of : FileName → World B → Option B
  contents_of name w = contents (lookup name w.files)

  abbrev pub exists_file : FileName → World B → Bool
  exists_file name w = elim (lookup name w.files) [ none ↦ false | some f ↦ true ]

  -- A new session object; its pointer is returned.
  unfoldable pub allocate : Session → M B ℕ
  allocate s w =
      some (
        w.fresh,
        record w { heap = λ p. if p == w.fresh then s else w.heap p; fresh = w.fresh + 1 },
      )

  -- The names of the files of the directory of the sessions.
  unfoldable pub session_ids : List (FileName × FileEntry B) → List String
  session_ids [] = []
  session_ids ((name, f) ∷ files) =
      let rest = session_ids files in elim name [ FileName.session_file id ↦ id ∷ rest | _ ↦ rest ]

  unfoldable pub list_sessions : M B (List String)
  list_sessions = r_locked (gets (λ w. session_ids w.files))

  abbrev pub is_there : String → World B → Bool
  is_there id w = elim (lookup id w.sessions) [
    | some p ↦ true
    | none ↦ exists_file (FileName.session_file id) w
  ]

  unfoldable pub exists : String → M B Bool
  exists id = r_locked (gets (is_there id))

  abbrev pub enter : ℕ → World B → World B
  enter p w = record w {
    sessions = insert (w.heap p).id p w.sessions;
    index = insert w.project (w.heap p).id w.index;
  }

  abbrev pub forget : String → World B → World B
  forget id w = record w { sessions = remove id w.sessions; index = remove_first id w.index }

  -- os.Remove, and whether the file is gone or was not there.
  unfoldable pub remove_file : FileName → M B Bool
  remove_file name w = elim (lookup name w.files) [
    | none ↦ some (true, w)
    | some f ↦
        if w.can_remove name
        then some (true, record w { files = remove name w.files })
        else some (false, w)
  ]

  abbrev pub is_cleaned : World B → FileName × FileEntry B → Bool
  is_cleaned w (name, f) =
      is_in_sessions name && ltb (f.modified + seven_days) w.now && w.can_remove name

  unfoldable pub clean_file : World B → FileName × FileEntry B → World B
  clean_file w (name, f) =
      if is_cleaned w (name, f)
      then record w {
        files = remove name w.files;
        sessions = remove (trimmed_name name) w.sessions;
      }
      else w

  -- The loop over the entries; the number counts the files that are removed.
  unfoldable pub clean_files : List (FileName × FileEntry B) → World B → ℕ × World B
  unfolding clean_file
  clean_files [] w = (0, w)
  clean_files (f ∷ fs) w =
      let (n, w') = clean_files fs (clean_file w f) in ((if is_cleaned w f then n + 1 else n), w')

module _ {B : Type 0} (codec : Codec B) where
  unfoldable pub save_index : M B Bool
  save_index w =
      let bytes = codec.encode_index (index_entries w.now w.index) in
      write_session_file FileName.index_file FileName.index_temp bytes w

  -- json.Marshal of the session that the pointer shows to.
  abbrev pub session_bytes : ℕ → World B → B
  session_bytes p w = codec.encode_session (saved_session (w.heap p))

  unfoldable pub save_written : ℕ → Bool → M B SaveResult
  save_written p false = pure not_written
  save_written p true = do
    modify (enter p)
    done ← save_index
    pure (if done then saved else index_not_saved)

  unfoldable pub save_unlocked : ℕ → M B SaveResult
  unfolding save_written
  save_unlocked p w =
      let id = (w.heap p).id in
      let bytes = session_bytes p w in
      if ltb max_session_size (codec.size bytes)
      then some (too_large, w)
      else (write_session_file (FileName.session_file id) (FileName.temp_file id) bytes
            >>= save_written p)
          w

  unfoldable pub save_session : ℕ → M B SaveResult
  save_session p = locked (save_unlocked p)

  -- The pointer to a new session that holds what was decoded is kept under its ID.
  unfoldable pub load_decoded : String → SavedSession → M B LoadResult
  unfolding allocate
  load_decoded id d = do
    p ← allocate (from_json (some d) (new_session id "")).0
    locked (modify (λ w. record w { sessions = insert d.id p w.sessions }))
    pure (loaded p)

  -- What LoadSession does with the bytes of a file.
  unfoldable pub load_bytes : String → Option B → M B LoadResult
  load_bytes id none = pure read_error
  load_bytes id (some bytes) = elim (codec.decode_session bytes) [
    | none ↦ pure parse_error
    | some d ↦ load_decoded id d
  ]

  unfoldable pub load_cached : String → Option ℕ → M B LoadResult
  load_cached id (some p) = pure (loaded p)
  load_cached id none = gets (contents_of (FileName.session_file id)) >>= load_bytes id

  unfoldable pub load_session : String → M B LoadResult
  unfolding load_cached
  load_session id = do cached ← r_locked (gets (λ w. lookup id w.sessions)); load_cached id cached

  unfoldable pub last_cached : String → Option ℕ → M B Last
  last_cached id (some p) = pure (last_session p id)
  last_cached id none = do r ← load_session id; pure (last_loaded id r)

  unfoldable pub last_of : Option String → M B Last
  last_of none = pure no_last
  last_of (some id) = gets (λ w. lookup id w.sessions) >>= last_cached id

  unfoldable pub get_last_session : M B Last
  unfolding last_loaded last_cached last_of
  get_last_session = r_locked (gets (λ w. lookup w.project w.index) >>= last_of)

  unfoldable pub after_removal : Bool → M B Bool
  after_removal true = save_index
  after_removal false = pure false

  unfoldable pub delete_unlocked : String → M B Bool
  unfolding after_removal
  delete_unlocked id = do
    modify (forget id)
    gone ← remove_file (FileName.session_file id)
    after_removal gone

  unfoldable pub delete_session : String → M B Bool
  delete_session id = locked (delete_unlocked id)

  -- What GetSessionInfo reads of the session, whose file is `f`; `none` is an error.
  unfoldable pub info_of : String → FileEntry B → LoadResult → M B (Option SessionInfo)
  info_of id f (loaded p) w = some (
    some (record {
      id = id;
      message_count = length (w.heap p).messages;
      token_count = (w.heap p).token_estimate;
      file_size = codec.size f.contents;
      last_modified = f.modified;
    }),
    w,
  )
  info_of id f read_error w = some (none, w)
  info_of id f parse_error w = some (none, w)

  -- os.Stat of the session's file, and then LoadSession.
  unfoldable pub get_session_info : String → M B (Option SessionInfo)
  unfolding info_of
  get_session_info id w = elim (lookup (FileName.session_file id) w.files) [
    | none ↦ some (none, w)
    | some f ↦ (load_session id >>= info_of id f) w
  ]

  unfoldable pub cleaned_up : ℕ → M B Bool
  cleaned_up n = if ltb 0 n then save_index else pure true

  unfoldable pub cleanup_unlocked : M B Bool
  unfolding cleaned_up
  cleanup_unlocked w = let (n, w') = clean_files w.files w in cleaned_up n w'

  unfoldable pub cleanup_old_sessions : M B Bool
  cleanup_old_sessions = locked cleanup_unlocked

  -- A manager of a new process over the same disk; `none` is an error of the index file.
  unfoldable pub new_persistence_manager : World B → Option (World B)
  new_persistence_manager w =
      let start : World B = record w {
        sessions = [];
        index = [];
        mu = record { readers = 0; writing = false };
      } in
      elim (contents_of FileName.index_file w) [
        | none ↦ some start
        | some bytes ↦ elim (codec.decode_index bytes) [
          | none ↦ none
          | some entries ↦ some (record start { index = index_of entries [] })
        ]
      ]
