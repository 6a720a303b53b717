-- ===== src/Persistence/Returning.antt =====
-- The methods of PersistenceManager (internal/session/persistence.go) that return.
use vibe_local_go.Base.{
  ℕ, ◌≡◌, refl, ap, ◌∙◌, String, Bool, true, false, List, [], ◌∷◌, Option, none, some, lookup,
  insert, ltb, string_key, Bool-cases, Option-cases, inl, inr, if◌then◌else◌,
}
use vibe_local_go.Session.{SavedSession, new_session, from_json}
use vibe_local_go.Persistence.{
  FileName, FileEntry, LoadResult, Codec, World, M, modify, gets, not_written, read_error,
  parse_error, loaded, too_large, saved, index_not_saved, max_session_size, locked, r_locked,
  name_key,
}
use vibe_local_go.Persistence.Manager.{
  info_of, get_session_info, save_index, save_unlocked, save_session, load_bytes, load_session,
  delete_session, clean_files, save_written, after_removal, cleaned_up, session_bytes, load_decoded,
  forget, load_cached, contents_of, allocate, delete_unlocked, cleanup_unlocked,
  cleanup_old_sessions, list_sessions, session_ids, exists, is_there,
}
use vibe_local_go.Persistence.Locks.{
  IsUnlocked, Ends, Keeps, locked-Ends, r_locked-Ends, write-Keeps, bind-Keeps, bind-Ends,
  Keeps-Ends, allocate-Keeps, gets-Keeps, pure-Keeps, remove_file-Keeps, clean_files-mu,
  modify-Keeps,
}

module _ {B : Type 0} (codec : Codec B) where
  save_index-Keeps : Keeps (save_index codec)
  unfolding save_index
  save_index-Keeps w = write-Keeps _ _ _ w

  save_written-Keeps : (p : ℕ) (b : Bool) → Keeps (save_written codec p b)
  unfolding save_written
  save_written-Keeps p false = pure-Keeps not_written
  save_written-Keeps p true = bind-Keeps _ _ (modify-Keeps _ (λ w. refl)) (λ _.
      bind-Keeps _ _ save_index-Keeps
        (λ done. pure-Keeps (if done then saved else index_not_saved)))

  save_unlocked-Keeps : (p : ℕ) → Keeps (save_unlocked codec p)
  unfolding save_unlocked
  save_unlocked-Keeps p w =
      elim (Bool-cases (ltb max_session_size (codec.size (session_bytes codec p w)))) [
        | inl t ↦ (too_large, w, rw t refl, refl)
        | inr f ↦ rw f (bind-Keeps _ _ (write-Keeps _ _ _) (save_written-Keeps p) w)
      ]

  after_removal-Keeps : (b : Bool) → Keeps (after_removal codec b)
  unfolding after_removal
  after_removal-Keeps true = save_index-Keeps
  after_removal-Keeps false = pure-Keeps false

  delete-Keeps : (id : String) → Keeps (delete_unlocked codec id)
  unfolding delete_unlocked
  delete-Keeps id =
      bind-Keeps (modify (forget id)) _ (modify-Keeps (forget id) (λ w. refl))
        (λ _. bind-Keeps _ _ (remove_file-Keeps (FileName.session_file id)) after_removal-Keeps)

  cleaned_up-Keeps : (n : ℕ) → Keeps (cleaned_up codec n)
  unfolding cleaned_up
  cleaned_up-Keeps n w = elim (Bool-cases (ltb 0 n)) [
    | inl t ↦ rw (cleaned_up, t) (save_index-Keeps w)
    | inr f ↦ rw (cleaned_up, f) (pure-Keeps true w)
  ]

  cleanup-Keeps : Keeps (cleanup_unlocked codec)
  unfolding cleanup_unlocked
  cleanup-Keeps w =
      let (n, w') = clean_files w.files w in
      let (a, w'', e, same) = cleaned_up-Keeps n w' in (a, w'', e, same ∙ clean_files-mu w.files w)

  load_decoded-Ends :
      (id : String) (d : SavedSession) (w : World B)
      → IsUnlocked w
      → Ends (load_decoded codec id d) w
  unfolding load_decoded
  load_decoded-Ends id d w u =
      let s = (from_json (some d) (new_session id "")).0 in
      bind-Ends (allocate s) _ w (Keeps-Ends _ w (allocate-Keeps s) u) λ p v free.
        let put = λ (x : World B). record x { sessions = insert d.id p x.sessions } in
        bind-Ends (locked (modify put)) _ v (locked-Ends _ v (modify-Keeps put (λ x. refl)) free)
          (λ _ x done. (loaded p, x, refl, done))

  load_bytes-Ends :
      (id : String) (o : Option B) (w : World B) → IsUnlocked w → Ends (load_bytes codec id o) w
  unfolding load_bytes
  load_bytes-Ends id none w u = (read_error, w, refl, u)
  load_bytes-Ends id (some bytes) w u = elim (Option-cases (codec.decode_session bytes)) [
    | inl n ↦ (parse_error, w, rw (n, load_bytes) refl, u)
    | inr (d, e) ↦ rw (load_bytes, e) (load_decoded-Ends id d w u)
  ]

  load_cached-Ends :
      (id : String) (o : Option ℕ) (w : World B) → IsUnlocked w → Ends (load_cached codec id o) w
  unfolding load_cached
  load_cached-Ends id (some p) w u = (loaded p, w, refl, u)
  load_cached-Ends id none w u = load_bytes-Ends id (contents_of (FileName.session_file id) w) w u

  load_session-Ends : (id : String) (w : World B) → IsUnlocked w → Ends (load_session codec id) w
  unfolding load_session
  load_session-Ends id w u =
      let read = λ (v : World B). lookup id v.sessions in
      bind-Ends (r_locked (gets read)) _ w (r_locked-Ends _ w (gets-Keeps read) u)
        (load_cached-Ends id)

  info_of-Keeps : (id : String) (f : FileEntry B) (r : LoadResult) → Keeps (info_of codec id f r)
  unfolding info_of
  info_of-Keeps id f (loaded p) w = (_, w, refl, refl)
  info_of-Keeps id f read_error w = (none, w, refl, refl)
  info_of-Keeps id f parse_error w = (none, w, refl, refl)

  info-Ends : (id : String) (w : World B) → IsUnlocked w → Ends (get_session_info codec id) w
  unfolding get_session_info
  info-Ends id w u = elim (Option-cases (lookup (FileName.session_file id) w.files)) [
    | inl n ↦ (none, w, rw (get_session_info, n) refl, u)
    | inr (f, e) ↦
        let (a, w', h, free) =
          bind-Ends (load_session codec id) (info_of codec id f) w (load_session-Ends id w u)
            (λ r v done. Keeps-Ends (info_of codec id f r) v (info_of-Keeps id f r) done) in
        (a, w', rw (get_session_info, e) h, free)
  ]

  -- The methods that take the lock, but GetLastSession.
  pub data Call : Type 0 where
    save : ℕ → Call
    load : String → Call
    delete : String → Call
    clean_up list : Call
    look info : String → Call

  -- The world after a method, if it returns.
  abbrev world_of : {A : Type 0} → Option (A × World B) → Option (World B)
  world_of none = none
  world_of (some (a, w)) = some w

  abbrev pub call : Call → World B → Option (World B)
  call (save p) w = world_of (save_session codec p w)
  call (load id) w = world_of (load_session codec id w)
  call (delete id) w = world_of (delete_session codec id w)
  call clean_up w = world_of (cleanup_old_sessions codec w)
  call list w = world_of (list_sessions w)
  call (look id) w = world_of (exists id w)
  call (info id) w = world_of (get_session_info codec id w)

  abbrev pub call_all : List Call → World B → Option (World B)
  call_all [] w = some w
  call_all (c ∷ cs) w = elim (call c w) [ none ↦ none | some w' ↦ call_all cs w' ]

  abbrev Left : Option (World B) → Type 0
  Left o = (w : World B) × (o ≡ some w) × IsUnlocked w

  Ends-Left : {A : Type 0} (m : M B A) (w : World B) → Ends m w → Left (world_of (m w))
  Ends-Left m w (a, w', e, u) = (w', ap world_of e, u)

  call-Left : (c : Call) (w : World B) → IsUnlocked w → Left (call c w)
  unfolding save_session delete_session cleanup_old_sessions list_sessions exists
  call-Left (save p) w u =
      Ends-Left (save_session codec p) w (locked-Ends _ w (save_unlocked-Keeps p) u)
  call-Left (load id) w u = Ends-Left (load_session codec id) w (load_session-Ends id w u)
  call-Left (delete id) w u =
      Ends-Left (delete_session codec id) w (locked-Ends _ w (delete-Keeps id) u)
  call-Left clean_up w u =
      Ends-Left (cleanup_old_sessions codec) w (locked-Ends _ w cleanup-Keeps u)
  call-Left list w u =
      Ends-Left list_sessions w (r_locked-Ends _ w (gets-Keeps (λ v. session_ids v.files)) u)
  call-Left (look id) w u = Ends-Left (exists id) w (r_locked-Ends _ w (gets-Keeps (is_there id)) u)
  call-Left (info id) w u = Ends-Left (get_session_info codec id) w (info-Ends id w u)

  -- From a world where nobody holds the lock, any sequence of the methods that take it, but
  -- GetLastSession, returns,
  -- however its writes and removals go, and nobody holds the lock then.
  pub call_all-returns :
      (cs : List Call) (w : World B)
      → IsUnlocked w
      → (w' : World B) × (call_all cs w ≡ some w') × IsUnlocked w'
  call_all-returns [] w u = (w, refl, u)
  call_all-returns (c ∷ cs) w u =
      let (w1, e1, u1) = call-Left c w u in
      let (w2, e2, u2) = call_all-returns cs w1 u1 in (w2, rw (call_all, e1) e2, u2)
