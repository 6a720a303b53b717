-- ===== src/Persistence/Deadlock.antt =====
-- When GetLastSession (internal/session/persistence.go) waits for itself.
use vibe_local_go.Base.{
  ◌≡◌, ◌≢◌, ◌↔◌, ◌⊎◌, refl, sym, ap, ◌∙◌, String, false, Option, none, some, lookup, string_key,
  Option-cases, inl, inr, arith,
}
use vibe_local_go.Session.{SavedSession}
use vibe_local_go.Persistence.{
  FileName, Codec, World, M, pure, gets, ◌>>=◌, ◌>>◌, set_mu, r_locked, lock, r_lock, r_unlock,
  LoadResult, read_error, parse_error, Last, no_last, last_session, name_key,
}
use vibe_local_go.Persistence.Manager.{
  load_bytes, load_decoded, load_cached, contents_of, last_loaded, last_cached, last_of, allocate,
  load_session, get_last_session,
}
use vibe_local_go.Persistence.Locks.{IsUnlocked, >>=-eq, bind-blocks, r_lock-eq}

module _ {B : Type 0} (codec : Codec B) where
  -- The last session is not in the cache, and its file can be read and decoded.
  abbrev pub IsForgotten : World B → Type 0
  IsForgotten w =
      (id : String) × (bytes : B) × (d : SavedSession) × (lookup w.project w.index ≡ some id)
      × (lookup id w.sessions ≡ none)
      × (contents_of (FileName.session_file id) w ≡ some bytes)
      × (codec.decode_session bytes ≡ some d)

  held : World B → World B
  held w = set_mu 1 false w

  load-eq :
      (id : String) (w : World B)
      → lookup id w.sessions ≡ none
      → load_session codec id (held w)
        ≡ load_bytes codec id (contents_of (FileName.session_file id) w) (held w)
  unfolding held load_session load_cached set_mu r_lock r_unlock
  load-eq id w n = rw n refl

  load_decoded-blocks :
      (id : String) (d : SavedSession) (w : World B) → load_decoded codec id d (held w) ≡ none
  unfolding held load_decoded allocate set_mu lock
  load_decoded-blocks id d w = refl

  load_bytes-cases :
      (id : String) (o : Option B) (w : World B)
      → ((r : LoadResult) × (load_bytes codec id o (held w) ≡ some (r, held w)))
        ⊎ ((bytes : B) × (d : SavedSession) × (o ≡ some bytes)
            × (codec.decode_session bytes ≡ some d))
  unfolding load_bytes
  load_bytes-cases id none w = inl (read_error, refl)
  load_bytes-cases id (some bytes) w = elim (Option-cases (codec.decode_session bytes)) [
    | inl k ↦ inl (parse_error, rw (k, load_bytes) refl)
    | inr (d, k) ↦ inr (bytes, d, refl, k)
  ]

  last_cached-cases :
      (id : String) (w : World B)
      → lookup w.project w.index ≡ some id
      → ((a : Last) × (last_cached codec id (lookup id w.sessions) (held w) ≡ some (a, held w)))
        ⊎ IsForgotten w
  unfolding last_cached
  last_cached-cases id w i = elim (Option-cases (lookup id w.sessions)) [
    | inr (p, e) ↦ inl (last_session p id, rw e refl)
    | inl n ↦ elim (load_bytes-cases id (contents_of (FileName.session_file id) w) w) [
      | inl (r, e) ↦ inl (
        last_loaded id r,
        rw n (
            >>=-eq (load_session codec id) (λ x. pure (last_loaded id x)) (held w)
              (load-eq id w n ∙ e)),
      )
      | inr (bytes, d, e, k) ↦ inr (id, bytes, d, i, n, e, k)
    ]
  ]

  -- The body of GetLastSession.
  abbrev last_body : M B Last
  last_body = gets (λ w. lookup w.project w.index) >>= last_of codec

  last_of-held :
      (id : String) (w : World B)
      → last_of codec (some id) (held w) ≡ last_cached codec id (lookup id w.sessions) (held w)
  unfolding last_of held set_mu
  last_of-held id w = refl

  body-eq : (w : World B) → last_body (held w) ≡ last_of codec (lookup w.project w.index) (held w)
  unfolding held set_mu
  body-eq w = refl

  last-cases :
      (w : World B) → ((a : Last) × (last_body (held w) ≡ some (a, held w))) ⊎ IsForgotten w
  unfolding last_of
  last-cases w = elim (Option-cases (lookup w.project w.index)) [
    | inl n ↦ inl (no_last, body-eq w ∙ rw n refl)
    | inr (id, i) ↦ elim (last_cached-cases id w i) [
      | inl (a, e) ↦ inl (a, body-eq w ∙ rw i (last_of-held id w ∙ e))
      | inr f ↦ inr f
    ]
  ]

  body-blocks : (w : World B) → IsForgotten w → last_body (held w) ≡ none
  unfolding last_cached load_bytes
  body-blocks w (id, bytes, d, i, n, e, k) =
      let load = load-eq id w n ∙ rw e (rw (k, load_bytes) (load_decoded-blocks id d w)) in
      body-eq w
      ∙ rw i (last_of-held id w ∙ rw n (bind-blocks (load_session codec id) _ (held w) load))

  -- The lock is free: the body runs in the world that `held` shows.
  r_locked-held :
      {A : Type 0} (m : M B A) (w : World B)
      → IsUnlocked w
      → r_locked m w ≡ (m >>= λ a. r_unlock >> pure a) (held w)
  unfolding held
  r_locked-held m w u =
      >>=-eq r_lock (λ _. m >>= λ a. r_unlock >> pure a) w (r_lock-eq w u.1)
      ∙ ap (λ n. (m >>= λ a. r_unlock >> pure a) (set_mu n false w)) (omega (arith, u.0))

  some-ne-none : {A : Type 0} {a : A} → some a ≢ none
  some-ne-none e = cc

  -- GetLastSession never returns exactly where the index names a session for the project that is not
  -- in the cache, and whose file can be read and decoded: LoadSession then waits for the lock that
  -- GetLastSession holds.
  pub get_last_session-blocks_iff :
      (w : World B) → IsUnlocked w → (get_last_session codec w ≡ none) ↔ IsForgotten w
  unfolding get_last_session r_unlock
  get_last_session-blocks_iff w u = (
    λ e. elim (last-cases w) [
      | inl (a, r) ↦
          absurd
            (some-ne-none (sym (r_locked-held last_body w u ∙ >>=-eq last_body _ (held w) r) ∙ e))
      | inr f ↦ f
    ],
    λ f. r_locked-held last_body w u ∙ bind-blocks last_body _ (held w) (body-blocks w f),
  )
