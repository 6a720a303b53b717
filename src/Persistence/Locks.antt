-- ===== src/Persistence/Locks.antt =====
-- Calls behind the lock of PersistenceManager (internal/session/persistence.go).
use vibe_local_go.Base.{
  ℕ, ◌+◌, ◌-◌, ◌≡◌, refl, ap, ◌∙◌, Bool, true, false, List, [], ◌∷◌, none, some, lookup, remove,
  string_key, Bool-cases, Option-cases, inl, inr, arith,
}
use vibe_local_go.Session.{Session}
use vibe_local_go.Persistence.{
  FileName, FileEntry, World, M, pure, modify, gets, ◌>>=◌, ◌>>◌, WriteOutcome, written,
  write_failed, rename_failed, locked, r_locked, set_mu, lock, unlock, r_lock, r_unlock, write_by,
  write_next, write_session_file, name_key,
}
use vibe_local_go.Persistence.Manager.{remove_file, clean_files, clean_file, allocate, is_cleaned}

module _ {B : Type 0} where
  pub >>=-eq :
      {A C : Type 0} (m : M B A) (f : A → M B C) (w : World B) {a : A} {w' : World B}
      → m w ≡ some (a, w')
      → (m >>= f) w ≡ f a w'
  >>=-eq m f w e = rw (◌>>=◌, e) refl

  abbrev pub Holds : World B → ℕ → Bool → Type 0
  Holds w readers writing = (w.mu.readers ≡ readers) × (w.mu.writing ≡ writing)

  -- Nobody holds the lock.
  abbrev pub IsUnlocked : World B → Type 0
  IsUnlocked w = Holds w 0 false

  abbrev pub Ends : {A : Type 0} → M B A → World B → Type 0
  Ends {A} m w = (a : A) × (w' : World B) × (m w ≡ some (a, w')) × IsUnlocked w'

  -- A body that returns and leaves the lock alone.
  abbrev pub Keeps : {A : Type 0} → M B A → Type 0
  Keeps {A} m = (w : World B) → (a : A) × (w' : World B) × (m w ≡ some (a, w')) × (w'.mu ≡ w.mu)

  pub lock-eq : (w : World B) → IsUnlocked w → lock w ≡ some (tt, set_mu 0 true w)
  unfolding lock
  lock-eq w u = ground arith

  pub r_lock-eq :
      (w : World B) → w.mu.writing ≡ false → r_lock w ≡ some (tt, set_mu (w.mu.readers + 1) false w)
  unfolding r_lock
  r_lock-eq w u = ground arith

  pub bind-blocks :
      {A C : Type 0} (m : M B A) (f : A → M B C) (w : World B) → m w ≡ none → (m >>= f) w ≡ none
  bind-blocks m f w e = rw (◌>>=◌, e) refl

  -- What a body behind the lock does from a world where the lock is free.
  pub locked-eq :
      {A : Type 0} (m : M B A) (w : World B) {a : A} {w' : World B}
      → IsUnlocked w
      → m (set_mu 0 true w) ≡ some (a, w')
      → locked m w ≡ some (a, set_mu w'.mu.readers false w')
  unfolding unlock
  locked-eq m w u e =
      >>=-eq lock (λ _. m >>= λ a. unlock >> pure a) w (lock-eq w u)
      ∙ >>=-eq m (λ a. unlock >> pure a) (set_mu 0 true w) e

  pub r_locked-eq :
      {A : Type 0} (m : M B A) (w : World B) {a : A} {w' : World B}
      → w.mu.writing ≡ false
      → m (set_mu (w.mu.readers + 1) false w) ≡ some (a, w')
      → r_locked m w ≡ some (a, set_mu (w'.mu.readers - 1) w'.mu.writing w')
  unfolding r_unlock
  r_locked-eq m w u e =
      >>=-eq r_lock (λ _. m >>= λ a. r_unlock >> pure a) w (r_lock-eq w u)
      ∙ >>=-eq m (λ a. r_unlock >> pure a) (set_mu (w.mu.readers + 1) false w) e

  pub locked-Ends :
      {A : Type 0} (m : M B A) (w : World B) → Keeps m → IsUnlocked w → Ends (locked m) w
  unfolding set_mu
  locked-Ends m w keeps u =
      let (a, w', e, same) = keeps (set_mu 0 true w) in
      (a, set_mu w'.mu.readers false w', locked-eq m w u e, (ap (λ mu. mu.readers) same, refl))

  pub r_locked-Ends :
      {A : Type 0} (m : M B A) (w : World B) → Keeps m → IsUnlocked w → Ends (r_locked m) w
  unfolding set_mu
  r_locked-Ends m w keeps u =
      let (a, w', e, same) = keeps (set_mu (w.mu.readers + 1) false w) in
      (
        a,
        set_mu (w'.mu.readers - 1) w'.mu.writing w',
        r_locked-eq m w u.1 e,
        (omega (arith, u.0, ap (λ mu. mu.readers) same), ap (λ mu. mu.writing) same),
      )

  pub write_by-Keeps :
      (o : WriteOutcome B) (path tmp : FileName) (bytes : B) → Keeps (write_by o path tmp bytes)
  unfolding write_by
  write_by-Keeps written path tmp bytes w = (_, _, refl, refl)
  write_by-Keeps (write_failed none) path tmp bytes w = (_, _, refl, refl)
  write_by-Keeps (write_failed (some part)) path tmp bytes w = (_, _, refl, refl)
  write_by-Keeps rename_failed path tmp bytes w = (_, _, refl, refl)

  pub write_next-Keeps :
      (os : List (WriteOutcome B)) (path tmp : FileName) (bytes : B)
      → Keeps (write_next os path tmp bytes)
  unfolding write_next
  write_next-Keeps [] path tmp bytes w = write_by-Keeps written path tmp bytes w
  write_next-Keeps (o ∷ os) path tmp bytes w =
      write_by-Keeps o path tmp bytes (record w { outcomes = os })

  pub write-Keeps : (path tmp : FileName) (bytes : B) → Keeps (write_session_file path tmp bytes)
  unfolding write_session_file
  write-Keeps path tmp bytes w = write_next-Keeps w.outcomes path tmp bytes w

  pub bind-Keeps :
      {A C : Type 0} (m : M B A) (f : A → M B C)
      → Keeps m
      → ((a : A) → Keeps (f a))
      → Keeps (m >>= f)
  bind-Keeps m f k l w =
      let (a, w', e, same) = k w in
      let (c, w'', e', same') = l a w' in (c, w'', >>=-eq m f w e ∙ e', same' ∙ same)

  pub bind-Ends :
      {A C : Type 0} (m : M B A) (f : A → M B C) (w : World B)
      → Ends m w
      → ((a : A) (w' : World B) → IsUnlocked w' → Ends (f a) w')
      → Ends (m >>= f) w
  bind-Ends m f w (a, w', e, u) k =
      let (c, w'', e', u') = k a w' u in (c, w'', >>=-eq m f w e ∙ e', u')

  pub Keeps-Ends : {A : Type 0} (m : M B A) (w : World B) → Keeps m → IsUnlocked w → Ends m w
  Keeps-Ends m w k u =
      let (a, w', e, same) = k w in
      (a, w', e, (ap (λ mu. mu.readers) same ∙ u.0, ap (λ mu. mu.writing) same ∙ u.1))

  pub allocate-Keeps : (s : Session) → Keeps (allocate {B = B} s)
  unfolding allocate
  allocate-Keeps s w = (_, _, refl, refl)

  pub gets-Keeps : {A : Type 0} (f : World B → A) → Keeps (gets f)
  gets-Keeps f w = (f w, w, refl, refl)

  pub pure-Keeps : {A : Type 0} (a : A) → Keeps (pure {B = B} a)
  pure-Keeps a w = (a, w, refl, refl)

  pub remove_file-Keeps : (name : FileName) → Keeps (remove_file {B = B} name)
  unfolding remove_file
  remove_file-Keeps name w = elim (Option-cases (lookup name w.files)) [
    | inl n ↦ (true, w, rw (n, remove_file) refl, refl)
    | inr (f, e) ↦ elim (Bool-cases (w.can_remove name)) [
      | inl t ↦
          (true, record w { files = remove name w.files }, rw (e, remove_file) (rw t refl), refl)
      | inr n ↦ (false, w, rw (e, remove_file) (rw n refl), refl)
    ]
  ]

  pub clean_file-mu : (w : World B) (f : FileName × FileEntry B) → (clean_file w f).mu ≡ w.mu
  unfolding clean_file
  clean_file-mu w (name, f) = elim (Bool-cases (is_cleaned w (name, f))) [
    | inl t ↦ rw (clean_file, t) refl
    | inr n ↦ rw (clean_file, n) refl
  ]

  pub clean_files-mu :
      (fs : List (FileName × FileEntry B)) (w : World B) → (clean_files fs w).1.mu ≡ w.mu
  unfolding clean_files
  clean_files-mu [] w = refl
  clean_files-mu (f ∷ fs) w = clean_files-mu fs (clean_file w f) ∙ clean_file-mu w f

  pub modify-Keeps : (f : World B → World B) → ((w : World B) → (f w).mu ≡ w.mu) → Keeps (modify f)
  modify-Keeps f k w = (tt, f w, refl, k w)
