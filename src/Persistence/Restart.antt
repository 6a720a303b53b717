-- ===== src/Persistence/Restart.antt =====
-- A session that is saved (internal/session/persistence.go) and loaded by another process.
use vibe_local_go.Base.{
  ℕ, ◌≡◌, ◌≢◌, ◌==◌, if◌then◌else◌, refl, sym, ap, subst, ◌∙◌, ==_iff, String, false, List, [], ◌∷◌,
  Option, none, some, lookup, insert, eq_iff, string_key, lookup-insert, str_eq, Bool-cases, inl,
  inr, arith,
}
use vibe_local_go.Session.{SavedSession, from_json}
use vibe_local_go.Persistence.{
  FileName, SessionIndex, name_key, Codec, World, set_mu, saved, loaded, saved_session, lock,
  unlock, r_lock, r_unlock,
}
use vibe_local_go.Persistence.Manager.{
  index_entries, index_of, session_bytes, contents, contents_of, allocate, load_decoded, load_bytes,
  load_cached, load_session, save_session, get_last_session, new_persistence_manager,
}
use vibe_local_go.Persistence.Locks.{IsUnlocked}
use vibe_local_go.Persistence.Saving.{Saves, save_session-Saves}
use vibe_local_go.Persistence.Deadlock.{get_last_session-blocks_iff}

-- No key stands twice.
abbrev pub IsMap : List (String × String) → Type 0
IsMap [] = Unit
IsMap ((k, v) ∷ m) = (lookup k m ≡ none) × IsMap m

abbrev or_else : Option String → Option String → Option String
or_else none o = o
or_else (some v) o = some v

lookup-index_of :
    (k : String) (now : ℕ) (m acc : List (String × String))
    → IsMap m
    → lookup k (index_of (index_entries now m) acc) ≡ or_else (lookup k m) (lookup k acc)
unfolding index_of index_entries lookup
lookup-index_of k now [] acc h = refl
lookup-index_of k now ((j, v) ∷ m) acc h =
    lookup-index_of k now m (insert j v acc) h.1
    ∙ ap (or_else (lookup k m)) (lookup-insert j k v acc)
    ∙ elim (Bool-cases (str_eq j k)) [
      | inl t ↦ rw t (rw (ap (λ x. lookup x m) (sym ((eq_iff j k).0 t)) ∙ h.0) refl)
      | inr f ↦ rw f refl
    ]

insert-IsMap : (k v : String) (m : List (String × String)) → IsMap m → IsMap (insert k v m)
unfolding insert lookup
insert-IsMap k v [] h = (refl, tt)
insert-IsMap k v ((j, w) ∷ m) h = elim (Bool-cases (str_eq j k)) [
  | inl t ↦ rw t h
  | inr f ↦
      let other : str_eq k j ≡ false = ground (arith, eq_iff j k, eq_iff k j) in
      rw f (lookup-insert k j v m ∙ rw other h.0, insert-IsMap k v m h.1)
]

abbrev from_some {ℓ} : {A : Type ℓ} → A → Option A → A
from_some a none = a
from_some a (some b) = b

other-eq : {A : Type 0} (x y : ℕ) (a b : A) → x ≢ y → (if x == y then a else b) ≡ b
other-eq x y a b h = ground (arith, h)

module _ {B : Type 0} (codec : Codec B) where
  saved-Saves :
      (p : ℕ) (w w1 : World B)
      → IsUnlocked w
      → save_session codec p w ≡ some (saved, w1)
      → Saves codec p saved w w1
  saved-Saves p w w1 u e =
      let (w', e', saves) = save_session-Saves codec p w u in
      subst (λ x. Saves codec p x.0 w x.1) (ap (from_some (saved, w1)) (sym e' ∙ e)) saves

  -- The manager of a new process over the files of a world, with this index.
  abbrev started : World B → List SessionIndex → World B
  started w entries = record w {
    sessions = [];
    index = index_of entries [];
    mu = record { readers = 0; writing = false };
  }

  start-eq :
      (w : World B) (bytes : B) (entries : List SessionIndex)
      → contents_of FileName.index_file w ≡ some bytes
      → codec.decode_index bytes ≡ some entries
      → new_persistence_manager codec w ≡ some (started w entries)
  unfolding new_persistence_manager
  start-eq w bytes entries e d = rw (new_persistence_manager, e) (rw d refl)

  -- A load that returns the next free pointer, with a session of these fields, and leaves the others.
  abbrev pub Loads : String → SavedSession → World B → Type 0
  Loads id d w =
      (w' : World B) × (load_session codec id w ≡ some (loaded w.fresh, w'))
      × (saved_session (w'.heap w.fresh) ≡ d)
      × ((x : ℕ) → x ≢ w.fresh → w'.heap x ≡ w.heap x)

  load_decoded-loaded :
      (id : String) (w : World B) (entries : List SessionIndex) (d : SavedSession)
      → (w' : World B) × (load_decoded codec id d (started w entries) ≡ some (loaded w.fresh, w'))
        × (saved_session (w'.heap w.fresh) ≡ d)
        × ((x : ℕ) → x ≢ w.fresh → w'.heap x ≡ w.heap x)
  unfolding load_decoded allocate set_mu lock unlock saved_session from_json
  load_decoded-loaded id w entries d =
      (_, refl, rw ((==_iff w.fresh w.fresh).1 refl) refl, λ x n. other-eq x w.fresh _ (w.heap x) n)

  load-eq :
      (id : String) (w : World B) (entries : List SessionIndex)
      → load_session codec id (started w entries)
        ≡ load_bytes codec id (contents_of (FileName.session_file id) w) (started w entries)
  unfolding load_session load_cached set_mu r_lock r_unlock lookup
  load-eq id w entries = refl

  load-loaded :
      (id : String) (w : World B) (entries : List SessionIndex) (bytes : B) (d : SavedSession)
      → contents_of (FileName.session_file id) w ≡ some bytes
      → codec.decode_session bytes ≡ some d
      → Loads id d (started w entries)
  unfolding load_bytes
  load-loaded id w entries bytes d e k =
      let (w', r, s, others) = load_decoded-loaded id w entries d in
      (w', load-eq id w entries ∙ rw e (rw (k, load_bytes) r), s, others)

  -- A session that is saved, with codes that can be decoded, is loaded by a new process with all its
  -- saved fields, and no other session changes. But where the new process works on the same project,
  -- GetLastSession never returns.
  pub save_session-restarted :
      (p : ℕ) (w w1 : World B)
      → IsUnlocked w
      → IsMap w.index
      → ((s : SavedSession) → codec.decode_session (codec.encode_session s) ≡ some s)
      → ((l : List SessionIndex) → codec.decode_index (codec.encode_index l) ≡ some l)
      → save_session codec p w ≡ some (saved, w1)
      → (w2 : World B) × (new_persistence_manager codec w1 ≡ some w2)
        × Loads (w.heap p).id (saved_session (w.heap p)) w2
        × (w2.fresh ≡ w1.fresh)
        × ((x : ℕ) → w2.heap x ≡ w1.heap x)
        × (get_last_session codec w2 ≡ none)
  unfolding lookup
  save_session-restarted p w w1 u m decodes indexes e =
      let saves = saved-Saves p w w1 u e in
      let id = (w.heap p).id in
      let index = insert w.project id w.index in
      let entries = index_entries w.now index in
      let at_index = saves.files FileName.index_file refl in
      let at_session = saves.files (FileName.session_file id) refl in
      let bytes_there : contents_of (FileName.session_file id) w1 ≡ some (session_bytes codec p w) =
        ap contents at_session ∙ rw ((eq_iff id id).1 refl) refl in
      let index_there : contents_of FileName.index_file w1 ≡ some (codec.encode_index entries) =
        ap contents at_index in
      let entered : lookup w.project index ≡ some id =
        lookup-insert w.project w.project id w.index
        ∙ rw ((eq_iff w.project w.project).1 refl) refl in
      let named : lookup w1.project (index_of entries []) ≡ some id =
        ap (λ x. lookup x (index_of entries [])) saves.project
        ∙ lookup-index_of w.project w.now index [] (insert-IsMap w.project id w.index m)
        ∙ ap (λ o. or_else o (lookup w.project [])) entered in
      let d = saved_session (w.heap p) in
      (
        started w1 entries,
        start-eq w1 _ entries index_there (indexes entries),
        load-loaded id w1 entries _ d bytes_there (decodes d),
        refl,
        λ x. refl,
        (get_last_session-blocks_iff codec (started w1 entries) (refl, refl)).1
            (id, session_bytes codec p w, d, named, refl, bytes_there, decodes d),
      )
