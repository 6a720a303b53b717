-- ===== src/Persistence.antt =====
-- internal/session/persistence.go: sessions in files, a cache of sessions and an index from projects
-- to sessions. The encoding as JSON is the argument `codec`; json.Marshal of a session and of the
-- index does not fail. A file is named by its place and its suffix, IDs have no separators, and the
-- directory of the sessions holds files only. Writes and removals may fail as the world says. The
-- lock is part of the state, and a call that waits for a lock which nobody gives back has no result.
pub mod Manager
pub mod Locks
pub mod Deadlock
pub mod Returning
pub mod Saving
pub mod Restart
pub mod Tests
use vibe_local_go.Base.{
  ℕ, ◌+◌, ◌-◌, ◌≡◌, ◌↔◌, String, Bool, true, false, not, ◌&&◌, ◌||◌, List, [], ◌∷◌, Option, none,
  some, ltb, ◌==◌, lookup, insert, remove, str_eq, eq_iff, Eq, length, arith, if◌then◌else◌,
}
use vibe_local_go.Session.{Session, SavedSession, new_session, from_json}

-- <id>.jsonl and <id>.jsonl.tmp and another name of the directory of the sessions; the file
-- session_index.json and its temporary file.
pub data FileName : Type 0 where
  session_file temp_file other_file : String → FileName
  index_file index_temp : FileName

abbrev pub same_name : FileName → FileName → Bool
same_name (FileName.session_file a) (FileName.session_file b) = str_eq a b
same_name (FileName.temp_file a) (FileName.temp_file b) = str_eq a b
same_name (FileName.other_file a) (FileName.other_file b) = str_eq a b
same_name FileName.index_file FileName.index_file = true
same_name FileName.index_temp FileName.index_temp = true
same_name _ _ = false

pub record SessionIndex : Type 0 where
  pub project_hash : String
  pub session_id : String
  pub last_active : ℕ

-- encoding/json
pub record Codec (B : Type 0) : Type 0 where
  pub encode_session : SavedSession → B
  pub decode_session : B → Option SavedSession
  pub encode_index : List SessionIndex → B
  pub decode_index : B → Option (List SessionIndex)
  pub size : B → ℕ

pub record FileEntry (B : Type 0) : Type 0 where
  pub contents : B
  pub modified : ℕ

-- How writing and renaming a temporary file goes. Where the writing fails, it may leave some bytes.
pub data WriteOutcome (B : Type 0) : Type 0 where
  written : WriteOutcome B
  write_failed : Option B → WriteOutcome B
  rename_failed : WriteOutcome B

-- sync.RWMutex
pub record Mutex : Type 0 where
  pub readers : ℕ
  pub writing : Bool

-- A PersistenceManager, `sessions` to `mu`, and what it works on: the sessions that pointers show to,
-- the files, the clock, the project of the working directory, and how writes and removals go.
pub record World (B : Type 0) : Type 0 where
  pub sessions : List (String × ℕ)
  pub index : List (String × String)
  pub mu : Mutex
  pub heap : ℕ → Session
  pub fresh : ℕ
  pub files : List (FileName × FileEntry B)
  pub now : ℕ
  pub project : String
  pub outcomes : List (WriteOutcome B)
  pub can_remove : FileName → Bool

abbrev pub max_session_size : ℕ
max_session_size = 52428800

-- Seven days in seconds, the unit of the clock.
abbrev pub seven_days : ℕ
seven_days = 604800

pub data SaveResult : Type 0 where
  saved too_large not_written index_not_saved : SaveResult

pub data LoadResult : Type 0 where
  loaded : ℕ → LoadResult
  read_error parse_error : LoadResult

pub record SessionInfo : Type 0 where
  pub id : String
  pub message_count : ℕ
  pub token_count : ℕ
  pub file_size : ℕ
  pub last_modified : ℕ

pub data Last : Type 0 where
  no_last last_error : Last
  last_session : ℕ → String → Last

-- The exported fields of a session.
unfoldable pub saved_session : Session → SavedSession
saved_session s = record {
  id = s.id;
  messages = s.messages;
  system_prompt = s.system_prompt;
  token_estimate = s.token_estimate;
}

pub same_name_iff : (a b : FileName) → (same_name a b ≡ true) ↔ (a ≡ b)
same_name_iff (FileName.session_file a) (FileName.session_file b) = ground (arith, eq_iff a b)
same_name_iff (FileName.temp_file a) (FileName.temp_file b) = ground (arith, eq_iff a b)
same_name_iff (FileName.other_file a) (FileName.other_file b) = ground (arith, eq_iff a b)
same_name_iff a b = ground arith

instance abbrev pub name_key : Eq FileName
name_key = record { beq = same_name; beq_iff = same_name_iff }

-- A method on a world; `none` is a call that never returns.
abbrev pub M : Type 0 → Type 0 → Type 0
M B A = World B → Option (A × World B)

module _ {B : Type 0} where
  abbrev pub pure : {A : Type 0} → A → M B A
  pure a w = some (a, w)

  infixl 5 ◌>>=◌ ◌>>◌
  abbrev pub ◌>>=◌ : {A C : Type 0} → M B A → (A → M B C) → M B C
  ◌>>=◌ m f w = elim (m w) [ none ↦ none | some (a, w') ↦ f a w' ]

  abbrev pub ◌>>◌ : {C : Type 0} → M B (Unit {0}) → M B C → M B C
  m >> k = m >>= λ _. k

  abbrev pub modify : (World B → World B) → M B (Unit {0})
  modify f w = some (tt, f w)

  abbrev pub gets : {A : Type 0} → (World B → A) → M B A
  gets f w = some (f w, w)

  unfoldable pub set_mu : ℕ → Bool → World B → World B
  set_mu readers writing w = record w { mu = record { readers = readers; writing = writing } }

  unfoldable pub lock : M B (Unit {0})
  lock w = if w.mu.writing || ltb 0 w.mu.readers then none else some (tt, set_mu 0 true w)

  unfoldable pub unlock : M B (Unit {0})
  unlock w = some (tt, set_mu w.mu.readers false w)

  unfoldable pub r_lock : M B (Unit {0})
  r_lock w = if w.mu.writing then none else some (tt, set_mu (w.mu.readers + 1) false w)

  unfoldable pub r_unlock : M B (Unit {0})
  r_unlock w = some (tt, set_mu (w.mu.readers - 1) w.mu.writing w)

  -- A body behind Lock and `defer Unlock`, and behind RLock and `defer RUnlock`.
  abbrev pub locked : {A : Type 0} → M B A → M B A
  locked body = do lock; a ← body; unlock; pure a

  abbrev pub r_locked : {A : Type 0} → M B A → M B A
  r_locked body = do r_lock; a ← body; r_unlock; pure a

  -- `tmp` is the path with ".tmp" behind it.
  unfoldable pub write_by : WriteOutcome B → FileName → FileName → B → M B Bool
  write_by written path tmp bytes w =
      let entry : FileEntry B = record { contents = bytes; modified = w.now } in
      some (true, record w { files = insert path entry (remove tmp w.files) })
  write_by (write_failed none) path tmp bytes w = some (false, w)
  write_by (write_failed (some part)) path tmp bytes w =
      let entry : FileEntry B = record { contents = part; modified = w.now } in
      some (false, record w { files = insert tmp entry w.files })
  write_by rename_failed path tmp bytes w =
      let entry : FileEntry B = record { contents = bytes; modified = w.now } in
      some (false, record w { files = insert tmp entry w.files })

  unfoldable pub write_next : List (WriteOutcome B) → FileName → FileName → B → M B Bool
  write_next [] path tmp bytes w = write_by written path tmp bytes w
  write_next (o ∷ os) path tmp bytes w = write_by o path tmp bytes (record w { outcomes = os })

  unfoldable pub write_session_file : FileName → FileName → B → M B Bool
  write_session_file path tmp bytes w = write_next w.outcomes path tmp bytes w
