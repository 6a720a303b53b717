-- ===== src/Persistence/Tests.antt =====
-- Sessions in files (internal/session/persistence.go), and the theorems about them at an input.
use vibe_local_go.Base.{
  ℕ, ◌≡◌, ◌↔◌, refl, true, false, List, [], ◌∷◌, Option, none, some, lookup, insert, remove,
  string_key,
}
use vibe_local_go.Session.{SavedSession, new_session}
use vibe_local_go.Persistence.{
  FileName, SessionIndex, name_key, Codec, World, written, rename_failed, saved, index_not_saved,
  set_mu, lock, unlock, r_lock, r_unlock, write_session_file, write_next, write_by, read_error,
  Last, saved_session,
}
use vibe_local_go.Persistence.Manager.{
  index_entries, remove_first, save_unlocked, save_written, save_index, last_of, last_cached,
  load_cached, load_bytes, delete_unlocked, remove_file, after_removal, cleanup_unlocked,
  clean_files, clean_file, cleaned_up, save_session, load_session, get_last_session, delete_session,
  cleanup_old_sessions, new_persistence_manager,
}
use vibe_local_go.Persistence.Locks.{IsUnlocked}
use vibe_local_go.Persistence.Returning.{Call, call_all, call_all-returns}
use vibe_local_go.Persistence.Saving.{save_result, Saves, save_session-Saves}
use vibe_local_go.Persistence.Deadlock.{IsForgotten, get_last_session-blocks_iff}
use vibe_local_go.Persistence.Restart.{Loads, save_session-restarted}

-- Contents of files by what they stand for.
pub data Content : Type 0 where
  session_data : SavedSession → Content
  index_data : List SessionIndex → Content

abbrev pub decode_session : Content → Option SavedSession
decode_session (session_data s) = some s
decode_session (index_data l) = none

abbrev pub decode_index : Content → Option (List SessionIndex)
decode_index (session_data s) = none
decode_index (index_data l) = some l

abbrev pub codec : Codec Content
codec = record {
  encode_session = session_data;
  decode_session = decode_session;
  encode_index = index_data;
  decode_index = decode_index;
  size = λ b. 100;
}

-- A session s1 at every pointer, and nothing saved.
abbrev pub world : World Content
world = record {
  sessions = [];
  index = [];
  mu = record { readers = 0; writing = false };
  heap = λ p. new_session "s1" "prompt";
  fresh = 1;
  files = [];
  now = 1000;
  project = "_home_me";
  outcomes = [];
  can_remove = λ name. true;
}

abbrev pub value_of : {A : Type 0} → Option (A × World Content) → Option A
value_of none = none
value_of (some (a, w)) = some a

abbrev pub after : {A : Type 0} → Option (A × World Content) → World Content
after none = world
after (some (a, w)) = w

-- A world where s1 is saved from the pointer 0.
pub saved_world : World Content
unfolding save_session save_unlocked save_written save_index write_session_file write_next write_by
    lock unlock set_mu index_entries insert remove new_session saved_session
saved_world = after (save_session codec 0 world)

-- A world where two projects have one session.
abbrev shared_world : World Content
shared_world = record world {
  index = ("a", "s1") ∷ ("b", "s1") ∷ [];
  files =
      (
        FileName.session_file "s1",
        record {
          contents =
              session_data
                (record { id = "s1"; messages = []; system_prompt = ""; token_estimate = 0 });
          modified = 0;
        },
      )
      ∷ [];
  now = 700000;
  project = "a";
}

saves : value_of (save_session codec 0 world) ≡ some saved
unfolding save_session save_unlocked save_written save_index write_session_file write_next write_by
    lock unlock set_mu index_entries insert remove new_session saved_session
saves = refl

-- The second write, of the index, fails.
saves_half :
    value_of (save_session codec 0 (record world { outcomes = written ∷ rename_failed ∷ [] }))
    ≡ some index_not_saved
unfolding save_session save_unlocked save_written save_index write_session_file write_next write_by
    lock unlock set_mu index_entries insert remove new_session saved_session
saves_half = refl

-- In the process that saved it, the session is in the cache.
finds_last : value_of (get_last_session codec saved_world) ≡ some (Last.last_session 0 "s1")
unfolding saved_world get_last_session last_of last_cached r_lock r_unlock set_mu lookup
finds_last = refl

-- Only the first project of a deleted session is taken from the index.
leaves_project : (after (delete_session codec "s1" shared_world)).index ≡ ("b", "s1") ∷ []
unfolding delete_session delete_unlocked remove_file after_removal save_session save_unlocked
    save_written save_index write_session_file write_next write_by lock unlock set_mu index_entries
    insert remove new_session saved_session lookup remove_first
leaves_project = refl

-- A cleanup of old files leaves the index as it is.
leaves_index :
    (after (cleanup_old_sessions codec shared_world)).index ≡ ("a", "s1") ∷ ("b", "s1") ∷ []
unfolding cleanup_old_sessions cleanup_unlocked clean_files clean_file cleaned_up save_session
    save_unlocked save_written save_index write_session_file write_next write_by lock unlock set_mu
    index_entries insert remove new_session saved_session lookup
leaves_index = refl

cannot_load :
    value_of (load_session codec "s1" (after (cleanup_old_sessions codec shared_world)))
    ≡ some read_error
unfolding cleanup_old_sessions cleanup_unlocked clean_files clean_file cleaned_up save_session
    save_unlocked save_written save_index write_session_file write_next write_by lock unlock set_mu
    index_entries insert remove new_session saved_session lookup load_session load_cached load_bytes
    r_lock r_unlock
cannot_load = refl

call_all-returns_example :
    (w' : World Content) × (call_all codec
        (Call.save 0 ∷ Call.load "s2" ∷ Call.delete "s1" ∷ Call.info "s2" ∷ [])
        world
      ≡ some w')
    × IsUnlocked w'
call_all-returns_example =
    call_all-returns codec (Call.save 0 ∷ Call.load "s2" ∷ Call.delete "s1" ∷ Call.info "s2" ∷ [])
      world (refl, refl)

save_session-Saves_example :
    (w' : World Content) × (save_session codec 0 world ≡ some (save_result codec 0 world, w'))
    × Saves codec 0 (save_result codec 0 world) world w'
save_session-Saves_example = save_session-Saves codec 0 world (refl, refl)

get_last_session-blocks_iff_example :
    (get_last_session codec shared_world ≡ none) ↔ IsForgotten codec shared_world
get_last_session-blocks_iff_example = get_last_session-blocks_iff codec shared_world (refl, refl)

abbrev Restarts : World Content → Type 0
Restarts w =
    (w2 : World Content) × (new_persistence_manager codec w ≡ some w2)
    × Loads codec (world.heap 0).id (saved_session (world.heap 0)) w2
    × (w2.fresh ≡ w.fresh)
    × ((x : ℕ) → w2.heap x ≡ w.heap x)
    × (get_last_session codec w2 ≡ none)

pub saves_world : save_session codec 0 world ≡ some (saved, saved_world)
unfolding saved_world save_session save_unlocked save_written save_index write_session_file
    write_next write_by lock unlock set_mu index_entries insert remove new_session saved_session
saves_world = refl

pub fresh_stays : saved_world.fresh ≡ 1
unfolding saved_world save_session save_unlocked save_written save_index write_session_file
    write_next write_by lock unlock set_mu index_entries insert remove new_session saved_session
fresh_stays = refl

save_session-restarted_example : Restarts saved_world
save_session-restarted_example =
    save_session-restarted codec 0 world saved_world (refl, refl) tt (λ s. refl) (λ l. refl)
      saves_world
