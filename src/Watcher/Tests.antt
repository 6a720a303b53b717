-- ===== src/Watcher/Tests.antt =====
-- Polls of the file watcher (internal/watcher/watcher.go), and the theorems about them.
use vibe_local_go.Base.{
  ◌≡◌, refl, true, false, [], ◌∷◌, none, some, lookup, insert, string_key, str_eq, if◌then◌else◌,
}
use vibe_local_go.Watcher.{
  View, States, FileWatcher, event_created, event_modified, event_deleted, detect_changes,
  see_files, see_file, gone_files,
}
use vibe_local_go.Watcher.Polling.{remembered, detect_changes-remembered}

abbrev view : View
view = record {
  matches = "a" ∷ "b" ∷ "a" ∷ [];
  mod_time = λ path. if str_eq path "a" then some 7 else some 3;
}

abbrev known : States
known = ("a", 5) ∷ ("c", 1) ∷ []

finds_changes :
    (detect_changes view known).0
    ≡ record { path = "a"; event_type = event_modified }
      ∷ record { path = "b"; event_type = event_created }
      ∷ record { path = "c"; event_type = event_deleted }
      ∷ []
unfolding detect_changes see_files see_file gone_files lookup insert
finds_changes = refl

-- A file that is replaced by an older one is not reported.
misses_older : (detect_changes view (("a", 9) ∷ ("b", 3) ∷ [])).0 ≡ []
unfolding detect_changes see_files see_file gone_files lookup insert
misses_older = refl

abbrev running : FileWatcher
running = record { patterns = "*" ∷ []; file_states = []; running = true; stop_closed = false }

abbrev halted : FileWatcher
halted = record { patterns = "*" ∷ []; file_states = []; running = false; stop_closed = true }

abbrev restarted : FileWatcher
restarted = record { patterns = "*" ∷ []; file_states = []; running = true; stop_closed = true }

abbrev empty_view : View
empty_view = record { matches = []; mod_time = λ path. none }

detect_changes-remembered_example :
    lookup "a" (detect_changes view known).1 ≡ remembered view known "a"
detect_changes-remembered_example = detect_changes-remembered view known "a"
