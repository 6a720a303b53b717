-- ===== src/Watcher.antt =====
-- internal/watcher/watcher.go: the watcher that polls files for changes. `W` below is a poll's view of
-- the disk: the files that match the patterns, in the order of the code, and the times of their last
-- change, `none` where Stat fails. Times are numbers. The select of the loop and the timer that
-- batches events are left out.
pub mod Polling
pub mod Lifecycle
mod Tests
use vibe_local_go.Base.{
  ℕ, String, Bool, true, false, not, List, [], ◌∷◌, ◌++◌, Option, none, some, any, lookup, insert,
  remove, string_key, str_eq, ltb, is_empty, length, if◌then◌else◌,
}

pub data EventType : Type 0 where
  event_modified event_created event_deleted : EventType

-- The time of an event that a file is gone is the clock's, and left out.
pub record FileEvent : Type 0 where
  pub path : String
  pub event_type : EventType

unfoldable pub event_text : EventType → String
event_text event_modified = "modified"
event_text event_created = "created"
event_text event_deleted = "deleted"

abbrev pub States : Type 0
States = List (String × ℕ)

pub record View : Type 0 where
  pub matches : List String
  pub mod_time : String → Option ℕ

-- `stop_closed` says whether the channel `stop` is closed.
pub record FileWatcher : Type 0 where
  pub patterns : List String
  pub file_states : States
  pub running : Bool
  pub stop_closed : Bool

unfoldable pub new_file_watcher : FileWatcher
new_file_watcher = record { patterns = []; file_states = []; running = false; stop_closed = false }

-- The loop of scanFiles.
unfoldable pub scan_files : (String → Option ℕ) → List String → States → States
scan_files mod_time [] states = states
scan_files mod_time (path ∷ paths) states =
    scan_files mod_time paths
      (elim (mod_time path) [ none ↦ states | some t ↦ insert path t states ])

-- A file that stands in the view.
unfoldable pub see_file : String → Option ℕ → States → List FileEvent × States
see_file path none states = ([], states)
see_file path (some t) states = elim (lookup path states) [
  | none ↦ (record { path = path; event_type = event_created } ∷ [], insert path t states)
  | some last ↦
      if ltb last t
      then (record { path = path; event_type = event_modified } ∷ [], insert path t states)
      else ([], states)
]

-- The first loop of detectChanges.
unfoldable pub see_files : (String → Option ℕ) → List String → States → List FileEvent × States
unfolding see_file
see_files mod_time [] states = ([], states)
see_files mod_time (path ∷ paths) states =
    let (events, states') = see_file path (mod_time path) states in
    let (more, states'') = see_files mod_time paths states' in (events ++ more, states'')

abbrev pub is_current : List String → String → Bool
is_current matches path = any (λ m. str_eq m path) matches

-- The second loop: the files that are gone, and the states without them.
unfoldable pub gone_files : List String → States → List FileEvent × States
gone_files matches [] = ([], [])
gone_files matches ((path, t) ∷ states) =
    let (events, rest) = gone_files matches states in
    if is_current matches path
    then (events, (path, t) ∷ rest)
    else (record { path = path; event_type = event_deleted } ∷ events, rest)

unfoldable pub detect_changes : View → States → List FileEvent × States
unfolding see_files gone_files
detect_changes view states =
    let (seen, states') = see_files view.mod_time view.matches states in
    let (gone, states'') = gone_files view.matches states' in (seen ++ gone, states'')

-- What Start returns: an error, or nil with the loop started.
pub data Started : Type 0 where
  start_error : String → Started
  started : FileWatcher → Started

unfoldable pub start : List String → View → FileWatcher → Started
unfolding scan_files
start patterns view fw =
    if fw.running
    then start_error "watcher already running"
    else if is_empty patterns
    then start_error "at least one pattern is required"
    else started (record fw {
      patterns = patterns;
      running = true;
      file_states = scan_files view.mod_time view.matches fw.file_states;
    })

-- What Stop does: it returns, or closes a closed channel.
pub data Stopped : Type 0 where
  stopped : FileWatcher → Stopped
  panicked : Stopped

unfoldable pub stop : FileWatcher → Stopped
stop fw =
    if not fw.running
    then stopped fw
    else if fw.stop_closed
    then panicked
    else stopped (record fw { stop_closed = true; running = false })

-- Whether the loop goes on where it selects: a closed channel ends it.
abbrev pub polls : FileWatcher → Bool
polls fw = not fw.stop_closed

abbrev pub watched_file_count : FileWatcher → ℕ
watched_file_count fw = length fw.file_states
