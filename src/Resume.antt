-- ===== src/Resume.antt =====
-- cmd/vibe/main.go: resumeSession, which rebuilds the session of a new process from a saved one, and
-- the saving in Shutdown. The session of the process is a pointer of the world of Persistence. What is
-- printed is left out, and so are the other steps of a shutdown.
pub mod Restoring
mod Tests
use vibe_local_go.Base.{
  ℕ, ◌==◌, String, Bool, true, false, List, [], ◌∷◌, ◌++◌, Option, none, some, str_eq, is_empty,
  if◌then◌else◌,
}
use vibe_local_go.Session.{
  Session, Message, ToolResult, role_user, role_assistant, role_tool, role_system, role_other,
  add_user_message, add_assistant_message, add_tool_call, add_tool_results, set_system_prompt,
  set_id,
}
use vibe_local_go.Persistence.{
  Codec, World, M, pure, ◌>>=◌, ◌>>◌, modify, SaveResult, LoadResult, loaded, read_error,
  parse_error,
}
use vibe_local_go.Persistence.Manager.{list_sessions, load_session, save_session}

abbrev pub result_of_message : Message → ToolResult
result_of_message m = record { content = m.content; tool_call_id = m.tool_id }

-- The case distinction of the loop; messages with another role are passed over.
unfoldable pub restore_message : Message → Session → Session
restore_message m s = elim m.role [
  | role_user ↦ add_user_message m.content s
  | role_assistant ↦
      if is_empty m.tool_calls
      then add_assistant_message m.content s
      else add_tool_call m.tool_calls s
  | role_tool ↦ add_tool_results (result_of_message m ∷ []) s
  | role_system ↦ s
  | role_other name ↦ s
]

unfoldable pub restore_messages : List Message → Session → Session
restore_messages [] s = s
restore_messages (m ∷ ms) s = restore_messages ms (restore_message m s)

unfoldable pub resumed : Session → Session → Session
resumed l s = restore_messages l.messages (set_system_prompt l.system_prompt (set_id l.id s))

-- sessions[len(sessions)-1]
unfoldable pub last_id : List String → Option String
last_id [] = none
last_id (id ∷ []) = some id
last_id (id ∷ other ∷ ids) = last_id (other ∷ ids)

module _ {B : Type 0} where
  abbrev pub set_session : ℕ → Session → World B → World B
  set_session p s w = record w { heap = λ x. if x == p then s else w.heap x }

  unfoldable pub get_last_session_id : M B (Option String)
  get_last_session_id = do ids ← list_sessions; pure (last_id ids)

  -- A session that could not be loaded leaves that of the process as it is.
  unfoldable pub resume_loaded : ℕ → LoadResult → M B (Unit {0})
  resume_loaded p (loaded q) = modify (λ w. set_session p (resumed (w.heap q) (w.heap p)) w)
  resume_loaded p read_error = pure tt
  resume_loaded p parse_error = pure tt

module _ {B : Type 0} (codec : Codec B) where
  unfoldable pub resume_id : ℕ → Option String → M B (Unit {0})
  resume_id p none = pure tt
  resume_id p (some id) = load_session codec id >>= resume_loaded p

  unfoldable pub resume_session : ℕ → String → M B (Unit {0})
  resume_session p flag =
      if str_eq flag "last"
      then get_last_session_id >>= resume_id p
      else if str_eq flag "list"
      then (do ids ← list_sessions; pure tt)
      else resume_id p (some flag)

  -- The saving of a shutdown, where the session has an ID.
  unfoldable pub save_at_shutdown : ℕ → M B (Option SaveResult)
  save_at_shutdown p w =
      if str_eq (w.heap p).id ""
      then some (none, w)
      else (save_session codec p >>= λ r. pure (some r)) w
