-- ===== src/Session/Ops.antt =====
-- The calls on a session of internal/session/session.go as data, and sequences of them.
use vibe_local_go.Base.{String, List, [], ◌∷◌, ◌++◌, Option, some}
use vibe_local_go.Session.{
  Session, Message, ToolCall, ToolResult, SavedSession, role_user, role_assistant, text_message,
  call_message, result_messages, count_messages, add_user_message, add_assistant_message,
  add_tool_call, add_tool_results, get_messages_for_llm, update_token_count, clear,
  set_system_prompt, from_json, set_id,
}

-- A call that may change the session.
pub data Op : Type 0 where
  user_message assistant_message : String → Op
  tool_call : List ToolCall → Op
  tool_results : List ToolResult → Op
  messages_for_llm token_update clearing : Op
  prompt renaming : String → Op
  load : Option SavedSession → Op

unfoldable pub apply : Op → Session → Session
unfolding add_user_message add_assistant_message add_tool_call add_tool_results get_messages_for_llm
    update_token_count clear set_system_prompt from_json set_id
apply (user_message text) s = add_user_message text s
apply (assistant_message text) s = add_assistant_message text s
apply (tool_call calls) s = add_tool_call calls s
apply (tool_results results) s = add_tool_results results s
apply messages_for_llm s = (get_messages_for_llm s).1
apply token_update s = update_token_count s
apply clearing s = clear s
apply (prompt text) s = set_system_prompt text s
apply (renaming text) s = set_id text s
apply (load saved) s = (from_json saved s).0

unfoldable pub run : List Op → Session → Session
run [] s = s
run (op ∷ ops) s = run ops (apply op s)

-- The history that no limit cuts: what each call does to the list of all messages.
unfoldable pub record_op : Op → List Message → List Message
unfolding result_messages count_messages
record_op (user_message text) h = h ++ text_message role_user text ∷ []
record_op (assistant_message text) h = h ++ text_message role_assistant text ∷ []
record_op (tool_call calls) h = h ++ call_message calls ∷ []
record_op (tool_results results) h = h ++ result_messages results
record_op token_update h = count_messages h
record_op clearing h = []
record_op (load (some saved)) h = saved.messages
record_op _ h = h

unfoldable pub record_ops : List Op → List Message → List Message
record_ops [] h = h
record_ops (op ∷ ops) h = record_ops ops (record_op op h)
