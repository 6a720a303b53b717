-- ===== src/Session.antt =====
-- internal/session/session.go: a chat session, its history and the cache of the messages that are
-- sent to the model. Every method holds the session's lock, so a call is one step on the record.
-- Token counts are non-negative numbers: the code never stores another.
pub mod Ops
pub mod Cache
pub mod Recent
pub mod Summary
pub mod Compaction
mod Tests
use vibe_local_go.Base.{
  ℕ, suc, ◌+◌, ◌-◌, String, len, Bool, true, false, not, ◌&&◌, List, [], ◌∷◌, ◌++◌, Option, none,
  some, leb, ltb, if◌then◌else◌, str_eq, length, take, drop, is_empty,
}
use vibe_local_go.Token.{estimate_tokens}

abbrev pub max_messages : ℕ
max_messages = 500

-- MessageRole is a string type with four constants; a history loaded from a file may hold others.
pub data MessageRole : Type 0 where
  role_system role_user role_assistant role_tool : MessageRole
  role_other : String → MessageRole

pub record FunctionCall : Type 0 where
  pub name : String
  pub arguments : String

pub record ToolCall : Type 0 where
  pub id : String
  pub kind : String  -- the field Type
  pub function : FunctionCall

pub record Message : Type 0 where
  pub role : MessageRole
  pub content : String
  pub tool_calls : List ToolCall
  pub tool_id : String
  pub token_count : ℕ

pub record ToolResult : Type 0 where
  pub content : String
  pub tool_call_id : String

-- map[string]interface{} of a message: `role` and `content` always, the other keys where set.
pub record LlmMessage : Type 0 where
  pub role : String
  pub content : String
  pub tool_calls : Option (List ToolCall)
  pub tool_call_id : Option String

pub record Session : Type 0 where
  pub id : String
  pub messages : List Message
  pub system_prompt : String
  pub token_estimate : ℕ
  pub cached_llm_messages : Option (List LlmMessage)  -- none is nil
  pub llm_cache_dirty : Bool

unfoldable pub new_session : String → String → Session
new_session id system_prompt = record {
  id = id;
  messages = [];
  system_prompt = system_prompt;
  token_estimate = len system_prompt;
  cached_llm_messages = none;
  llm_cache_dirty = true;
}

-- Message{Role: role, Content: content}
abbrev pub text_message : MessageRole → String → Message
text_message role content = record {
  role = role;
  content = content;
  tool_calls = [];
  tool_id = "";
  token_count = 0;
}

-- `TokenEstimate -= msg.TokenCount` over dropped messages, and the clamp at 0 that follows.
unfoldable pub drop_counts : ℕ → List Message → ℕ
drop_counts estimate [] = estimate
drop_counts estimate (m ∷ ms) = drop_counts (estimate - m.token_count) ms

unfoldable pub compact : Session → Session
compact s =
    let n = length s.messages in
    if ltb 300 n
    then record s {
      messages = drop (n - 300) s.messages;
      token_estimate = drop_counts s.token_estimate (take (n - 300) s.messages);
      llm_cache_dirty = true;
      cached_llm_messages = none;
    }
    else s

unfoldable pub compact_if_needed : Session → Session
unfolding compact
compact_if_needed s = if leb max_messages (length s.messages) then compact s else s

-- append, mark the cache dirty, compact
abbrev append_messages : List Message → Session → Session
append_messages ms s =
    compact_if_needed (record s { messages = s.messages ++ ms; llm_cache_dirty = true })

unfoldable pub add_user_message : String → Session → Session
unfolding compact_if_needed
add_user_message content s = append_messages (text_message role_user content ∷ []) s

unfoldable pub add_assistant_message : String → Session → Session
unfolding compact_if_needed
add_assistant_message content s = append_messages (text_message role_assistant content ∷ []) s

abbrev pub call_message : List ToolCall → Message
call_message calls = record {
  role = role_assistant;
  content = "";
  tool_calls = calls;
  tool_id = "";
  token_count = 0;
}

unfoldable pub add_tool_call : List ToolCall → Session → Session
unfolding compact_if_needed
add_tool_call calls s = append_messages (call_message calls ∷ []) s

unfoldable pub result_messages : List ToolResult → List Message
result_messages [] = []
result_messages (r ∷ rs) =
    record {
      role = role_tool;
      content = r.content;
      tool_calls = [];
      tool_id = r.tool_call_id;
      token_count = 0;
    }
    ∷ result_messages rs

unfoldable pub add_tool_results : List ToolResult → Session → Session
unfolding compact_if_needed result_messages
add_tool_results results s = append_messages (result_messages results) s

-- string(msg.Role)
unfoldable pub role_text : MessageRole → String
role_text role_system = "system"
role_text role_user = "user"
role_text role_assistant = "assistant"
role_text role_tool = "tool"
role_text (role_other s) = s

unfoldable pub render_message : Message → LlmMessage
unfolding role_text
render_message m = record {
  role = role_text m.role;
  content = m.content;
  tool_calls = (if is_empty m.tool_calls then none else some m.tool_calls);
  tool_call_id = (if str_eq m.tool_id "" then none else some m.tool_id);
}

unfoldable pub render_messages : List Message → List LlmMessage
unfolding render_message
render_messages [] = []
render_messages (m ∷ ms) = render_message m ∷ render_messages ms

unfoldable pub render_prompt : String → List LlmMessage
unfolding role_text
render_prompt prompt =
    if str_eq prompt ""
    then []
    else record {
      role = role_text role_system;
      content = prompt;
      tool_calls = none;
      tool_call_id = none;
    }
      ∷ []

-- The list that GetMessagesForLLM builds when it rebuilds its cache.
unfoldable pub rebuild : Session → List LlmMessage
unfolding render_prompt render_messages
rebuild s = render_prompt s.system_prompt ++ render_messages s.messages

-- `!s.llmCacheDirty && s.cachedLLMMessages != nil`
cached_list : Bool → Option (List LlmMessage) → Option (List LlmMessage)
cached_list true cached = none
cached_list false cached = cached

serve_messages : Option (List LlmMessage) → Session → List LlmMessage × Session
unfolding rebuild
serve_messages (some l) s = (l, s)
serve_messages none s =
    (rebuild s, record s { cached_llm_messages = some (rebuild s); llm_cache_dirty = false })

unfoldable pub get_messages_for_llm : Session → List LlmMessage × Session
unfolding serve_messages cached_list
get_messages_for_llm s = serve_messages (cached_list s.llm_cache_dirty s.cached_llm_messages) s

unfoldable pub count_messages : List Message → List Message
unfolding estimate_tokens
count_messages [] = []
count_messages (m ∷ ms) = record m { token_count = estimate_tokens m.content } ∷ count_messages ms

unfoldable pub total_count : List Message → ℕ
total_count [] = 0
total_count (m ∷ ms) = m.token_count + total_count ms

unfoldable pub update_token_count : Session → Session
unfolding count_messages total_count
update_token_count s = record s {
  messages = count_messages s.messages;
  token_estimate = total_count (count_messages s.messages);
}

unfoldable pub clear : Session → Session
clear s = record s {
  messages = [];
  token_estimate = len s.system_prompt;
  llm_cache_dirty = true;
  cached_llm_messages = none;
}

unfoldable pub set_system_prompt : String → Session → Session
set_system_prompt prompt s = record s { system_prompt = prompt; llm_cache_dirty = true }

unfoldable pub get_last_n_messages : ℕ → Session → List Message
get_last_n_messages n s =
    if leb (length s.messages) n then s.messages else drop (length s.messages - n) s.messages

unfoldable pub clone : Session → Session
clone s = record s { cached_llm_messages = none; llm_cache_dirty = false }

-- What json.Unmarshal reads of a session: the exported fields.
pub record SavedSession : Type 0 where
  pub id : String
  pub messages : List Message
  pub system_prompt : String
  pub token_estimate : ℕ

-- `none` is an error of json.Unmarshal; the Boolean says whether it was returned.
unfoldable pub from_json : Option SavedSession → Session → Session × Bool
from_json none s = (s, false)
from_json (some d) s = (
  record s {
    id = d.id;
    messages = d.messages;
    system_prompt = d.system_prompt;
    token_estimate = d.token_estimate;
    llm_cache_dirty = true;
    cached_llm_messages = none;
  },
  true,
)

unfoldable pub set_id : String → Session → Session
set_id id s = record s { id = id }

last_has_calls : List Message → Bool
last_has_calls [] = false
last_has_calls (m ∷ []) = not (is_empty m.tool_calls)
last_has_calls (m ∷ n ∷ ms) = last_has_calls (n ∷ ms)

unfoldable pub has_tool_calls : Session → Bool
unfolding last_has_calls
has_tool_calls s = last_has_calls s.messages

abbrev pub is_assistant : MessageRole → Bool
is_assistant role_assistant = true
is_assistant _ = false

-- The loop runs from the end: the result for a list is that of its tail, if it has one.
last_assistant : List Message → Option Message
last_assistant [] = none
last_assistant (m ∷ ms) = elim (last_assistant ms) [
  | some found ↦ some found
  | none ↦ if is_assistant m.role then some m else none
]

unfoldable pub get_last_assistant_message : Session → Option Message
unfolding last_assistant
get_last_assistant_message s = last_assistant s.messages
