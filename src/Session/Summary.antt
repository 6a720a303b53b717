-- ===== src/Session/Summary.antt =====
-- summarizeMessages of internal/session/compaction.go. Its error is always nil. `order` is the
-- order in which the runtime visits the map of tool counts, which Go leaves open.
use Prim.Native.String.{slice}
use vibe_local_go.Base.{
  ℕ, ◌+◌, ◌-◌, String, len, ◌||◌, List, [], ◌∷◌, map, leb, ltb, if◌then◌else◌, length, drop,
  is_empty, concat, join, decimal, lookup, insert, or_zero, string_key, str_eq,
}
use vibe_local_go.Session.{Message, ToolCall, MessageRole, role_user, role_assistant}

-- The variables of the counting loop.
pub record Counts : Type 0 where
  pub tool_calls : List (String × ℕ)
  pub user_actions : ℕ
  pub assistant_responses : ℕ

-- toolCalls[tc.Function.Name]++ for each call of a message
count_calls : List ToolCall → List (String × ℕ) → List (String × ℕ)
unfolding lookup insert
count_calls [] m = m
count_calls (c ∷ cs) m =
    count_calls cs (insert c.function.name (or_zero (lookup c.function.name m) + 1) m)

count_message : MessageRole → List ToolCall → Counts → Counts
unfolding count_calls
count_message role_user calls n = record n { user_actions = n.user_actions + 1 }
count_message role_assistant calls n = record n {
  assistant_responses = n.assistant_responses + 1;
  tool_calls = count_calls calls n.tool_calls;
}
count_message _ calls n = n

unfoldable pub count_actions : List Message → Counts → Counts
unfolding count_message
count_actions [] n = n
count_actions (m ∷ ms) n = count_actions ms (count_message m.role m.tool_calls n)

-- content[:maxLength] counts bytes
unfoldable pub truncate_for_summary : String → ℕ → String
truncate_for_summary content max_length =
    if leb (len content) max_length
    then content
    else concat (slice content 0 max_length ∷ "..." ∷ [])

abbrev call_name : ToolCall → String
call_name c = c.function.name

-- The lines that one recent message adds; `i` is its number, from 1.
recent_line : ℕ → Message → MessageRole → String
unfolding truncate_for_summary decimal
recent_line i m role_user =
    concat (decimal i ∷ ". User: " ∷ truncate_for_summary m.content 100 ∷ "\n" ∷ [])
recent_line i m role_assistant = concat (
    (if str_eq m.content ""
      then ""
      else concat (decimal i ∷ ". Assistant: " ∷ truncate_for_summary m.content 100 ∷ "\n" ∷ []))
    ∷ (if is_empty m.tool_calls
        then ""
        else concat (
            decimal i
            ∷ ". Assistant called: "
            ∷ join ", " (map call_name m.tool_calls)
            ∷ "\n"
            ∷ []))
    ∷ [])
recent_line i m _ = ""

recent_lines : ℕ → List Message → String
unfolding recent_line
recent_lines i [] = ""
recent_lines i (m ∷ ms) = concat (recent_line i m m.role ∷ recent_lines (i + 1) ms ∷ [])

tool_lines : List (String × ℕ) → String
unfolding decimal
tool_lines [] = ""
tool_lines ((tool, count) ∷ m) =
    concat ("  * " ∷ tool ∷ ": " ∷ decimal count ∷ " time(s)\n" ∷ tool_lines m ∷ [])

action_lines : Counts → String
unfolding decimal
action_lines n =
    if ltb 0 n.user_actions || ltb 0 n.assistant_responses
    then concat (
        "- User actions: "
        ∷ decimal n.user_actions
        ∷ "\n- Assistant responses: "
        ∷ decimal n.assistant_responses
        ∷ "\n"
        ∷ [])
    else ""

module _ (order : List (String × ℕ) → List (String × ℕ)) where
  summary_text : List Message → Counts → String
  unfolding action_lines tool_lines recent_lines
  summary_text ms n = concat (
      "Summary of previous conversation:\n"
      ∷ action_lines n
      ∷ (if is_empty n.tool_calls
          then ""
          else concat ("- Tools used:\n" ∷ tool_lines (order n.tool_calls) ∷ []))
      ∷ (if ltb 5 (length ms)
          then concat ("\nRecent context:\n" ∷ recent_lines 1 (drop (length ms - 5) ms) ∷ [])
          else "")
      ∷ [])

  unfoldable pub summarize_messages : List Message → String
  unfolding summary_text count_actions
  summarize_messages ms =
      if is_empty ms
      then ""
      else summary_text ms
          (count_actions ms (record { tool_calls = []; user_actions = 0; assistant_responses = 0 }))
