-- ===== src/Session/Recent.antt =====
-- What the limit on the messages of a session (internal/session/session.go) drops, against the
-- history that no limit cuts.
use vibe_local_go.Base.{
  ℕ, zero, suc, ◌+◌, ◌-◌, ◌≤◌, ◌<◌, String, ◌≡◌, refl, ap, ◌∙◌, true, List, [], ◌∷◌, ◌++◌, none,
  some, arith, leb, length, drop, Bool-cases, inl, inr, min, length-append, length-drop,
  drop-append, drop-drop, lt→ltb,
}
use vibe_local_go.Session.{
  text_message, call_message, role_user, role_assistant, result_messages, ToolCall, ToolResult,
  add_user_message, add_assistant_message, add_tool_call, add_tool_results, Session, Message,
  compact_if_needed, append_messages, count_messages, get_messages_for_llm, max_messages,
}
use vibe_local_go.Session.Ops.{
  Op, user_message, assistant_message, tool_call, tool_results, messages_for_llm, token_update,
  clearing, prompt, renaming, load, apply, run, record_op, record_ops,
}

-- `l` is `h` without some oldest messages, and still has 300 of them if any was dropped.
pub record IsRecent (h l : List Message) : Type 0 where
  pub dropped : ℕ
  pub rest : l ≡ drop dropped h
  pub kept : dropped + min 300 (length h) ≤ length h

pub whole-IsRecent : (h : List Message) → IsRecent h h
whole-IsRecent h = record { dropped = 0; rest = refl; kept = omega arith }

append-IsRecent : (h l ms : List Message) → IsRecent h l → IsRecent (h ++ ms) (l ++ ms)
append-IsRecent h l ms r = record {
  dropped = r.dropped;
  rest = rw (drop-append r.dropped h ms (omega arith)) (rw r.rest);
  kept = omega (arith, length-append h ms);
}

drop-IsRecent :
    (h l : List Message) → IsRecent h l → 300 < length l → IsRecent h (drop (length l - 300) l)
drop-IsRecent h l r big = record {
  dropped = r.dropped + (length l - 300);
  rest = ap (drop (length l - 300)) r.rest ∙ drop-drop (length l - 300) r.dropped h;
  kept = omega (arith, ap length r.rest, length-drop r.dropped h);
}

compact-IsRecent :
    (h : List Message) (s : Session)
    → IsRecent h s.messages
    → IsRecent h (compact_if_needed s).messages
unfolding compact_if_needed
compact-IsRecent h s r = elim (Bool-cases (leb max_messages (length s.messages))) [
  | inl e ↦
      rw (e, lt→ltb 300 (length s.messages) (ground arith))
        (drop-IsRecent h s.messages r (ground arith))
  | inr e ↦ rw e r
]

record_append :
    (ms h : List Message) (s : Session)
    → IsRecent h s.messages
    → IsRecent (h ++ ms) (append_messages ms s).messages
record_append ms h s r =
    compact-IsRecent (h ++ ms) (record s { messages = s.messages ++ ms; llm_cache_dirty = true })
      (append-IsRecent h s.messages ms r)

length-count : (ms : List Message) → length (count_messages ms) ≡ length ms
unfolding count_messages
length-count [] = refl
length-count (m ∷ ms) = ap suc (length-count ms)

count-drop : (n : ℕ) (ms : List Message) → count_messages (drop n ms) ≡ drop n (count_messages ms)
unfolding count_messages
count-drop zero ms = refl
count-drop (suc n) [] = refl
count-drop (suc n) (m ∷ ms) = count-drop n ms

count-IsRecent :
    (h l : List Message) → IsRecent h l → IsRecent (count_messages h) (count_messages l)
count-IsRecent h l r = record {
  dropped = r.dropped;
  rest = ap count_messages r.rest ∙ count-drop r.dropped h;
  kept = omega (arith, length-count h);
}

messages-get : (s : Session) → (get_messages_for_llm s).1.messages ≡ s.messages
unfolding get_messages_for_llm
messages-get s = ground arith

apply-IsRecent :
    (op : Op) (h : List Message) (s : Session)
    → IsRecent h s.messages
    → IsRecent (record_op op h) (apply op s).messages
unfolding apply record_op
apply-IsRecent (user_message text) h s r = record_append _ h s r
apply-IsRecent (assistant_message text) h s r = record_append _ h s r
apply-IsRecent (tool_call calls) h s r = record_append _ h s r
apply-IsRecent (tool_results results) h s r = record_append _ h s r
apply-IsRecent messages_for_llm h s r = rw messages-get r
apply-IsRecent token_update h s r = count-IsRecent h s.messages r
apply-IsRecent clearing h s r = whole-IsRecent []
apply-IsRecent (prompt text) h s r = r
apply-IsRecent (renaming id) h s r = r
apply-IsRecent (load none) h s r = r
apply-IsRecent (load (some d)) h s r = whole-IsRecent d.messages

-- The messages of a session refine the history that no limit cuts: whatever the calls of session.go
-- (the compactions of compaction.go are not among them), the session holds the history without some
-- oldest messages, and still has the newest 300 (or all, where the history is shorter).
pub run-IsRecent :
    (ops : List Op) (h : List Message) (s : Session)
    → IsRecent h s.messages
    → IsRecent (record_ops ops h) (run ops s).messages
unfolding run record_ops
run-IsRecent [] h s r = r
run-IsRecent (op ∷ ops) h s r =
    run-IsRecent ops (record_op op h) (apply op s) (apply-IsRecent op h s r)

append-lt-max :
    (ms : List Message) (s : Session) → length (append_messages ms s).messages < max_messages
unfolding compact_if_needed
append-lt-max ms s =
    ground (arith, length-drop (length (s.messages ++ ms) - 300) (s.messages ++ ms))

-- Every call that adds messages leaves fewer than 500, whatever the session held before.
pub adds-lt-max :
    (text : String) (calls : List ToolCall) (results : List ToolResult) (s : Session)
    → (length (add_user_message text s).messages < max_messages)
      × (length (add_assistant_message text s).messages < max_messages)
      × (length (add_tool_call calls s).messages < max_messages)
      × (length (add_tool_results results s).messages < max_messages)
unfolding add_user_message add_assistant_message add_tool_call add_tool_results
adds-lt-max text calls results s = (
  append-lt-max (text_message role_user text ∷ []) s,
  append-lt-max (text_message role_assistant text ∷ []) s,
  append-lt-max (call_message calls ∷ []) s,
  append-lt-max (result_messages results) s,
)
