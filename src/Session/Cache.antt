-- ===== src/Session/Cache.antt =====
-- The cache of GetMessagesForLLM (internal/session/session.go).
use vibe_local_go.Base.{
  String, ◌≡◌, refl, ap, Bool, true, false, List, [], ◌∷◌, ◌++◌, Option, none, some, arith,
}
use vibe_local_go.Session.{
  SavedSession, set_id, Session, Message, LlmMessage, compact_if_needed, rebuild, render_messages,
  render_message, count_messages, get_messages_for_llm, update_token_count, from_json, new_session,
  append_messages, serve_messages, cached_list,
}
use vibe_local_go.Session.Ops.{
  Op, user_message, assistant_message, tool_call, tool_results, messages_for_llm, token_update,
  clearing, prompt, renaming, load, apply, run,
}

-- A list that the next call would serve from the cache is the list that a rebuild would give.
pub record IsCoherent (s : Session) : Type 0 where
  pub served :
      (l : List LlmMessage)
      → s.llm_cache_dirty ≡ false
      → s.cached_llm_messages ≡ some l
      → l ≡ rebuild s

dirty-IsCoherent : (s : Session) → s.llm_cache_dirty ≡ true → IsCoherent s
dirty-IsCoherent s d = record { served = λ l h e. cc }

compact_if_needed_dirty :
    (s : Session) → s.llm_cache_dirty ≡ true → (compact_if_needed s).llm_cache_dirty ≡ true
unfolding compact_if_needed
compact_if_needed_dirty s h = ground arith

append-IsCoherent : (ms : List Message) (s : Session) → IsCoherent (append_messages ms s)
append-IsCoherent ms s = dirty-IsCoherent _ (
    compact_if_needed_dirty (record s { messages = s.messages ++ ms; llm_cache_dirty = true }) refl)

render-count : (ms : List Message) → render_messages (count_messages ms) ≡ render_messages ms
unfolding render_messages count_messages
render-count [] = refl
render-count (m ∷ ms) = ap (λ l. render_message m ∷ l) (render-count ms)

update-IsCoherent : (s : Session) → IsCoherent s → IsCoherent (update_token_count s)
unfolding update_token_count rebuild
update-IsCoherent s h = record { served = λ l d e. rw (render-count s.messages) (h.served l d e) }

serve_from :
    (o : Option (List LlmMessage)) (s : Session) → IsCoherent s → IsCoherent (serve_messages o s).1
unfolding serve_messages rebuild
serve_from none s h = record { served = λ l d e. cc }
serve_from (some l) s h = h

serve-IsCoherent : (s : Session) → IsCoherent s → IsCoherent (get_messages_for_llm s).1
unfolding get_messages_for_llm
serve-IsCoherent s h = serve_from (cached_list s.llm_cache_dirty s.cached_llm_messages) s h

load-IsCoherent :
    (s : Session) (o : Option SavedSession) → IsCoherent s → IsCoherent (from_json o s).0
unfolding from_json
load-IsCoherent s none h = h
load-IsCoherent s (some d) h = dirty-IsCoherent _ refl

set_id-IsCoherent : (id : String) (s : Session) → IsCoherent s → IsCoherent (set_id id s)
unfolding set_id rebuild
set_id-IsCoherent id s h = record { served = h.served }

apply-IsCoherent : (op : Op) (s : Session) → IsCoherent s → IsCoherent (apply op s)
unfolding apply
apply-IsCoherent (user_message text) s h = append-IsCoherent _ s
apply-IsCoherent (assistant_message text) s h = append-IsCoherent _ s
apply-IsCoherent (tool_call calls) s h = append-IsCoherent _ s
apply-IsCoherent (tool_results results) s h = append-IsCoherent _ s
apply-IsCoherent messages_for_llm s h = serve-IsCoherent s h
apply-IsCoherent token_update s h = update-IsCoherent s h
apply-IsCoherent clearing s h = dirty-IsCoherent _ refl
apply-IsCoherent (prompt text) s h = dirty-IsCoherent _ refl
apply-IsCoherent (renaming id) s h = set_id-IsCoherent id s h
apply-IsCoherent (load saved) s h = load-IsCoherent s saved h

pub run-IsCoherent : (ops : List Op) (s : Session) → IsCoherent s → IsCoherent (run ops s)
unfolding run
run-IsCoherent [] s h = h
run-IsCoherent (op ∷ ops) s h = run-IsCoherent ops (apply op s) (apply-IsCoherent op s h)

get_by :
    (d : Bool) (c : Option (List LlmMessage)) (s : Session)
    → s.llm_cache_dirty ≡ d
    → s.cached_llm_messages ≡ c
    → IsCoherent s
    → (serve_messages (cached_list d c) s).0 ≡ rebuild s
unfolding serve_messages cached_list
get_by true c s p q h = refl
get_by false none s p q h = refl
get_by false (some l) s p q h = h.served l p q

pub get-eq-rebuild : (s : Session) → IsCoherent s → (get_messages_for_llm s).0 ≡ rebuild s
unfolding get_messages_for_llm
get-eq-rebuild s h = get_by s.llm_cache_dirty s.cached_llm_messages s refl refl h

-- After any sequence of calls of session.go on a new session, GetMessagesForLLM returns the list
-- that a rebuild from the system prompt and the messages gives: the cache is never stale.
pub get-run_fresh :
    (ops : List Op) (id text : String)
    → (get_messages_for_llm (run ops (new_session id text))).0
      ≡ rebuild (run ops (new_session id text))
unfolding new_session
get-run_fresh ops id text =
    get-eq-rebuild (run ops (new_session id text))
      (run-IsCoherent ops (new_session id text) (dirty-IsCoherent _ refl))
