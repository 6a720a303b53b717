-- ===== src/Resume/Restoring.antt =====
-- What a resumed session holds (cmd/vibe/main.go), on Session and Persistence.
use vibe_local_go.Base.{
  ℕ, ◌==◌, ==_iff, ◌≡◌, ◌≢◌, refl, sym, ap, subst, ◌∙◌, String, true, false, List, [], ◌∷◌, ◌++◌,
  some, append_assoc, append-nil, str_eq, is_empty, Bool-cases, inl, inr, arith, if◌then◌else◌,
}
use vibe_local_go.Session.{
  Session, SavedSession, Message, MessageRole, role_user, role_assistant, role_tool, role_system,
  role_other, text_message, call_message, result_messages, compact, compact_if_needed,
  add_user_message, add_assistant_message, add_tool_call, add_tool_results, set_system_prompt,
  set_id,
}
use vibe_local_go.Session.Ops.{
  Op, user_message, assistant_message, tool_call, tool_results, apply, run, record_op, record_ops,
}
use vibe_local_go.Session.Recent.{IsRecent, whole-IsRecent, run-IsRecent}
use vibe_local_go.Persistence.{Codec, World, saved, SessionIndex, saved_session}
use vibe_local_go.Persistence.Manager.{save_session, load_session, new_persistence_manager}
use vibe_local_go.Persistence.Locks.{IsUnlocked, >>=-eq}
use vibe_local_go.Persistence.Restart.{IsMap, Loads, save_session-restarted}
use vibe_local_go.Resume.{
  result_of_message, restore_message, restore_messages, resumed, set_session, resume_loaded,
  resume_id, resume_session,
}

-- What is left of a message: one with tool calls loses its text, a result its calls and every message
-- its count of tokens; messages of the system and of unknown roles are gone.
abbrev pub left_of : Message → List Message
left_of m = elim m.role [
  | role_user ↦ text_message role_user m.content ∷ []
  | role_assistant ↦
      (if is_empty m.tool_calls
        then text_message role_assistant m.content
        else call_message m.tool_calls)
      ∷ []
  | role_tool ↦ result_messages (result_of_message m ∷ [])
  | role_system ↦ []
  | role_other name ↦ []
]

abbrev pub all_left : List Message → List Message
all_left [] = []
all_left (m ∷ ms) = left_of m ++ all_left ms

-- Restoring a message as calls on a session.
calls_of : MessageRole → Message → List Op
calls_of role_user m = user_message m.content ∷ []
calls_of role_assistant m =
    (if is_empty m.tool_calls then assistant_message m.content else tool_call m.tool_calls) ∷ []
calls_of role_tool m = tool_results (result_of_message m ∷ []) ∷ []
calls_of role_system m = []
calls_of (role_other name) m = []

abbrev with_role : MessageRole → Message → Message
with_role r m = record m { role = r }

restore-run :
    (r : MessageRole) (m : Message) (s : Session)
    → restore_message (with_role r m) s ≡ run (calls_of r m) s
unfolding restore_message calls_of run apply
restore-run role_user m s = refl
restore-run role_assistant m s = elim (Bool-cases (is_empty m.tool_calls)) [
  | inl t ↦ rw t refl
  | inr f ↦ rw f refl
]
restore-run role_tool m s = refl
restore-run role_system m s = refl
restore-run (role_other name) m s = refl

record-left :
    (r : MessageRole) (m : Message) (h : List Message)
    → record_ops (calls_of r m) h ≡ h ++ left_of (with_role r m)
unfolding calls_of record_ops record_op
record-left role_user m h = refl
record-left role_assistant m h = elim (Bool-cases (is_empty m.tool_calls)) [
  | inl t ↦ rw t refl
  | inr f ↦ rw f refl
]
record-left role_tool m h = refl
record-left role_system m h = sym (append-nil h)
record-left (role_other name) m h = sym (append-nil h)

-- The messages of a session to which saved messages are restored: what it held and what is left of
-- them, without some oldest, and with the newest 300.
restore_messages-IsRecent :
    (ms h : List Message) (s : Session)
    → IsRecent h s.messages
    → IsRecent (h ++ all_left ms) (restore_messages ms s).messages
unfolding restore_messages
restore_messages-IsRecent [] h s r = rw (append-nil h) r
restore_messages-IsRecent (m ∷ ms) h s r =
    let one = run-IsRecent (calls_of m.role m) h s r in
    let next : IsRecent (h ++ left_of m) (restore_message m s).messages =
      rw (restore-run m.role m s) (
        subst (λ l. IsRecent l (run (calls_of m.role m) s).messages) (record-left m.role m h)
          one) in
    subst (λ l. IsRecent l (restore_messages ms (restore_message m s)).messages)
      (append_assoc h (left_of m) (all_left ms))
      (restore_messages-IsRecent ms (h ++ left_of m) (restore_message m s) next)

abbrev Same : Session → Session → Type 0
Same s t = (s.id ≡ t.id) × (s.system_prompt ≡ t.system_prompt)

compact-Same : (s : Session) → Same (compact_if_needed s) s
unfolding compact_if_needed compact
compact-Same s = ground arith

append-Same :
    (ms : List Message) (s : Session)
    → Same (compact_if_needed (record s { messages = s.messages ++ ms; llm_cache_dirty = true })) s
append-Same ms s = compact-Same (record s { messages = s.messages ++ ms; llm_cache_dirty = true })

restore-Same :
    (r : MessageRole) (m : Message) (s : Session) → Same (restore_message (with_role r m) s) s
unfolding restore_message add_user_message add_assistant_message add_tool_call add_tool_results
restore-Same role_user m s = append-Same (text_message role_user m.content ∷ []) s
restore-Same role_assistant m s = elim (Bool-cases (is_empty m.tool_calls)) [
  | inl t ↦ rw t (append-Same (text_message role_assistant m.content ∷ []) s)
  | inr f ↦ rw f (append-Same (call_message m.tool_calls ∷ []) s)
]
restore-Same role_tool m s = append-Same (result_messages (result_of_message m ∷ [])) s
restore-Same role_system m s = (refl, refl)
restore-Same (role_other name) m s = (refl, refl)

restore_messages-Same : (ms : List Message) (s : Session) → Same (restore_messages ms s) s
unfolding restore_messages
restore_messages-Same [] s = (refl, refl)
restore_messages-Same (m ∷ ms) s =
    let all = restore_messages-Same ms (restore_message m s) in
    let one = restore-Same m.role m s in (all.0 ∙ one.0, all.1 ∙ one.1)

-- A session that another was resumed into: it has its ID and its prompt.
pub record IsResumed (old new s : Session) : Type 0 where
  pub id : s.id ≡ old.id
  pub system_prompt : s.system_prompt ≡ old.system_prompt
  pub messages : IsRecent (new.messages ++ all_left old.messages) s.messages

resumed-IsResumed : (l s : Session) → IsResumed l s (resumed l s)
unfolding resumed set_system_prompt set_id
resumed-IsResumed l s =
    let start = set_system_prompt l.system_prompt (set_id l.id s) in
    let same = restore_messages-Same l.messages start in
    record {
      id = same.0;
      system_prompt = same.1;
      messages = restore_messages-IsRecent l.messages s.messages start (whole-IsRecent s.messages);
    }

saved-IsResumed :
    (l old new s : Session)
    → saved_session l ≡ saved_session old
    → IsResumed l new s
    → IsResumed old new s
unfolding saved_session
saved-IsResumed l old new s e r = record {
  id = r.id ∙ ap (λ d. d.id) e;
  system_prompt = r.system_prompt ∙ ap (λ d. d.system_prompt) e;
  messages =
      subst (λ ms. IsRecent (new.messages ++ all_left ms) s.messages) (ap (λ d. d.messages) e)
        r.messages;
}

module _ {B : Type 0} (codec : Codec B) where
  load-IsResumed :
      (p : ℕ) (id : String) (d : Session) (w : World B)
      → str_eq id "last" ≡ false
      → str_eq id "list" ≡ false
      → p ≢ w.fresh
      → Loads codec id (saved_session d) w
      → (w' : World B) × (resume_session codec p id w ≡ some (tt, w'))
        × IsResumed d (w.heap p) (w'.heap p)
  unfolding resume_session resume_id resume_loaded
  load-IsResumed p id d w last list other (v, e, same, frame) =
      let s = resumed (v.heap w.fresh) (v.heap p) in
      let old : (if p == p then s else v.heap p) ≡ s = rw ((==_iff p p).1 refl) refl in
      (
        set_session p s v,
        rw last (rw list (>>=-eq (load_session codec id) (resume_loaded p) w e)),
        subst (IsResumed d (w.heap p)) (sym old) (
            subst (λ n. IsResumed d n s) (frame p other)
              (saved-IsResumed (v.heap w.fresh) d (v.heap p) s same
                (resumed-IsResumed (v.heap w.fresh) (v.heap p)))),
      )

  -- A session that is saved and that a new process resumes by its ID has its ID and its system prompt,
  -- and the messages of the new session and what is left of the saved ones, but for some oldest, with
  -- at least the newest 300. The texts of messages with tool calls and the messages of the system, with
  -- the summaries of compactions, are not left.
  pub resume_session-IsResumed :
      (p q : ℕ) (w w1 : World B)
      → IsUnlocked w
      → IsMap w.index
      → ((s : SavedSession) → codec.decode_session (codec.encode_session s) ≡ some s)
      → ((l : List SessionIndex) → codec.decode_index (codec.encode_index l) ≡ some l)
      → save_session codec p w ≡ some (saved, w1)
      → str_eq (w.heap p).id "last" ≡ false
      → str_eq (w.heap p).id "list" ≡ false
      → q ≢ w1.fresh
      → (w2 w3 : World B) × (new_persistence_manager codec w1 ≡ some w2)
        × (resume_session codec q (w.heap p).id w2 ≡ some (tt, w3))
        × IsResumed (w.heap p) (w1.heap q) (w3.heap q)
  resume_session-IsResumed p q w w1 u m decodes indexes e last list other =
      let (w2, starts, loads, fresh, heaps, _) =
        save_session-restarted codec p w w1 u m decodes indexes e in
      let (w3, r, done) =
        load-IsResumed q (w.heap p).id (w.heap p) w2 last list (λ x. other (x ∙ fresh)) loads in
      (w2, w3, starts, r, subst (λ n. IsResumed (w.heap p) n (w3.heap q)) (heaps q) done)
