-- ===== src/Resume/Tests.antt =====
-- Resuming a session (cmd/vibe/main.go), and the theorem about it at an input.
use vibe_local_go.Base.{String, ◌≡◌, refl, List, [], ◌∷◌, some, arith}
use vibe_local_go.Session.{
  Session, Message, role_assistant, role_system, text_message, new_session, compact_if_needed,
  add_tool_call, add_user_message, role_user, set_system_prompt, set_id,
}
use vibe_local_go.Persistence.{World}
use vibe_local_go.Persistence.Manager.{new_persistence_manager}
use vibe_local_go.Persistence.Tests.{Content, codec, world, saved_world, saves_world, fresh_stays}
use vibe_local_go.Resume.{restore_message, restore_messages, resumed, resume_session, last_id}
use vibe_local_go.Resume.Restoring.{IsResumed, resume_session-IsResumed}

-- A summary of a compaction, a question, and an answer that calls a tool.
abbrev old : Session
old = record (new_session "s1" "prompt") {
  messages =
      text_message role_system "summary"
      ∷ text_message role_user "question"
      ∷ record (text_message role_assistant "I look.") {
        tool_calls =
            record {
              id = "c";
              kind = "function";
              function = record { name = "bash"; arguments = "{}" };
            }
            ∷ [];
      }
      ∷ [];
}

abbrev contents : List Message → List String
contents [] = []
contents (m ∷ ms) = m.content ∷ contents ms

-- The summary is gone, and so is the text of the answer.
loses_texts : contents (resumed old (new_session "s2" "other")).messages ≡ "question" ∷ "" ∷ []
unfolding resumed new_session restore_messages restore_message add_tool_call add_user_message
    compact_if_needed set_system_prompt set_id
loses_texts = refl

takes_last : last_id ("a" ∷ "b" ∷ "c" ∷ []) ≡ some "c"
unfolding last_id
takes_last = refl

resume_session-IsResumed_example :
    (w2 w3 : World Content) × (new_persistence_manager codec saved_world ≡ some w2)
    × (resume_session codec 0 "s1" w2 ≡ some (tt, w3))
    × IsResumed (world.heap 0) (saved_world.heap 0) (w3.heap 0)
unfolding new_session
resume_session-IsResumed_example =
    resume_session-IsResumed codec 0 0 world saved_world (refl, refl) tt (λ s. refl) (λ l. refl)
      saves_world refl refl (λ e. absurd (omega (arith, e, fresh_stays)))
