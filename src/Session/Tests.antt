-- ===== src/Session/Tests.antt =====
-- Runs of a session, and the theorems about it at concrete sessions.
use vibe_local_go.Base.{
  ℕ, ◌*◌, String, ◌≡◌, ◌≢◌, refl, true, false, List, [], ◌∷◌, none, some, arith, length,
}
use vibe_local_go.Session.{
  Session, Message, new_session, role_user, rebuild, get_messages_for_llm, add_user_message,
  compact_if_needed, has_tool_calls,
}
use vibe_local_go.Session.Ops.{
  Op, user_message, assistant_message, tool_results, messages_for_llm, token_update, run, apply,
  record_ops,
}
use vibe_local_go.Session.Cache.{get-run_fresh}
use vibe_local_go.Session.Recent.{IsRecent, whole-IsRecent, run-IsRecent}
use vibe_local_go.Session.Compaction.{compact, compact_to_target}
use vibe_local_go.Session.Compaction.Target.{IsLeastCut, compact_to_target-IsLeastCut}
use vibe_local_go.Session.Compaction.Stale.{compact_stale}

abbrev chatter : List Op
chatter =
    user_message "hello there"
    ∷ messages_for_llm
    ∷ assistant_message "hi"
    ∷ token_update
    ∷ tool_results (record { content = "done"; tool_call_id = "c1" } ∷ [])
    ∷ []

abbrev start : Session
start = new_session "s" "be brief"

-- The visiting order of maps that keeps insertion order.
abbrev in_order : List (String × ℕ) → List (String × ℕ)
in_order m = m

-- n messages, each counted as 5 tokens.
abbrev many : ℕ → List Message
many = elim [
  | ℕ.zero ↦ []
  | ℕ.suc (n → ih) ↦
      record { role = role_user; content = "m"; tool_calls = []; tool_id = ""; token_count = 5 }
      ∷ ih
]

-- A session whose messages were just served to the model.
abbrev served : ℕ → Session
served n =
    let s : Session = record {
      id = "s";
      messages = many n;
      system_prompt = "p";
      token_estimate = 5 * n;
      cached_llm_messages = none;
      llm_cache_dirty = true;
    } in
    record s { cached_llm_messages = some (rebuild s); llm_cache_dirty = false }

run_messages : length (run chatter start).messages ≡ 3
unfolding run apply new_session
run_messages = refl

no_calls : has_tool_calls (run chatter start) ≡ false
unfolding run apply new_session has_tool_calls
no_calls = refl

-- The limit drops the oldest 200 of 500 messages.
reaches_limit : length (run (user_message "m" ∷ []) (served 499)).messages ≡ 300
unfolding run apply add_user_message compact_if_needed
reaches_limit = refl

run-IsRecent_example :
    IsRecent (record_ops chatter (served 499).messages) (run chatter (served 499)).messages
run-IsRecent_example =
    run-IsRecent chatter (served 499).messages (served 499) (whole-IsRecent (served 499).messages)

get-run_fresh_example :
    (get_messages_for_llm (run chatter (new_session "s" "be brief"))).0
    ≡ rebuild (run chatter (new_session "s" "be brief"))
get-run_fresh_example = get-run_fresh chatter "s" "be brief"

compact_to_target-IsLeastCut_example :
    let s' = (compact_to_target 12 (served 4)).0 in
    IsLeastCut 12 (served 4).token_estimate (served 4).messages s'.messages s'.token_estimate
compact_to_target-IsLeastCut_example = compact_to_target-IsLeastCut 12 (served 4)

compact_stale_example :
    ((get_messages_for_llm (compact in_order (served 40)).0).0 ≡ rebuild (served 40))
    × (rebuild (served 40) ≢ rebuild (compact in_order (served 40)).0)
unfolding rebuild
compact_stale_example = compact_stale in_order (served 40) refl refl (omega arith)
