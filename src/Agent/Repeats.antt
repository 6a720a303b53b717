-- ===== src/Agent/Repeats.antt =====
-- How often one call of a tool is made within Run of internal/agent/agent.go.
use vibe_local_go.Base.{
  ℕ, zero, suc, ◌+◌, ltb, ◌≤◌, ◌≡◌, refl, sym, ap, ◌∙◌, inl, inr, String, false, List, [], ◌∷◌,
  ◌++◌, Option, none, map, all, arith, Bool-cases, Option-cases,
}
use vibe_local_go.Session.{
  ToolCall, LlmMessage, add_tool_call, add_tool_results, get_messages_for_llm,
}
use vibe_local_go.LoopDetector.{
  LoopDetector, ToolCallRecord, new_loop_detector, record_tool_call, reset, detect_loop,
  loop_history_size,
}
use vibe_local_go.LoopDetector.History.{record_calls}
use vibe_local_go.LoopDetector.Detection.{count_call, detects_repeat}
use vibe_local_go.Dispatch.{ToolResult}
use vibe_local_go.Agent.{Agent, call_record, execute_tool_calls_with_results}
use vibe_local_go.Agent.Frame.{calls-Records}
use vibe_local_go.Agent.Run.{
  Host, Response, response, response_error, max_iterations, iterate, run_from, run, started,
  is_looping, prepared, after_response, after_validation, run_calls, call_llm,
  validate_generated_scripts,
}

-- No calls, or those of one answer of the model.
pub data IsAnswer {W : Type 0} (host : Host W) : List ToolCallRecord → Type 0 where
  no_calls : IsAnswer host []
  calls_of :
      (messages : List LlmMessage) (iteration : ℕ) (w : W) (content : String)
      (calls : List ToolCall)
      → (call_llm host messages iteration w).0 ≡ response content calls
      → IsAnswer host (map call_record calls)

-- The calls since the last reset, in two parts: those of the last answer with calls, and those before,
-- of which none comes more than twice.
pub record Few {W : Type 0} (host : Host W) (ld : LoopDetector) : Type 0 where
  pub earlier : List ToolCallRecord
  pub latest : List ToolCallRecord
  pub last_answer : IsAnswer host latest
  pub recorded : ld ≡ record_calls (earlier ++ latest) new_loop_detector
  pub twice : (c : ToolCallRecord) → count_call c earlier ≤ 2

-- The calls before a turn, and no failed validation.
record Fine {W : Type 0} (host : Host W) (a : Agent W) : Type 0 where
  few : Few host a.loop_detector
  unfailed : a.script_validation_count ≡ 0

record_calls-append :
    (cs ds : List ToolCallRecord) (ld : LoopDetector)
    → record_calls ds (record_calls cs ld) ≡ record_calls (cs ++ ds) ld
unfolding record_calls
record_calls-append [] ds ld = refl
record_calls-append (c ∷ cs) ds ld = record_calls-append cs ds (record_tool_call c ld)

reset-new :
    (ld : LoopDetector)
    → ld.history_size ≡ loop_history_size
    → reset ld ≡ record_calls [] new_loop_detector
unfolding reset new_loop_detector record_calls
reset-new ld h = ap (λ n. record new_loop_detector { history_size = n }) h

seldom :
    (table : ℕ → ℕ) (decode : String → Option String) (cs : List ToolCallRecord)
    (c : ToolCallRecord)
    → detect_loop table decode (record_calls cs new_loop_detector) ≡ false
    → count_call c cs ≤ 2
seldom table decode cs c h = ground (arith, detects_repeat table decode cs c)

module _ {W : Type 0} (host : Host W) where
  validated-Fine :
      (results : List ToolResult) (a : Agent W)
      → Few host a.loop_detector
      → Fine host (after_validation host none results a).1
  unfolding after_validation
  validated-Fine results a f = elim (Bool-cases (all (λ (r : ToolResult). r.is_success) results)) [
    | inl t ↦ rw (t) (record { few = f; unfailed = refl })
    | inr n ↦ rw (n) (record { few = f; unfailed = refl })
  ]

  -- Validation finds no error.
  abbrev pub IsAccepting : Type 0
  IsAccepting = (calls : List ToolCall) (w : W) → (validate_generated_scripts host calls w).0 ≡ none

  calls-Fine :
      (calls : List ToolCall) (a : Agent W) (w : W) (cs : List ToolCallRecord)
      → IsAccepting
      → a.loop_detector ≡ record_calls cs new_loop_detector
      → ((c : ToolCallRecord) → count_call c cs ≤ 2)
      → IsAnswer host (map call_record calls)
      → Fine host (run_calls host calls a w).1
  unfolding run_calls
  calls-Fine calls a w cs ok eq twice answer =
      let asked : Agent W = record a { session = add_tool_call calls a.session } in
      let out = execute_tool_calls_with_results host.surroundings calls asked w in
      let kept = calls-Records host.surroundings calls asked w in
      let a₂ : Agent W = record out.2 { session = add_tool_results out.0 out.2.session } in
      rw (run_calls, ok calls out.3)
        (validated-Fine out.1 a₂ (record {
          earlier = cs;
          latest = map call_record calls;
          last_answer = answer;
          recorded =
              kept.0
              ∙ ap (record_calls (map call_record calls)) eq
              ∙ record_calls-append cs (map call_record calls) new_loop_detector;
          twice = twice;
        }))

  response-Fine :
      (r : Response) (a : Agent W) (w : W) (cs : List ToolCallRecord) (messages : List LlmMessage)
      (iteration : ℕ) (v : W)
      → (call_llm host messages iteration v).0 ≡ r
      → IsAccepting
      → Fine host a
      → a.loop_detector ≡ record_calls cs new_loop_detector
      → ((c : ToolCallRecord) → count_call c cs ≤ 2)
      → Fine host (after_response host (r, w) a).1
  unfolding after_response
  response-Fine (response_error err) a w cs ms i v e ok fine eq twice = fine
  response-Fine (response content []) a w cs ms i v e ok fine eq twice = record {
    few = fine.few;
    unfailed = fine.unfailed;
  }
  response-Fine (response content (tc ∷ tcs)) a w cs ms i v e ok fine eq twice =
      calls-Fine (tc ∷ tcs) a w cs ok eq twice (calls_of ms i v content (tc ∷ tcs) e)

  iterate-Fine :
      (i : ℕ) (a : Agent W) (w : W) → IsAccepting → Fine host a → Fine host (iterate host i a w).1
  unfolding iterate
  iterate-Fine i a w ok fine = elim (Option-cases (host.cancelled w)) [
    | inr s ↦ rw (iterate, s.1) fine
    | inl n ↦ elim (Bool-cases (is_looping host a)) [
      | inl t ↦ rw (iterate, n, t) fine
      | inr f ↦
          let cs = fine.few.earlier ++ fine.few.latest in
          let asked = call_llm host (get_messages_for_llm a.session).0 i w in
          let none_detected : detect_loop host.lower host.command_of a.loop_detector ≡ false =
            ground (arith, fine.unfailed) in
          let quiet : detect_loop host.lower host.command_of (record_calls cs new_loop_detector)
              ≡ false =
            ap (detect_loop host.lower host.command_of) (sym fine.few.recorded) ∙ none_detected in
          rw (iterate, n, f)
            (response-Fine asked.0 (prepared host a) asked.1 cs (get_messages_for_llm a.session).0 i
              w refl ok (record { few = fine.few; unfailed = fine.unfailed }) fine.few.recorded
              (λ c. seldom host.lower host.command_of cs c quiet))
    ]
  ]

  run_from-Fine :
      (left i : ℕ) (a : Agent W) (w : W)
      → IsAccepting
      → Fine host a
      → Fine host (run_from host left i a w).1
  unfolding run_from
  run_from-Fine zero i a w ok fine = fine
  run_from-Fine (suc left) i a w ok fine =
      let next = iterate host (i + 1) a w in
      let fine' = iterate-Fine (i + 1) a w ok fine in
      elim (Bool-cases (ltb i max_iterations)) [
        | inl t ↦ elim (Option-cases next.0) [
          | inl n ↦ rw (run_from, t, n) (run_from-Fine left (i + 1) next.1 next.2 ok fine')
          | inr s ↦ rw (run_from, t, s.1) fine'
        ]
        | inr f ↦ rw (run_from, f) fine
      ]

  -- In a request in which no validation of a script finds an error, the recorded calls are those of one
  -- answer of the model behind others, and among those others no tool is called more than twice with
  -- the same arguments, whatever the model answers.
  pub run-Few :
      (input : String) (a : Agent W) (w : W)
      → ((calls : List ToolCall) (w : W) → (validate_generated_scripts host calls w).0 ≡ none)
      → a.loop_detector.history_size ≡ loop_history_size
      → Few host (run host input a w).1.loop_detector
  unfolding run
  run-Few input a w ok size =
      (run_from-Fine (suc max_iterations) 0 (started host input a) w ok (record {
        few = record {
          earlier = [];
          latest = [];
          last_answer = no_calls;
          recorded = reset-new a.loop_detector size;
          twice = λ c. omega arith;
        };
        unfailed = refl;
      })).few
