-- ===== src/Agent/Calls.antt =====
-- The results of executeToolCallsWithResults (internal/agent/agent.go).
use vibe_local_go.Base.{◌≡◌, refl, ap, ◌∙◌, inl, inr, String, List, [], ◌∷◌, map}
use vibe_local_go.Session.{ToolCall}
use vibe_local_go.LoopDetector.{record_tool_call}
use vibe_local_go.Tool.{
  ToolConfig, ToolCategory, category_essential, category_optional, category_enhancing, Executed,
  returned, raised,
}
use vibe_local_go.Dispatch.{ToolResult}
use vibe_local_go.Agent.{
  Agent, Surroundings, category_result, after_execution, execute_single_tool, session_result,
  execute_tool_calls_with_results, call_record,
}
use vibe_local_go.Agent.Guard.{execute_single_tool-guarded}

module _ {W : Type 0} (env : Surroundings W) where
  category-id :
      (category : ToolCategory) (tc : ToolCall) (err : String)
      → (category_result env category tc err).tool_call_id ≡ tc.id
  unfolding category_result
  category-id category_essential tc err = refl
  category-id category_optional tc err = refl
  category-id category_enhancing tc err = refl

  after-id :
      (cfg : ToolConfig W) (tc : ToolCall) (a : Agent W) (out : Executed × W)
      → (after_execution env cfg tc a out).0.tool_call_id ≡ tc.id
  unfolding after_execution
  after-id cfg tc a (raised err, w) = category-id cfg.metadata.category tc err
  after-id cfg tc a (returned r, w) = refl

  single-id :
      (tc : ToolCall) (a : Agent W) (w : W)
      → (execute_single_tool env tc a w).0.tool_call_id ≡ tc.id
  single-id tc a w = elim (execute_single_tool-guarded env tc a w) [
    | inl ran ↦
        ap (λ out. out.0.tool_call_id) ran.outcome
        ∙ after-id ran.cfg tc ran.a₁ (ran.cfg.tool.execute tc.function.arguments ran.w₁)
    | inr refused ↦ refused.own_id
  ]

  -- Every call of an answer gets one result under its own id, in the order of the calls, also
  -- behind a call that failed; the results for the session are those for the agent, without their
  -- errors.
  results-ids :
      (calls : List ToolCall) (a : Agent W) (w : W)
      → let (rs, ars, a', w') = execute_tool_calls_with_results env calls a w in
        (map (λ r. r.tool_call_id) ars ≡ map (λ tc. tc.id) calls) × (rs ≡ map session_result ars)
  unfolding execute_tool_calls_with_results
  results-ids [] a w = (refl, refl)
  results-ids (tc ∷ tcs) a w =
      let out = execute_single_tool env tc a w in
      let recorded : Agent W = record out.1 {
        loop_detector = record_tool_call (call_record tc) out.1.loop_detector;
      } in
      let rest = results-ids tcs recorded out.2 in
      let ids =
        map (λ (r : ToolResult). r.tool_call_id)
          (execute_tool_calls_with_results env tcs recorded out.2).1 in
      (
        ap (λ id. id ∷ ids) (single-id tc a w) ∙ ap (λ ids. tc.id ∷ ids) rest.0,
        ap (λ l. session_result out.0 ∷ l) rest.1,
      )
