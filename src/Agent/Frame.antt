-- ===== src/Agent/Frame.antt =====
-- What the execution of tools in internal/agent/agent.go leaves alone: the detector of loops, which
-- only records the calls, and the count of failed validations.
use vibe_local_go.Base.{
  Bool-cases, Option-cases, inl, inr, ◌≡◌, refl, ◌∙◌, ap, String, true, false, ◌&&◌, List, [], ◌∷◌,
  map, arith,
}
use vibe_local_go.Session.{ToolCall}
use vibe_local_go.LoopDetector.{record_tool_call}
use vibe_local_go.LoopDetector.History.{record_calls}
use vibe_local_go.Permission.{PermissionType, Check, check_permission}
use vibe_local_go.Tool.{ToolConfig, ExecResult, Executed, returned, raised, get}
use vibe_local_go.Agent.{
  Agent, Surroundings, remember, Permit, permit, permit_error, ask_user_permission, after_execution,
  run_tool, after_asking, guarded, execute_single_tool, execute_tool_calls_with_results,
  call_record, auto_test, run_auto_test_if_needed, is_blocked_in_plan_mode,
}

-- The detector and the count are the same.
pub record Keeps {W : Type 0} (a b : Agent W) : Type 0 where
  pub detector : b.loop_detector ≡ a.loop_detector
  pub validations : b.script_validation_count ≡ a.script_validation_count

module _ {W : Type 0} (env : Surroundings W) where
  same : (a : Agent W) → Keeps a a
  same a = record { detector = refl; validations = refl }

  followed : {a b c : Agent W} → Keeps a b → Keeps b c → Keeps a c
  followed h k = record {
    detector = k.detector ∙ h.detector;
    validations = k.validations ∙ h.validations;
  }

  remember-Keeps :
      (name : String) (perm : PermissionType) (a : Agent W) (w : W)
      → Keeps a (remember env name perm a w)
  unfolding remember
  remember-Keeps name perm a w = ground arith

  ask-Keeps :
      (name args : String) (a : Agent W) (w : W) → Keeps a (ask_user_permission env name args a w).1
  unfolding ask_user_permission
  ask-Keeps name args a w =
      ground (arith, λ (perm : PermissionType). remember-Keeps name perm a (env.ask name args w).1)

  auto_test-Keeps :
      (tc : ToolCall) (r : ExecResult) (a : Agent W) (w : W) → Keeps a (auto_test env tc r a w).0
  unfolding auto_test run_auto_test_if_needed
  auto_test-Keeps tc r a w = ground arith

  after-Keeps :
      (cfg : ToolConfig W) (tc : ToolCall) (a : Agent W) (out : Executed × W)
      → Keeps a (after_execution env cfg tc a out).1
  unfolding after_execution
  after-Keeps cfg tc a (raised err, w) = same a
  after-Keeps cfg tc a (returned r, w) = auto_test-Keeps tc r a w

  asking-Keeps :
      (cfg : ToolConfig W) (tc : ToolCall) (p : Permit) (a b : Agent W) (w : W)
      → Keeps a b
      → Keeps a (after_asking env cfg tc (p, b, w)).1
  unfolding after_asking run_tool
  asking-Keeps cfg tc (permit_error err) a b w h = h
  asking-Keeps cfg tc (permit false) a b w h = h
  asking-Keeps cfg tc (permit true) a b w h =
      followed h (after-Keeps cfg tc b (cfg.tool.execute tc.function.arguments w))

  guarded-Keeps :
      (cfg : ToolConfig W) (tc : ToolCall) (check : Check) (a : Agent W) (w : W)
      → Keeps a (guarded env cfg tc check a w).1
  unfolding guarded run_tool
  guarded-Keeps cfg tc check a w =
      let (p, b, w') = ask_user_permission env tc.function.name tc.function.arguments a w in
      ground (
        arith,
        after-Keeps cfg tc a (cfg.tool.execute tc.function.arguments w),
        asking-Keeps cfg tc p a b w' (ask-Keeps tc.function.name tc.function.arguments a w),
      )

  single-Keeps : (tc : ToolCall) (a : Agent W) (w : W) → Keeps a (execute_single_tool env tc a w).1
  unfolding execute_single_tool
  single-Keeps tc a w =
      elim (Bool-cases (a.plan_mode && is_blocked_in_plan_mode tc.function.name)) [
        | inl t ↦ rw (execute_single_tool, t) (same a)
        | inr f ↦ elim (Option-cases (get tc.function.name a.registry)) [
          | inl n ↦ rw (execute_single_tool, f, n) (same a)
          | inr s ↦
              rw (execute_single_tool, f, s.1)
                (guarded-Keeps s.0 tc (check_permission a.permission_mgr tc.function.name) a w)
        ]
      ]

  -- The calls of an answer are recorded in order, and nothing else.
  pub calls-Records :
      (calls : List ToolCall) (a : Agent W) (w : W)
      → let (rs, ars, b, w') = execute_tool_calls_with_results env calls a w in
        (b.loop_detector ≡ record_calls (map call_record calls) a.loop_detector)
        × (b.script_validation_count ≡ a.script_validation_count)
  unfolding execute_tool_calls_with_results record_calls
  calls-Records [] a w = (refl, refl)
  calls-Records (tc ∷ tcs) a w =
      let out = execute_single_tool env tc a w in
      let recorded : Agent W = record out.1 {
        loop_detector = record_tool_call (call_record tc) out.1.loop_detector;
      } in
      let k = single-Keeps tc a w in
      let rest = calls-Records tcs recorded out.2 in
      (
        rest.0
            ∙ ap (λ ld. record_calls (map call_record tcs) (record_tool_call (call_record tc) ld))
                k.detector,
        rest.1 ∙ k.validations,
      )
