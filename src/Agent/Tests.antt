-- ===== src/Agent/Tests.antt =====
-- Calls of tools by the agent (internal/agent/agent.go), and the theorems about them.
use vibe_local_go.Base.{ℕ, ◌+◌, ◌≡◌, refl, ◌⊎◌, String, Bool, true, false, [], ◌∷◌, none, insert}
use vibe_local_go.Session.{ToolCall, new_session}
use vibe_local_go.Permission.{
  permission_deny, missing, check_permission, get_tool_category, set_permission,
}
use vibe_local_go.LoopDetector.{new_loop_detector}
use vibe_local_go.Tool.{Tool, returned, new_registry, register_with_options, get}
use vibe_local_go.Agent.{
  Agent, Surroundings, asked, test_failed, ask_user_permission, remember, execute_single_tool,
  execute_tool_calls_with_results, is_blocked_in_plan_mode,
}
use vibe_local_go.Agent.Guard.{Ran, Refused, execute_single_tool-guarded}
use vibe_local_go.Agent.Denial.{deny_is_final}

-- A user who denies everything. The world counts questions, and executions by hundreds.
abbrev env : Surroundings ℕ
env = record {
  ask = λ name arguments w. (asked false permission_deny, w + 1);
  can_save = λ w. false;
  path_of = λ arguments. none;
  run_auto_test = λ path w. (test_failed, w);
}

abbrev tool_of : String → Tool ℕ
tool_of name = record {
  name = name;
  execute = λ arguments w. (
    returned (record { output = "done"; is_error = false; tool_call_id = ""; error = "" }),
    w + 100,
  );
  schema = record { name = name; description = "" };
}

abbrev agent : Bool → Agent ℕ
agent plan_mode = record {
  session = new_session "s" "";
  registry =
      register_with_options "bash" (tool_of "bash") []
        (register_with_options "grep" (tool_of "grep") [] new_registry);
  permission_mgr = record { rules = []; always_approve = false };
  rules_file = missing;
  loop_detector = new_loop_detector;
  auto_approve = false;
  script_validation_count = 0;
  auto_test_enabled = false;
  plan_mode = plan_mode;
}

abbrev call : String → String → ToolCall
call id name = record {
  id = id;
  kind = "function";
  function = record { name = name; arguments = "{}" };
}

-- A safe tool runs, another is denied: the first time by the user, the second by the rule.
asks_once :
    (execute_tool_calls_with_results env
      (call "a" "grep" ∷ call "b" "bash" ∷ call "c" "bash" ∷ [])
      (agent false)
      0).3
    ≡ 101
unfolding execute_tool_calls_with_results execute_single_tool ask_user_permission remember
    register_with_options new_registry get insert check_permission get_tool_category set_permission
    is_blocked_in_plan_mode
asks_once = refl

-- A call that is blocked asks nothing.
plan_mode_blocks : (execute_single_tool env (call "b" "bash") (agent true) 0).2 ≡ 0
unfolding execute_single_tool is_blocked_in_plan_mode
plan_mode_blocks = refl

execute_single_tool-guarded_example :
    Ran env
      (call "a" "grep")
      (agent false)
      0
      (execute_single_tool env (call "a" "grep") (agent false) 0)
    ⊎ Refused env
        (call "a" "grep")
        (agent false)
        0
        (execute_single_tool env (call "a" "grep") (agent false) 0)
execute_single_tool-guarded_example =
    execute_single_tool-guarded env (call "a" "grep") (agent false) 0

deny_is_final_example :
    let answered = (ask_user_permission env "bash" "{}" (agent false) 0).1 in
    let a' = (execute_tool_calls_with_results env (call "a" "grep" ∷ []) answered 0).2 in
    ((execute_single_tool env (call "b" "bash") a' 1).0.is_success ≡ false)
    × ((execute_single_tool env (call "b" "bash") a' 1).1 ≡ a')
    × ((execute_single_tool env (call "b" "bash") a' 1).2 ≡ 1)
deny_is_final_example =
    deny_is_final env (call "b" "bash") "{}" false (call "a" "grep" ∷ []) (agent false) 0 0 1 refl
      refl refl
