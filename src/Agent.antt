-- ===== src/Agent.antt =====
-- internal/agent/agent.go: how the agent executes the tool calls of an answer: plan mode, the
-- permissions, the question to the user, the tool, and the automatic tests after it. `W` is the
-- state of the world. What is printed is left out.

pub mod Guard
pub mod Rules
pub mod Denial
pub mod Calls
pub mod Run
pub mod Frame
pub mod Ends
pub mod Repeats
mod Tests
pub mod RunTests
use vibe_local_go.Base.{
  ℕ, ◌/◌, String, Bool, true, false, not, ◌&&◌, ◌||◌, List, [], ◌∷◌, Option, none, some, any, leb,
  str_eq, concat, if◌then◌else◌,
}
use vibe_local_go.Session.{Session, ToolCall, ToolResult as SessionResult, add_tool_results}
use vibe_local_go.Permission.{
  PermissionManager, PermissionType, permission_ask, permission_always, permission_deny,
  permission_other, RulesFile, Check, check_permission, set_permission,
}
use vibe_local_go.LoopDetector.{LoopDetector, ToolCallRecord, record_tool_call}
use vibe_local_go.Tool.{
  Registry, ToolConfig, ToolCategory, category_essential, category_optional, category_enhancing,
  ExecResult, Executed, returned, raised, get,
}
use vibe_local_go.Dispatch.{ToolResult, failure, success, get_fallback_result, is_listed}

-- What the user answers to AskPermission: an error, or whether to allow the call and what to
-- remember.
pub data Asked : Type 0 where
  ask_failed : String → Asked
  asked : Bool → PermissionType → Asked

-- What RunAutoTest returns: an error, or whether the tests passed and their output.
pub data AutoTest : Type 0 where
  test_failed : AutoTest
  tested : Bool → String → AutoTest

-- The terminal, the file of the rules, the JSON of arguments and the tests of the project.
pub record Surroundings (W : Type 0) : Type 0 where
  pub ask : String → String → W → Asked × W
  pub can_save : W → Bool
  pub path_of : String → Option String  -- args["path"]
  pub run_auto_test : String → W → AutoTest × W

pub record Agent (W : Type 0) : Type 0 where
  pub session : Session
  pub registry : Registry W
  pub permission_mgr : PermissionManager
  pub rules_file : RulesFile  -- on disk
  pub loop_detector : LoopDetector
  pub auto_approve : Bool  -- config.AutoApprove
  pub script_validation_count : ℕ
  pub auto_test_enabled : Bool
  pub plan_mode : Bool

-- What askUserPermission returns.
pub data Permit : Type 0 where
  permit_error : String → Permit
  permit : Bool → Permit

unfoldable pub dynamic_max_tokens : ℕ → ℕ → ℕ
dynamic_max_tokens base iteration =
    if leb iteration 3 then base else if leb iteration 10 then base / 2 else base / 4

abbrev pub remembers : PermissionType → Bool
remembers permission_ask = false
remembers permission_always = true
remembers permission_deny = true
remembers (permission_other n) = false

unfoldable pub is_blocked_in_plan_mode : String → Bool
is_blocked_in_plan_mode name = is_listed name ("write_file" ∷ "edit_file" ∷ "bash" ∷ [])

abbrev pub call_record : ToolCall → ToolCallRecord
call_record tc = record { tool_name = tc.function.name; arguments = tc.function.arguments }

abbrev pub session_result : ToolResult → SessionResult
session_result r = record { content = r.content; tool_call_id = r.tool_call_id }

module _ {W : Type 0} (env : Surroundings W) where
  -- An "always" or a "deny" is saved; that it could not be is only printed.
  unfoldable pub remember : String → PermissionType → Agent W → W → Agent W
  remember name perm a w =
      let done = set_permission (env.can_save w) name perm a.permission_mgr a.rules_file in
      if remembers perm then record a { permission_mgr = done.0; rules_file = done.1 } else a

  unfoldable pub ask_user_permission : String → String → Agent W → W → Permit × Agent W × W
  unfolding remember
  ask_user_permission name arguments a w = elim a.auto_approve [
    | true ↦ (permit true, a, w)
    | false ↦
        let answer = env.ask name arguments w in
        elim answer.0 [
          | ask_failed err ↦ (permit_error err, a, answer.1)
          | asked allowed perm ↦ (permit allowed, remember name perm a answer.1, answer.1)
        ]
  ]

  -- runAutoTestIfNeeded: the output of tests that fail becomes a message.
  unfoldable pub run_auto_test_if_needed : String → Agent W → W → Agent W × W
  run_auto_test_if_needed path a w =
      let ran = env.run_auto_test path w in
      (
        elim ran.0 [
          | test_failed ↦ a
          | tested passed output ↦
              if not passed && not (str_eq output "")
              then record a {
                session =
                    add_tool_results (record { content = output; tool_call_id = "autotest" } ∷ [])
                      a.session;
              }
              else a
        ],
        ran.1,
      )

  abbrev needs_test : Agent W → String → ExecResult → Bool
  needs_test a name r =
      a.auto_test_enabled && (str_eq name "write_file" || str_eq name "edit_file") && not r.is_error

  auto_test : ToolCall → ExecResult → Agent W → W → Agent W × W
  unfolding run_auto_test_if_needed
  auto_test tc r a w = elim (needs_test a tc.function.name r) [
    | false ↦ (a, w)
    | true ↦ elim (env.path_of tc.function.arguments) [
      | none ↦ (a, w)
      | some path ↦ run_auto_test_if_needed path a w
    ]
  ]

  -- The result of a tool that returned an error, by its category.
  unfoldable pub category_result : ToolCategory → ToolCall → String → ToolResult
  unfolding get_fallback_result
  category_result category_optional tc err =
      success tc.id (concat ("// Tool " ∷ tc.function.name ∷ " unavailable: " ∷ err ∷ [])) ""
  category_result category_enhancing tc err =
      success tc.id (get_fallback_result tc.function.name)
        (concat ("Tool " ∷ tc.function.name ∷ " failed (using fallback)" ∷ []))
  category_result category_essential tc err = failure tc.id err

  -- From the end of Execute on.
  unfoldable pub after_execution :
      ToolConfig W → ToolCall → Agent W → Executed × W → ToolResult × Agent W × W
  unfolding category_result auto_test
  after_execution cfg tc a (raised err, w) = (category_result cfg.metadata.category tc err, a, w)
  after_execution cfg tc a (returned r, w) =
      let tested = auto_test tc r a w in
      (
        record {
          tool_call_id = tc.id;
          is_success = not r.is_error;
          content = r.output;
          error = r.error;
        },
        tested.0,
        tested.1,
      )

  run_tool : ToolConfig W → ToolCall → Agent W → W → ToolResult × Agent W × W
  unfolding after_execution
  run_tool cfg tc a w = after_execution cfg tc a (cfg.tool.execute tc.function.arguments w)

  after_asking : ToolConfig W → ToolCall → Permit × Agent W × W → ToolResult × Agent W × W
  unfolding run_tool
  after_asking cfg tc (permit_error err, a, w) =
      (failure tc.id (concat ("Permission denied: " ∷ err ∷ [])), a, w)
  after_asking cfg tc (permit false, a, w) = (failure tc.id "User denied permission", a, w)
  after_asking cfg tc (permit true, a, w) = run_tool cfg tc a w

  -- The permission check of a registered tool.
  guarded : ToolConfig W → ToolCall → Check → Agent W → W → ToolResult × Agent W × W
  unfolding run_tool after_asking ask_user_permission
  guarded cfg tc check a w = elim check.error [
    | some err ↦ (failure tc.id (concat ("Permission error: " ∷ err ∷ [])), a, w)
    | none ↦ elim check.allowed [
      | true ↦ run_tool cfg tc a w
      | false ↦ after_asking cfg tc (ask_user_permission tc.function.name tc.function.arguments a w)
    ]
  ]

  unfoldable pub execute_single_tool : ToolCall → Agent W → W → ToolResult × Agent W × W
  unfolding is_blocked_in_plan_mode guarded check_permission
  execute_single_tool tc a w = elim (a.plan_mode && is_blocked_in_plan_mode tc.function.name) [
    | true ↦ (
      failure tc.id (
          concat (
            "Cannot execute " ∷ tc.function.name
            ∷ " in plan mode. Use '/plan off' to allow modifications." ∷ [])),
      a,
      w,
    )
    | false ↦ elim (get tc.function.name a.registry) [
      | none ↦ (failure tc.id (concat ("Tool not found: " ∷ tc.function.name ∷ [])), a, w)
      | some cfg ↦ guarded cfg tc (check_permission a.permission_mgr tc.function.name) a w
    ]
  ]

  -- executeToolCallsWithResults: the results for the session, those for the agent, and the calls
  -- recorded for the loop detector.
  unfoldable pub execute_tool_calls_with_results :
      List ToolCall → Agent W → W → List SessionResult × List ToolResult × Agent W × W
  unfolding execute_single_tool record_tool_call
  execute_tool_calls_with_results [] a w = ([], [], a, w)
  execute_tool_calls_with_results (tc ∷ tcs) a w =
      let (r, a₁, w₁) = execute_single_tool tc a w in
      let recorded : Agent W = record a₁ {
        loop_detector = record_tool_call (call_record tc) a₁.loop_detector;
      } in
      let (rs, ars, a₂, w₂) = execute_tool_calls_with_results tcs recorded w₁ in
      (session_result r ∷ rs, r ∷ ars, a₂, w₂)
