-- ===== src/Agent/Denial.antt =====
-- What an answer "deny" to the question of internal/agent/agent.go does to the calls that follow.
use vibe_local_go.Base.{◌≡◌, refl, ◌∙◌, String, Bool, false, some, eq_refl, List}
use vibe_local_go.Session.{ToolCall}
use vibe_local_go.Permission.{permission_deny}
use vibe_local_go.Permission.Decision.{rule_of}
use vibe_local_go.Permission.Persistence.{rule-set_permission}
use vibe_local_go.Agent.{
  Agent, Surroundings, execute_tool_calls_with_results, asked, remember, ask_user_permission,
  execute_single_tool,
}
use vibe_local_go.Agent.Rules.{always-set_permission, denied-refused, calls-Denies}

module _ {W : Type 0} (env : Surroundings W) where
  remember-denied :
      (name : String) (a : Agent W) (w : W)
      → a.permission_mgr.always_approve ≡ false
      → let pm = (remember env name permission_deny a w).permission_mgr in
        (pm.always_approve ≡ false) × (rule_of pm name ≡ some permission_deny)
  unfolding remember
  remember-denied name a w f =
      let saved = env.can_save w in
      (
        always-set_permission saved name permission_deny a.permission_mgr a.rules_file ∙ f,
        (rule-set_permission saved name name permission_deny a.permission_mgr a.rules_file).0
            ∙ rw (eq_refl name) refl,
      )

  -- Once the user answered "deny" for a tool, and after any calls of tools that the agent executes then,
  -- a call of that tool fails without asking again, without running anything and without changing the
  -- agent, also if the answer could not be saved to disk; this is without the -y flag.
  pub deny_is_final :
      (tc : ToolCall) (arguments : String) (allowed : Bool) (calls : List ToolCall) (a : Agent W)
      (w v w' : W)
      → a.auto_approve ≡ false
      → a.permission_mgr.always_approve ≡ false
      → (env.ask tc.function.name arguments w).0 ≡ asked allowed permission_deny
      → let answered = (ask_user_permission env tc.function.name arguments a w).1 in
        let a' = (execute_tool_calls_with_results env calls answered v).2 in
        ((execute_single_tool env tc a' w').0.is_success ≡ false)
        × ((execute_single_tool env tc a' w').1 ≡ a')
        × ((execute_single_tool env tc a' w').2 ≡ w')
  unfolding ask_user_permission
  deny_is_final tc arguments allowed calls a w v w' n f e =
      let w₁ = (env.ask tc.function.name arguments w).1 in
      let d = remember-denied tc.function.name a w₁ f in
      rw (ask_user_permission, n, e)
        (let later =
            calls-Denies env tc.function.name calls
              (remember env tc.function.name permission_deny a w₁) v d in
          denied-refused env tc
            (execute_tool_calls_with_results env calls
              (remember env tc.function.name permission_deny a w₁) v).2
            w' later.0 later.1)
