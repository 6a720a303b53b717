-- ===== src/Agent/Rules.antt =====
-- How the execution of tools in internal/agent/agent.go keeps a rule that denies a tool.
use vibe_local_go.Base.{
  ◌≡◌, refl, ◌∙◌, inl, inr, String, Bool, true, false, ◌&&◌, some, Bool-cases, Option-cases, arith,
  eq_iff, str_eq, subst, sym, ap, List, [], ◌∷◌,
}
use vibe_local_go.Session.{ToolCall}
use vibe_local_go.Permission.{
  Check, PermissionManager, PermissionType, permission_deny, RulesFile, check_permission,
  set_permission,
}
use vibe_local_go.Permission.Decision.{rule_of, check_permission_iff}
use vibe_local_go.Permission.Persistence.{rule-set_permission}
use vibe_local_go.LoopDetector.{record_tool_call}
use vibe_local_go.Tool.{ToolConfig, ExecResult, Executed, returned, raised, get}
use vibe_local_go.Agent.{
  Agent, Surroundings, Asked, ask_failed, Permit, permit, permit_error, remembers, after_execution,
  run_tool, after_asking, auto_test, run_auto_test_if_needed, execute_tool_calls_with_results,
  call_record, asked, remember, ask_user_permission, guarded, execute_single_tool,
  is_blocked_in_plan_mode,
}

denied_error :
    (pm : PermissionManager) (tool : String)
    → pm.always_approve ≡ false
    → rule_of pm tool ≡ some permission_deny
    → (err : String) × ((check_permission pm tool).error ≡ some err)
denied_error pm tool f d = elim (Option-cases (check_permission pm tool).error) [
  | inl n ↦ elim ((check_permission_iff pm tool).1.0 n) [
    | inl t ↦ absurd (ground (arith, f, t))
    | inr r ↦ absurd (r d)
  ]
  | inr s ↦ s
]

pub always-set_permission :
    (saved : Bool) (tool : String) (p : PermissionType) (pm : PermissionManager) (file : RulesFile)
    → (set_permission saved tool p pm file).0.always_approve ≡ pm.always_approve
unfolding set_permission
always-set_permission true tool p pm file = refl
always-set_permission false tool p pm file = refl

-- A rule denies the tool, and -y does not hold.
abbrev pub Denies : {W : Type 0} → String → Agent W → Type 0
Denies name a =
    (a.permission_mgr.always_approve ≡ false)
    × (rule_of a.permission_mgr name ≡ some permission_deny)

module _ {W : Type 0} (env : Surroundings W) where
  -- A call of a tool under a rule `deny` fails without running or asking anything.
  pub denied-refused :
      (tc : ToolCall) (a : Agent W) (w : W)
      → a.permission_mgr.always_approve ≡ false
      → rule_of a.permission_mgr tc.function.name ≡ some permission_deny
      → ((execute_single_tool env tc a w).0.is_success ≡ false)
        × ((execute_single_tool env tc a w).1 ≡ a)
        × ((execute_single_tool env tc a w).2 ≡ w)
  unfolding execute_single_tool guarded
  denied-refused tc a w f d =
      let denied = denied_error a.permission_mgr tc.function.name f d in
      elim (Bool-cases (a.plan_mode && is_blocked_in_plan_mode tc.function.name)) [
        | inl t ↦ rw (execute_single_tool, t) (refl, refl, refl)
        | inr u ↦ elim (Option-cases (get tc.function.name a.registry)) [
          | inl n ↦ rw (execute_single_tool, u, n) (refl, refl, refl)
          | inr (cfg, g) ↦ rw (execute_single_tool, u, g, guarded, denied.1) (refl, refl, refl)
        ]
      ]

  remember-Denies :
      (name other : String) (perm : PermissionType) (a : Agent W) (w : W)
      → str_eq other name ≡ false
      → Denies name a
      → Denies name (remember env other perm a w)
  unfolding remember
  remember-Denies name other perm a w n d =
      let saved = env.can_save w in
      let rule = rule-set_permission saved other name perm a.permission_mgr a.rules_file in
      let same = always-set_permission saved other perm a.permission_mgr a.rules_file in
      elim (Bool-cases (remembers perm)) [
        | inl t ↦ rw (remember, t) (same ∙ d.0, rule.0 ∙ rw n d.1)
        | inr f ↦ rw (remember, f) d
      ]

  ask-Denies :
      (name other args : String) (a : Agent W) (w : W)
      → str_eq other name ≡ false
      → Denies name a
      → Denies name (ask_user_permission env other args a w).1
  unfolding ask_user_permission
  ask-Denies name other args a w n d = elim (Bool-cases a.auto_approve) [
    | inl t ↦ rw (ask_user_permission, t) d
    | inr f ↦ go (env.ask other args w).0 refl f
  ]
    where
      go :
          (x : Asked)
          → (env.ask other args w).0 ≡ x
          → a.auto_approve ≡ false
          → Denies name (ask_user_permission env other args a w).1
      go (ask_failed err) e f = rw (ask_user_permission, f, e) d
      go (asked allowed perm) e f =
          rw (ask_user_permission, f, e)
            (remember-Denies name other perm a (env.ask other args w).1 n d)

  auto_test-rules :
      (tc : ToolCall) (r : ExecResult) (a : Agent W) (w : W)
      → (auto_test env tc r a w).0.permission_mgr ≡ a.permission_mgr
  unfolding auto_test run_auto_test_if_needed
  auto_test-rules tc r a w = ground arith

  after-Denies :
      (name : String) (cfg : ToolConfig W) (tc : ToolCall) (a : Agent W) (out : Executed × W)
      → Denies name a
      → Denies name (after_execution env cfg tc a out).1
  unfolding after_execution
  after-Denies name cfg tc a (raised err, w) d = d
  after-Denies name cfg tc a (returned r, w) d =
      subst (λ pm. (pm.always_approve ≡ false) × (rule_of pm name ≡ some permission_deny))
        (sym (auto_test-rules tc r a w)) d

  asking-Denies :
      (name : String) (cfg : ToolConfig W) (tc : ToolCall) (p : Permit) (b : Agent W) (w : W)
      → Denies name b
      → Denies name (after_asking env cfg tc (p, b, w)).1
  unfolding after_asking run_tool
  asking-Denies name cfg tc (permit_error err) b w d = d
  asking-Denies name cfg tc (permit false) b w d = d
  asking-Denies name cfg tc (permit true) b w d =
      after-Denies name cfg tc b (cfg.tool.execute tc.function.arguments w) d

  guarded-Denies :
      (name : String) (cfg : ToolConfig W) (tc : ToolCall) (check : Check) (a : Agent W) (w : W)
      → str_eq tc.function.name name ≡ false
      → Denies name a
      → Denies name (guarded env cfg tc check a w).1
  unfolding guarded run_tool
  guarded-Denies name cfg tc check a w n d = elim (Option-cases check.error) [
    | inr s ↦ rw (guarded, s.1) d
    | inl e ↦ elim (Bool-cases check.allowed) [
      | inl t ↦
          rw (guarded, e, t)
            (after-Denies name cfg tc a (cfg.tool.execute tc.function.arguments w) d)
      | inr f ↦
          let out = ask_user_permission env tc.function.name tc.function.arguments a w in
          rw (guarded, e, f)
            (asking-Denies name cfg tc out.0 out.1 out.2
              (ask-Denies name tc.function.name tc.function.arguments a w n d))
    ]
  ]

  other-Denies :
      (name : String) (tc : ToolCall) (a : Agent W) (w : W)
      → str_eq tc.function.name name ≡ false
      → Denies name a
      → Denies name (execute_single_tool env tc a w).1
  unfolding execute_single_tool
  other-Denies name tc a w n d =
      elim (Bool-cases (a.plan_mode && is_blocked_in_plan_mode tc.function.name)) [
        | inl t ↦ rw (execute_single_tool, t) d
        | inr f ↦ elim (Option-cases (get tc.function.name a.registry)) [
          | inl g ↦ rw (execute_single_tool, f, g) d
          | inr s ↦
              rw (execute_single_tool, f, s.1)
                (guarded-Denies name s.0 tc (check_permission a.permission_mgr tc.function.name) a w
                  n d)
        ]
      ]

  single-Denies :
      (name : String) (tc : ToolCall) (a : Agent W) (w : W)
      → Denies name a
      → Denies name (execute_single_tool env tc a w).1
  single-Denies name tc a w d = elim (Bool-cases (str_eq tc.function.name name)) [
    | inr f ↦ other-Denies name tc a w f d
    | inl t ↦
        let same = (eq_iff tc.function.name name).0 t in
        let unchanged = denied-refused tc a w d.0 (ap (rule_of a.permission_mgr) same ∙ d.1) in
        subst (Denies name) (sym unchanged.1) d
  ]

  pub calls-Denies :
      (name : String) (calls : List ToolCall) (a : Agent W) (w : W)
      → Denies name a
      → Denies name (execute_tool_calls_with_results env calls a w).2
  unfolding execute_tool_calls_with_results
  calls-Denies name [] a w d = d
  calls-Denies name (tc ∷ tcs) a w d =
      let out = execute_single_tool env tc a w in
      let recorded : Agent W = record out.1 {
        loop_detector = record_tool_call (call_record tc) out.1.loop_detector;
      } in
      calls-Denies name tcs recorded out.2 (single-Denies name tc a w d)
