-- ===== src/Agent/Guard.antt =====
-- When executeSingleTool of internal/agent/agent.go runs a tool, and what the calls of an answer
-- leave behind.
use vibe_local_go.Base.{
  ◌≡◌, ◌≢◌, arith, refl, ap, ◌⊎◌, inl, inr, String, Bool, true, false, ◌&&◌, none, some, Bool-cases,
  Option-cases,
}
use vibe_local_go.Session.{ToolCall}
use vibe_local_go.Permission.{PermissionType, check_permission}
use vibe_local_go.Tool.{ToolConfig, get}
use vibe_local_go.Dispatch.{ToolResult, failure}
use vibe_local_go.Agent.{
  Agent, Surroundings, Asked, ask_failed, asked, remember, remembers, Permit, permit, permit_error,
  ask_user_permission, after_execution, run_tool, after_asking, guarded, execute_single_tool,
  is_blocked_in_plan_mode,
}

Asked-cases :
    (x : Asked)
    → ((err : String) × (x ≡ ask_failed err))
      ⊎ ((allowed : Bool) × (perm : PermissionType) × (x ≡ asked allowed perm))
Asked-cases (ask_failed err) = inl (err, refl)
Asked-cases (asked allowed perm) = inr (allowed, perm, refl)

Permit-cases :
    (p : Permit)
    → ((err : String) × (p ≡ permit_error err)) ⊎ (p ≡ permit false) ⊎ (p ≡ permit true)
Permit-cases (permit_error err) = inl (err, refl)
Permit-cases (permit false) = inr (inl refl)
Permit-cases (permit true) = inr (inr refl)

refused : {p : Permit} {err : String} → p ≡ permit_error err → p ≢ permit true
refused e q = absurd (ground (arith, e, q))

denied : {p : Permit} → p ≡ permit false → p ≢ permit true
denied e q = absurd (ground (arith, e, q))

module _ {W : Type 0} (env : Surroundings W) where
  -- The call may run, in this state: a rule or the category of the tool allows it, or else the user.
  abbrev pub Approved : ToolCall → Agent W → W → Agent W → W → Type 0
  Approved tc a w a₁ w₁ =
      let check = check_permission a.permission_mgr tc.function.name in
      (check.error ≡ none)
      × (((check.allowed ≡ true) × (a₁ ≡ a) × (w₁ ≡ w))
          ⊎ ((check.allowed ≡ false)
              × (ask_user_permission env tc.function.name tc.function.arguments a w
                  ≡ (permit true, a₁, w₁))))

  -- The tool was run, once, after everything that can refuse it.
  pub record Ran (tc : ToolCall) (a : Agent W) (w : W) (out : ToolResult × Agent W × W)
      : Type 0 where
    pub cfg : ToolConfig W
    pub registered : get tc.function.name a.registry ≡ some cfg
    pub unblocked : (a.plan_mode && is_blocked_in_plan_mode tc.function.name) ≡ false
    pub a₁ : Agent W
    pub w₁ : W
    pub approved : Approved tc a w a₁ w₁
    pub outcome : out ≡ after_execution env cfg tc a₁ (cfg.tool.execute tc.function.arguments w₁)

  -- Why a call is refused: plan mode, no such tool, a rule `deny`, or no permission from the user.
  abbrev pub Reason : ToolCall → Agent W → W → Type 0
  Reason tc a w =
      let check = check_permission a.permission_mgr tc.function.name in
      ((a.plan_mode && is_blocked_in_plan_mode tc.function.name) ≡ true)
      ⊎ (get tc.function.name a.registry ≡ none)
      ⊎ ((err : String) × (check.error ≡ some err))
      ⊎ ((check.allowed ≡ false)
          × ((ask_user_permission env tc.function.name tc.function.arguments a w).0 ≢ permit true))

  -- The tool was not run: the world is as before, or as the question to the user left it. The
  -- session is unchanged, and the reason is not part of the content.
  pub record Refused (tc : ToolCall) (a : Agent W) (w : W) (out : ToolResult × Agent W × W)
      : Type 0 where
    pub reason : Reason tc a w
    pub is_failure : out.0.is_success ≡ false
    pub no_content : out.0.content ≡ ""
    pub own_id : out.0.tool_call_id ≡ tc.id
    pub same_session : out.1.session ≡ a.session
    pub world : (out.2 ≡ w) ⊎ (out.2 ≡ (env.ask tc.function.name tc.function.arguments w).1)

  refuse :
      (tc : ToolCall) (a : Agent W) (w : W) (error : String) (a₁ : Agent W) (w₁ : W)
      → Reason tc a w
      → a₁.session ≡ a.session
      → (w₁ ≡ w) ⊎ (w₁ ≡ (env.ask tc.function.name tc.function.arguments w).1)
      → Refused tc a w (failure tc.id error, a₁, w₁)
  refuse tc a w error a₁ w₁ why s v = record {
    reason = why;
    is_failure = refl;
    no_content = refl;
    own_id = refl;
    same_session = s;
    world = v;
  }

  remember-session :
      (name : String) (perm : PermissionType) (a : Agent W) (w : W)
      → (remember env name perm a w).session ≡ a.session
  unfolding remember
  remember-session name perm a w = elim (Bool-cases (remembers perm)) [
    | inl t ↦ rw (remember, t) refl
    | inr f ↦ rw (remember, f) refl
  ]

  -- The question changes no session, and the world at most by being asked.
  ask-harmless :
      (name arguments : String) (a : Agent W) (w : W)
      → let out = ask_user_permission env name arguments a w in
        (out.1.session ≡ a.session) × ((out.2 ≡ w) ⊎ (out.2 ≡ (env.ask name arguments w).1))
  unfolding ask_user_permission
  ask-harmless name arguments a w = elim (Bool-cases a.auto_approve) [
    | inl t ↦ rw (ask_user_permission, t) (refl, inl refl)
    | inr f ↦ elim (Asked-cases (env.ask name arguments w).0) [
      | inl (err, e) ↦ rw (ask_user_permission, f, e) (refl, inr refl)
      | inr (allowed, perm, e) ↦
          rw (ask_user_permission, f, e)
            (remember-session name perm a (env.ask name arguments w).1, inr refl)
    ]
  ]

  guarded_lem :
      (cfg : ToolConfig W) (tc : ToolCall) (a : Agent W) (w : W)
      → get tc.function.name a.registry ≡ some cfg
      → (a.plan_mode && is_blocked_in_plan_mode tc.function.name) ≡ false
      → let out = guarded env cfg tc (check_permission a.permission_mgr tc.function.name) a w in
        Ran tc a w out ⊎ Refused tc a w out
  unfolding guarded after_asking run_tool
  guarded_lem cfg tc a w g u =
      let check = check_permission a.permission_mgr tc.function.name in
      let ask = ask_user_permission env tc.function.name tc.function.arguments a w in
      let harmless = ask-harmless tc.function.name tc.function.arguments a w in
      elim (Option-cases check.error) [
        | inr (err, e) ↦
            rw (guarded, e) (inr (refuse tc a w _ a w (inr (inr (inl (err, e)))) refl (inl refl)))
        | inl n ↦ elim (Bool-cases check.allowed) [
          | inl t ↦
              rw (guarded, n, t)
                (inl (record {
                  cfg = cfg;
                  registered = g;
                  unblocked = u;
                  a₁ = a;
                  w₁ = w;
                  approved = (n, inl (t, refl, refl));
                  outcome = refl;
                }))
          | inr f ↦ elim (Permit-cases ask.0) [
            | inl (err, e) ↦
                rw (guarded, n, f, after_asking, e)
                  (inr (
                    refuse tc a w _ ask.1 ask.2 (inr (inr (inr (f, λ q. refused e q)))) harmless.0
                      harmless.1))
            | inr (inl e) ↦
                rw (guarded, n, f, after_asking, e)
                  (inr (
                    refuse tc a w _ ask.1 ask.2 (inr (inr (inr (f, λ q. denied e q)))) harmless.0
                      harmless.1))
            | inr (inr e) ↦
                rw (guarded, n, f, after_asking, e)
                  (inl (record {
                    cfg = cfg;
                    registered = g;
                    unblocked = u;
                    a₁ = ask.1;
                    w₁ = ask.2;
                    approved = (n, inr (f, ap (λ p. (p, ask.1, ask.2)) e));
                    outcome = refl;
                  }))
          ]
        ]
      ]

  -- A call of a tool runs it only where the tool is registered, plan mode does not block it,
  -- CheckPermission reports no error, and it allows the tool or askUserPermission does (either does so
  -- without a rule or a question under -y). Otherwise, for one of these reasons, the tool does not run
  -- and the call fails.
  pub execute_single_tool-guarded :
      (tc : ToolCall) (a : Agent W) (w : W)
      → Ran tc a w (execute_single_tool env tc a w)
        ⊎ Refused tc a w (execute_single_tool env tc a w)
  unfolding execute_single_tool
  execute_single_tool-guarded tc a w =
      elim (Bool-cases (a.plan_mode && is_blocked_in_plan_mode tc.function.name)) [
        | inl t ↦ rw (execute_single_tool, t) (inr (refuse tc a w _ a w (inl t) refl (inl refl)))
        | inr u ↦ elim (Option-cases (get tc.function.name a.registry)) [
          | inl n ↦
              rw (execute_single_tool, u, n)
                (inr (refuse tc a w _ a w (inr (inl n)) refl (inl refl)))
          | inr (cfg, g) ↦ rw (execute_single_tool, u, g) (guarded_lem cfg tc a w g u)
        ]
      ]
