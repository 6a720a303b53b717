-- ===== src/SubAgent/ReadOnly.antt =====
-- What a read-only sub-agent (internal/agent/subagent.go) executes.
use vibe_local_go.Base.{
  ◌≡◌, refl, sym, ap, ◌∙◌, true, false, List, [], ◌∷◌, arith, Bool-cases, Option-cases, inl, inr,
  if◌then◌else◌, map,
}
use vibe_local_go.Session.{ToolCall, ToolResult}
use vibe_local_go.Tool.{get_tool, Executed, raised, returned}
use vibe_local_go.Dispatch.{is_write_tool}
use vibe_local_go.Agent.Run.{Host}
use vibe_local_go.SubAgent.{SubAgent, is_blocked, run_sub_tool, execute_sub_agent_tools, told_of}

-- The calls of tools that do not write.
abbrev pub harmless : List ToolCall → List ToolCall
harmless [] = []
harmless (tc ∷ tcs) =
    let rest = harmless tcs in if is_write_tool tc.function.name then rest else tc ∷ rest

module _ {W : Type 0} (host : Host W) where
  run_sub_tool-writes :
      (tc : ToolCall) (sa : SubAgent W) (w : W)
      → (run_sub_tool host tc sa w).1.allow_writes ≡ sa.allow_writes
  unfolding run_sub_tool
  run_sub_tool-writes tc sa w = ground arith

  told-id : (tc : ToolCall) (x : Executed) → (told_of host tc x).tool_call_id ≡ tc.id
  told-id tc (raised err) = refl
  told-id tc (returned r) = refl

  run_sub_tool-id :
      (tc : ToolCall) (sa : SubAgent W) (w : W) → (run_sub_tool host tc sa w).0.tool_call_id ≡ tc.id
  unfolding run_sub_tool
  run_sub_tool-id tc sa w = elim (Option-cases (get_tool tc.function.name sa.registry)) [
    | inl n ↦ rw (run_sub_tool, n) refl
    | inr s ↦ rw (run_sub_tool, s.1) (told-id tc (s.0.execute tc.function.arguments w).0)
  ]

  free_step :
      (tc : ToolCall) (tcs : List ToolCall) (sa : SubAgent W) (w : W)
      → is_blocked host sa tc ≡ false
      → let (r, sa₁, w₁) = run_sub_tool host tc sa w in
        let (results, sa', w') = execute_sub_agent_tools host tcs sa₁ w₁ in
        execute_sub_agent_tools host (tc ∷ tcs) sa w ≡ (r ∷ results, sa', w')
  unfolding execute_sub_agent_tools
  free_step tc tcs sa w free = rw (execute_sub_agent_tools, free) refl

  -- The calls of write_file, edit_file and bash have no effect in a read-only sub-agent: its state
  -- and the world are those behind the other calls alone. Every call is answered under its own id.
  pub execute_sub_agent_tools-harmless :
      (calls : List ToolCall) (sa : SubAgent W) (w : W)
      → sa.allow_writes ≡ false
      → let (results, sa', w') = execute_sub_agent_tools host calls sa w in
        let (others, sa'', w'') = execute_sub_agent_tools host (harmless calls) sa w in
        (sa' ≡ sa'') × (w' ≡ w'') × (map (λ r. r.tool_call_id) results ≡ map (λ tc. tc.id) calls)
  unfolding execute_sub_agent_tools
  execute_sub_agent_tools-harmless [] sa w h = (refl, refl, refl)
  execute_sub_agent_tools-harmless (tc ∷ tcs) sa w h =
      elim (Bool-cases (is_write_tool tc.function.name)) [
        | inl t ↦
            let blocked : is_blocked host sa tc ≡ true = ground (arith, t, h) in
            let ih = execute_sub_agent_tools-harmless tcs sa w h in
            rw (execute_sub_agent_tools, blocked, t) (ih.0, ih.1, ap (λ ids. tc.id ∷ ids) ih.2)
        | inr f ↦
            let free : is_blocked host sa tc ≡ false = ground (arith, f) in
            let ran = run_sub_tool host tc sa w in
            let ih =
              execute_sub_agent_tools-harmless tcs ran.1 ran.2 (run_sub_tool-writes tc sa w ∙ h) in
            let one = free_step tc tcs sa w free in
            let kept : harmless (tc ∷ tcs) ≡ tc ∷ harmless tcs = rw (f) refl in
            let other =
              ap (λ cs. execute_sub_agent_tools host cs sa w) kept
              ∙ free_step tc (harmless tcs) sa w free in
            (
              ap (λ out. out.1) one ∙ ih.0 ∙ sym (ap (λ out. out.1) other),
              ap (λ out. out.2) one ∙ ih.1 ∙ sym (ap (λ out. out.2) other),
              ap (λ out. map (λ (r : ToolResult). r.tool_call_id) out.0) one
                  ∙ ap
                      (λ id.
                        id
                        ∷ map (λ (r : ToolResult). r.tool_call_id)
                            (execute_sub_agent_tools host tcs ran.1 ran.2).0)
                      (run_sub_tool-id tc sa w)
                  ∙ ap (λ ids. tc.id ∷ ids) ih.2,
            )
      ]
