-- ===== src/SubAgent/Tests.antt =====
-- Runs of a sub-agent (internal/agent/subagent.go), and the theorems about it.
use vibe_local_go.Base.{ℕ, ◌+◌, ◌≡◌, refl, String, true, false, [], ◌∷◌, map, lookup, insert}
use vibe_local_go.Session.{ToolCall, new_session}
use vibe_local_go.LoopDetector.{new_loop_detector}
use vibe_local_go.Tool.{Tool, returned, new_registry, register_with_options, get_tool}
use vibe_local_go.Dispatch.{is_write_tool}
use vibe_local_go.Agent.RunTests.{host}
use vibe_local_go.SubAgent.{SubAgent, new_sub_agent, execute_sub_agent_tools, run_sub_tool}
use vibe_local_go.SubAgent.ReadOnly.{harmless, execute_sub_agent_tools-harmless}

-- A tool that counts its calls in the world.
abbrev counted : String → Tool ℕ
counted name = record {
  name = name;
  execute = λ arguments w. (
    returned (record { output = "done"; is_error = false; tool_call_id = ""; error = "" }),
    w + 1,
  );
  schema = record { name = name; description = "" };
}

abbrev agent : SubAgent ℕ
agent = record {
  id = "agent-1";
  registry =
      register_with_options "notebook_edit" (counted "notebook_edit") []
        (register_with_options "bash" (counted "bash") [] new_registry);
  session = new_session "subagent-agent-1" "";
  max_turns = 5;
  allow_writes = false;
  loop_detector = new_loop_detector;
}

abbrev call : String → ToolCall
call name = record {
  id = name;
  kind = "function";
  function = record { name = name; arguments = "{}" };
}

-- bash is blocked, and notebook_edit is run although its schema is hidden.
notebook_runs :
    (execute_sub_agent_tools host (call "bash" ∷ call "notebook_edit" ∷ []) agent 0).2 ≡ 1
unfolding execute_sub_agent_tools run_sub_tool register_with_options new_registry get_tool lookup
    insert is_write_tool
notebook_runs = refl

limits_turns : (new_sub_agent {W = ℕ} "a" new_registry "" 50 true).max_turns ≡ 20
unfolding new_sub_agent
limits_turns = refl

execute_sub_agent_tools-harmless_example :
    let calls = call "bash" ∷ call "notebook_edit" ∷ [] in
    let (results, sa', w') = execute_sub_agent_tools host calls agent 0 in
    let (others, sa'', w'') = execute_sub_agent_tools host (harmless calls) agent 0 in
    (sa' ≡ sa'') × (w' ≡ w'') × (map (λ r. r.tool_call_id) results ≡ map (λ tc. tc.id) calls)
execute_sub_agent_tools-harmless_example =
    execute_sub_agent_tools-harmless host (call "bash" ∷ call "notebook_edit" ∷ []) agent 0 refl
