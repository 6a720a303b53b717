-- ===== src/Agent/RunTests.antt =====
-- Runs of the agent's loop (internal/agent/agent.go), and the theorems about it.
use vibe_local_go.Base.{ℕ, ◌+◌, ◌≡◌, refl, false, List, [], ◌∷◌, none, some, inl, inr, Option-cases}
use vibe_local_go.Session.{ToolCall, new_session}
use vibe_local_go.Permission.{permission_deny, missing}
use vibe_local_go.LoopDetector.{new_loop_detector}
use vibe_local_go.Tool.{Tool, returned, new_registry, register_with_options}
use vibe_local_go.CodeValidator.{ended_well, script_of}
use vibe_local_go.Agent.{Agent, asked, test_failed}
use vibe_local_go.Agent.Run.{
  Host, chatted, max_iterations, started, run, validate_generated_scripts, last_write_file_call,
  validate_script, normalize_json_args,
}
use vibe_local_go.Agent.Ends.{IsEnded, run-IsEnded}
use vibe_local_go.Agent.Repeats.{Few, run-Few}

-- A model that answers every request by the same call of a tool; the world counts the requests.
abbrev pub host : Host ℕ
host = record {
  surroundings = record {
    ask = λ name arguments w. (asked false permission_deny, w);
    can_save = λ w. false;
    path_of = λ arguments. none;
    run_auto_test = λ path w. (test_failed, w);
  };
  runner = record {
    stat = λ path w. none;
    command = λ args input w. (record { stdout = ""; stderr = ""; ended = ended_well }, w);
    remove = λ path w. w;
    read_file = λ path w. none;
  };
  cancelled = λ w. none;
  chat = λ request w. (
    chatted (
        record {
          content = "";
          tool_calls =
              record {
                id = "a";
                kind = "function";
                function = record { name = "grep"; arguments = "{}" };
              }
              ∷ [];
        }
        ∷ []),
    w + 1,
  );
  object_of = λ trimmed. some "{}";
  unquote = λ s. none;
  command_of = λ arguments. none;
  file_path_of = λ arguments. some "";
  lower = λ c. c;
  max_tokens = 1000;
}

abbrev pub grep : Tool ℕ
grep = record {
  name = "grep";
  execute = λ arguments w.
      (returned (record { output = "done"; is_error = false; tool_call_id = ""; error = "" }), w);
  schema = record { name = "grep"; description = "" };
}

abbrev agent : Agent ℕ
agent = record {
  session = new_session "s" "";
  registry = register_with_options "grep" grep [] new_registry;
  permission_mgr = record { rules = []; always_approve = false };
  rules_file = missing;
  loop_detector = new_loop_detector;
  auto_approve = false;
  script_validation_count = 0;
  auto_test_enabled = false;
  plan_mode = false;
}

-- No path is read from a call, and no script is validated.
accepts : (calls : List ToolCall) (w : ℕ) → (validate_generated_scripts host calls w).0 ≡ none
unfolding validate_generated_scripts validate_script script_of
accepts calls w = elim (Option-cases (last_write_file_call calls)) [
  | inl n ↦ rw (validate_generated_scripts, n) refl
  | inr s ↦ rw (validate_generated_scripts, s.1) refl
]

normal_object : normalize_json_args host " {\"a\":1}" ≡ "{}"
unfolding normalize_json_args
normal_object = refl

run-IsEnded_example :
    IsEnded host max_iterations 0 (started host "go" agent) 0 (run host "go" agent 0)
run-IsEnded_example = run-IsEnded host "go" agent 0

run-Few_example : Few host (run host "go" agent 0).1.loop_detector
unfolding new_loop_detector
run-Few_example = run-Few host "go" agent 0 accepts refl
