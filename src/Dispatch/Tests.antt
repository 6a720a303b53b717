-- ===== src/Dispatch/Tests.antt =====
-- Runs of the tool registry and of the dispatcher (internal/tool, internal/agent/dispatch.go), and
-- the theorems about them there.
use vibe_local_go.Base.{
  length, ◌<◌, ◌≤◌, ℕ, ◌+◌, ◌≡◌, refl, String, true, false, ◌||◌, List, [], ◌∷◌, ◌++◌, any, ◌==◌,
  ltb, ◌<◌, if◌then◌else◌, insert, arith, All,
}
use mathlib.Core.List.{Perm}
use vibe_local_go.Session.{ToolCall}
use vibe_local_go.Tool.{
  Registry, Tool, Executed, returned, raised, new_registry, register_with_options, get,
  default_tool_config, with_failure_strategy, strategy_retry,
}
use vibe_local_go.Dispatch.{
  Timing, Answer, read_only_calls, write_calls, group_for_parallel_execution, is_write_tool,
  is_read_only_tool, apply_failure_strategy,
}
use vibe_local_go.Dispatch.Execution.{
  is_retryable, result_of, execute_single_tool, execute_sequential, execute_tool_calls,
  execute_parallel, execute_sequential,
}
use vibe_local_go.Dispatch.Attempts.{LastAttempt, is_good, forgives, execute_single_tool_explained}
use vibe_local_go.Dispatch.Order.{IsStoppedRun, execute_sequential-IsStoppedRun}
use vibe_local_go.Dispatch.Parallel.{AllAnswered}
use vibe_local_go.Dispatch.Batches.{flatten, IsBatch, group-Perm, read_only_calls_answered}

-- The world counts executions and pauses.
abbrev ticking : Timing ℕ
ticking = record { sleep = λ d w. w + 100; cancelled = λ w. false; wait = λ d w. (false, w + 1000) }

abbrev ascii : ℕ → ℕ
ascii c = c

abbrev tool_of : String → (ℕ → Executed) → Tool ℕ
tool_of name answer = record {
  name = name;
  execute = λ arguments w. (answer w, w + 1);
  schema = record { name = name; description = "" };
}

abbrev output : String → Executed
output text = returned (record { output = text; is_error = false; tool_call_id = ""; error = "" })

-- Times out at first, and answers once a pause was made.
abbrev flaky : Tool ℕ
flaky = tool_of "read_file" (λ w. if ltb w 100 then raised "timeout" else output "text")

abbrev broken : Tool ℕ
broken = tool_of "bash" (λ w. raised "no such command")

abbrev registry : Registry ℕ
registry =
    register_with_options "bash" broken (with_failure_strategy strategy_retry ∷ [])
      (register_with_options "read_file" flaky [] new_registry)

abbrev call : String → String → ToolCall
call id name = record {
  id = id;
  kind = "function";
  function = record { name = name; arguments = "{}" };
}

abbrev mixed : List ToolCall
mixed = call "a" "read_file" ∷ call "b" "bash" ∷ call "c" "read_file" ∷ []

abbrev reads : List ToolCall
reads = call "a" "read_file" ∷ call "b" "read_file" ∷ []

retried : (execute_single_tool ascii ticking registry (call "a" "read_file") 0).1 ≡ 102
unfolding execute_single_tool register_with_options new_registry get default_tool_config insert
    is_retryable
retried = refl

stops_at_bash : (execute_sequential ascii ticking registry mixed 0).1 ≡ 103
unfolding execute_sequential execute_single_tool register_with_options new_registry get
    default_tool_config is_write_tool insert is_retryable apply_failure_strategy
stops_at_bash = refl

execute_single_tool_explained_example :
    let cfg = default_tool_config "read_file" flaky in
    let (r, w') = execute_single_tool ascii ticking registry (call "a" "read_file") 0 in
    (a : Answer) × LastAttempt ascii ticking cfg "{}" cfg.max_retries 0 a w'
    × (r ≡ result_of cfg (call "a" "read_file") a)
    × (r.is_success ≡ is_good a || forgives cfg.failure_strategy)
unfolding register_with_options new_registry get default_tool_config insert
execute_single_tool_explained_example =
    execute_single_tool_explained ascii ticking registry (default_tool_config "read_file" flaky)
      (call "a" "read_file") 0 refl

execute_sequential-IsStoppedRun_example :
    let (results, w') = execute_sequential ascii ticking registry mixed 0 in
    IsStoppedRun ascii ticking registry mixed 0 results w'
execute_sequential-IsStoppedRun_example =
    execute_sequential-IsStoppedRun ascii ticking registry mixed 0

group-Perm_example :
    (flatten (group_for_parallel_execution mixed) ≡ read_only_calls mixed ++ write_calls mixed)
    × Perm (flatten (group_for_parallel_execution mixed)) mixed
    × All IsBatch (group_for_parallel_execution mixed)
group-Perm_example = group-Perm mixed

listed : (i : ℕ) → i < 2 → any (λ k. k == i) (1 ∷ 0 ∷ []) ≡ true
listed i h = ground arith

read_only_calls_answered_example :
    let out = execute_tool_calls ascii ticking registry (1 ∷ 0 ∷ []) reads 0 in
    AllAnswered reads out.0
    × (10 < length reads → out ≡ execute_sequential ascii ticking registry reads 0)
    × (0 < length reads
        → length reads ≤ 10
        → out ≡ execute_parallel ascii ticking registry (1 ∷ 0 ∷ []) reads 0)
unfolding is_read_only_tool
read_only_calls_answered_example =
    read_only_calls_answered ascii ticking registry (1 ∷ 0 ∷ []) reads 0 refl listed
