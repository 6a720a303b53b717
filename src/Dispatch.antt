-- ===== src/Dispatch.antt =====
-- internal/agent/dispatch.go: the execution of the tool calls of an answer. `W` is the state of the
-- world; `table` is Go's case table outside of ASCII. A call of a tool is one step, also in
-- executeParallel: its goroutines are run one after the other, in an order that is an argument.
pub mod Execution
pub mod Attempts
pub mod Order
pub mod Parallel
pub mod Batches
mod Tests
use vibe_local_go.Base.{
  ℕ, zero, suc, ◌+◌, ◌*◌, ◌^◌, ◌%◌, String, Bool, true, false, not, ◌&&◌, ◌||◌, List, [], ◌∷◌, ◌++◌,
  Option, none, some, map, length, get_elem?, all, any, is_empty, leb, ltb, str_eq, codes, is_infix,
  lower_rune, concat, decimal, if◌then◌else◌,
}
use vibe_local_go.Session.{ToolCall}
use vibe_local_go.Tool.{
  Registry, Tool, ToolConfig, ToolFailureStrategy, strategy_fatal, strategy_retry, strategy_skip,
  strategy_fallback, Executed, ExecResult, returned, raised, get, get_tool,
}

abbrev pub max_parallel_tools : ℕ
max_parallel_tools = 10

pub record ToolResult : Type 0 where
  pub tool_call_id : String
  pub is_success : Bool
  pub content : String
  pub error : String

pub record ToolCapabilities : Type 0 where
  pub name : String
  pub description : String
  pub is_read_only : Bool
  pub is_safe : Bool

-- time.Sleep, ctx.Done, and the select between ctx.Done and time.After: the Boolean of `wait` says
-- that the context was cancelled.
pub record Timing (W : Type 0) : Type 0 where
  pub sleep : ℕ → W → W
  pub cancelled : W → Bool
  pub wait : ℕ → W → Bool × W

abbrev pub is_listed : String → List String → Bool
is_listed name = any (λ t. str_eq t name)

unfoldable pub is_read_only_tool : String → Bool
is_read_only_tool name =
    is_listed name ("read_file" ∷ "glob" ∷ "grep" ∷ "web_search" ∷ "web_fetch" ∷ [])

unfoldable pub is_write_tool : String → Bool
is_write_tool name = is_listed name ("write_file" ∷ "edit_file" ∷ "bash" ∷ [])

unfoldable pub is_safe_tool : String → Bool
is_safe_tool name = is_listed name ("read_file" ∷ "glob" ∷ "grep" ∷ [])

unfoldable pub can_execute_in_parallel : List ToolCall → Bool
can_execute_in_parallel calls =
    all (λ tc. is_read_only_tool tc.function.name) calls
    && not (ltb max_parallel_tools (length calls))

unfoldable pub get_fallback_result : String → String
get_fallback_result name =
    if str_eq name "web_search"
    then "[]\n// Note: web_search unavailable - search the web manually if needed"
    else if str_eq name "web_fetch"
    then "// Note: web_fetch unavailable - content could not be retrieved"
    else if str_eq name "glob"
    then "[]\n// Note: glob returned no results (fallback)"
    else if str_eq name "grep"
    then "// Note: grep returned no matches (fallback)"
    else if str_eq name "bash"
    then "// Command execution failed (fallback - may need manual execution)"
    else concat ("// Tool " ∷ name ∷ " unavailable (fallback)" ∷ [])

abbrev pub failure : String → String → ToolResult
failure id error = record { tool_call_id = id; is_success = false; content = ""; error = error }

abbrev pub success : String → String → String → ToolResult
success id content error = record {
  tool_call_id = id;
  is_success = true;
  content = content;
  error = error;
}

-- The switch on FailureStrategy.
unfoldable pub apply_failure_strategy : ToolFailureStrategy → ToolCall → String → ToolResult
apply_failure_strategy strategy_fatal tc err =
    failure tc.id (concat ("❌ " ∷ tc.function.name ∷ " failed: " ∷ err ∷ []))
apply_failure_strategy strategy_skip tc err =
    success tc.id
      (concat
        ("⚠\u{fe0f} " ∷ tc.function.name ∷ " skipped due to failure, continuing without it" ∷ []))
      ""
apply_failure_strategy strategy_fallback tc err =
    success tc.id (get_fallback_result tc.function.name)
      (concat ("⚠\u{fe0f} " ∷ tc.function.name ∷ " failed, using fallback result" ∷ []))
apply_failure_strategy strategy_retry tc err =
    failure tc.id (concat (tc.function.name ∷ " failed: " ∷ err ∷ []))

-- The answer of one execution: a result to return, or the text of lastErr.
pub data Answer : Type 0 where
  good : ExecResult → Answer
  bad : String → Answer

abbrev pub answer_of : Executed → Answer
answer_of (returned r) = if r.is_error then bad r.error else good r
answer_of (raised err) = bad err

-- 100 ms, doubled with every attempt, as an int64: a shift by 64 and more leaves 0.
unfoldable pub delay_for_retry : ℕ → ℕ
delay_for_retry attempt = 2 ^ attempt * (100 * 1_000_000) % 2 ^ 64

unfoldable pub read_only_calls : List ToolCall → List ToolCall
read_only_calls [] = []
read_only_calls (tc ∷ tcs) =
    let rest = read_only_calls tcs in if is_read_only_tool tc.function.name then tc ∷ rest else rest

unfoldable pub write_calls : List ToolCall → List ToolCall
write_calls [] = []
write_calls (tc ∷ tcs) =
    let rest = write_calls tcs in if is_read_only_tool tc.function.name then rest else tc ∷ rest

unfoldable pub group_for_parallel_execution : List ToolCall → List (List ToolCall)
unfolding read_only_calls write_calls
group_for_parallel_execution calls =
    let batches = map (λ op. op ∷ []) (write_calls calls) in
    if is_empty (read_only_calls calls) then batches else read_only_calls calls ∷ batches

-- The text of GetExecutionSummary.
abbrev pub succeeded : List ToolResult → ℕ
succeeded [] = 0
succeeded (r ∷ rs) = (if r.is_success then 1 else 0) + succeeded rs

abbrev pub failures : List ToolResult → ℕ
failures [] = 0
failures (r ∷ rs) = (if r.is_success then 0 else 1) + failures rs

unfoldable pub get_execution_summary : List ToolResult → String
unfolding decimal
get_execution_summary rs = concat (
    "Executed "
    ∷ decimal (length rs)
    ∷ " tool calls: "
    ∷ decimal (succeeded rs)
    ∷ " succeeded, "
    ∷ decimal (failures rs)
    ∷ " failed"
    ∷ [])
