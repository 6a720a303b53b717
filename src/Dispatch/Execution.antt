-- ===== src/Dispatch/Execution.antt =====
-- The execution itself: executeSingleTool, the two ways to execute a list of calls, and the retries
-- of ExecuteWithRetry (internal/agent/dispatch.go).
use vibe_local_go.Base.{
  ℕ, zero, suc, ◌+◌, String, Bool, true, false, not, ◌&&◌, ◌||◌, List, [], ◌∷◌, ◌++◌, Option, none,
  some, map, get_elem?, any, is_empty, codes, is_infix, lower_rune, concat, str_eq, if◌then◌else◌,
}
use vibe_local_go.Session.{ToolCall}
use vibe_local_go.Tool.{Registry, ToolConfig, get, get_tool}
use vibe_local_go.Dispatch.{
  Timing, ToolResult, ToolCapabilities, Answer, good, bad, answer_of, failure, success,
  apply_failure_strategy, is_write_tool, is_read_only_tool, is_safe_tool, can_execute_in_parallel,
  delay_for_retry,
}

-- The list with the element at an index replaced.
abbrev pub set_at {ℓ} : {A : Type ℓ} → ℕ → A → List A → List A
set_at i x [] = []
set_at zero x (y ∷ ys) = x ∷ ys
set_at (suc i) x (y ∷ ys) = y ∷ set_at i x ys

-- ToolResult{}
abbrev pub empty_result : ToolResult
empty_result = record { tool_call_id = ""; is_success = false; content = ""; error = "" }

-- What is wrong with a call; `is_json` is json.Unmarshal on the arguments.
pub data Invalid : Type 0 where
  unknown_tool : String → Invalid
  invalid_json : Invalid

-- Whether the text, in lower case, contains one of the patterns.
abbrev pub mentions : (ℕ → ℕ) → List String → String → Bool
mentions table patterns text =
    any (λ p. is_infix (codes p) (map (lower_rune table) (codes text))) patterns

unfoldable pub is_retryable : (ℕ → ℕ) → String → Bool
is_retryable table = mentions table (
    "timeout" ∷ "connection refused" ∷ "temporary failure" ∷ "rate limit" ∷ "network unreachable"
    ∷ "temporary" ∷ [])

unfoldable pub should_not_retry : (ℕ → ℕ) → String → Bool
should_not_retry table = mentions table (
    "permission denied" ∷ "access denied" ∷ "not found" ∷ "invalid parameter" ∷ "tool not found"
    ∷ [])

-- Whether executeSequential ends with this result.
abbrev pub stops : ToolCall → ToolResult → Bool
stops tc r = not r.is_success && is_write_tool tc.function.name

module _ {W : Type 0} where
  unfoldable pub get_tool_capabilities : Registry W → String → Option ToolCapabilities
  get_tool_capabilities registry name = elim (get name registry) [
    | none ↦ none
    | some cfg ↦ some (record {
      name = cfg.tool.schema.name;
      description = cfg.tool.schema.description;
      is_read_only = is_read_only_tool name;
      is_safe = is_safe_tool name;
    })
  ]

  unfoldable pub validate_tool_call : Registry W → (String → Bool) → ToolCall → Option Invalid
  validate_tool_call registry is_json tc = elim (get_tool tc.function.name registry) [
    | none ↦ some (unknown_tool tc.function.name)
    | some t ↦
        if str_eq tc.function.arguments "" || is_json tc.function.arguments
        then none
        else some invalid_json
  ]

  -- The result that is made of the last answer.
  unfoldable pub result_of : ToolConfig W → ToolCall → Answer → ToolResult
  result_of cfg tc (good r) = success tc.id r.output r.error
  result_of cfg tc (bad err) = apply_failure_strategy cfg.failure_strategy tc err

  module _ (table : ℕ → ℕ) (timing : Timing W) where
    -- The retry loop; `left` is MaxRetries - attempt.
    unfoldable pub attempts : ℕ → ToolConfig W → String → W → Answer × W
    attempts zero cfg arguments w =
        let ran = cfg.tool.execute arguments w in (answer_of ran.0, ran.1)
    attempts (suc left) cfg arguments w =
        let ran = cfg.tool.execute arguments w in
        elim (answer_of ran.0) [
          | good r ↦ (good r, ran.1)
          | bad err ↦ elim (is_retryable table err) [
            | true ↦ attempts left cfg arguments (timing.sleep cfg.retry_backoff ran.1)
            | false ↦ (bad err, ran.1)
          ]
        ]

    module _ (registry : Registry W) where
      unfoldable pub execute_single_tool : ToolCall → W → ToolResult × W
      unfolding attempts result_of
      execute_single_tool tc w = elim (get tc.function.name registry) [
        | none ↦ (failure tc.id (concat ("Tool not found: " ∷ tc.function.name ∷ [])), w)
        | some cfg ↦
            let last = attempts cfg.max_retries cfg tc.function.arguments w in
            (result_of cfg tc last.0, last.1)
      ]

      unfoldable pub execute_sequential : List ToolCall → W → List ToolResult × W
      execute_sequential [] w = ([], w)
      execute_sequential (tc ∷ tcs) w =
          let done = execute_single_tool tc w in
          elim (stops tc done.0) [
            | true ↦ (done.0 ∷ [], done.1)
            | false ↦ let rest = execute_sequential tcs done.1 in (done.0 ∷ rest.0, rest.1)
          ]

      -- results[idx] = d.executeSingleTool(ctx, &toolCall), for the indexes in the order given.
      unfoldable pub run_parallel :
          List ℕ → List ToolCall → List ToolResult → W → List ToolResult × W
      run_parallel [] calls results w = (results, w)
      run_parallel (idx ∷ order) calls results w = elim (get_elem? calls idx) [
        | none ↦ run_parallel order calls results w
        | some tc ↦
            let done = execute_single_tool tc w in
            run_parallel order calls (set_at idx done.0 results) done.1
      ]

      unfoldable pub execute_parallel : List ℕ → List ToolCall → W → List ToolResult × W
      execute_parallel order calls w = run_parallel order calls (map (λ tc. empty_result) calls) w

      unfoldable pub execute_tool_calls : List ℕ → List ToolCall → W → List ToolResult × W
      execute_tool_calls order calls w =
          if is_empty calls
          then ([], w)
          else if can_execute_in_parallel calls
          then execute_parallel order calls w
          else execute_sequential calls w

      -- The batches with the order in which the goroutines of each are run.
      unfoldable pub execute_batch : List (List ℕ × List ToolCall) → W → List ToolResult × W
      execute_batch [] w = ([], w)
      execute_batch ((order, batch) ∷ batches) w = elim (timing.cancelled w) [
        | true ↦ ([], w)
        | false ↦
            let first = execute_tool_calls order batch w in
            let rest = execute_batch batches first.1 in (first.0 ++ rest.0, rest.1)
      ]

      -- The loop of ExecuteWithRetry; `left` is maxRetries - attempt.
      unfoldable pub retry_from : ℕ → ℕ → ToolCall → W → ToolResult × W
      retry_from zero attempt tc w = execute_single_tool tc w
      retry_from (suc left) attempt tc w =
          let done = execute_single_tool tc w in
          elim done.0.is_success [
            | true ↦ done
            | false ↦ elim (should_not_retry table done.0.error) [
              | true ↦ done
              | false ↦
                  let waited = timing.wait (delay_for_retry attempt) done.1 in
                  elim waited.0 [
                    | true ↦ (failure tc.id "operation cancelled", waited.1)
                    | false ↦ retry_from left (attempt + 1) tc waited.1
                  ]
            ]
          ]

      unfoldable pub execute_with_retry : ToolCall → ℕ → W → ToolResult × W
      unfolding retry_from
      execute_with_retry tc max_retries w = retry_from max_retries 0 tc w
