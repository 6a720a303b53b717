-- ===== src/Dispatch/Attempts.antt =====
-- How executeSingleTool comes to its result: the attempts it makes.
use vibe_local_go.Base.{
  ℕ, zero, suc, ◌≤◌, ◌<◌, ◌≡◌, refl, sym, ap, ◌∙◌, ◌⊎◌, inl, inr, String, Bool, true, false, ◌||◌,
  none, some, arith, Bool-cases, concat, [], ◌∷◌,
}
use vibe_local_go.Token.Estimate.{codes-append}
use vibe_local_go.Session.{ToolCall}
use vibe_local_go.Tool.{
  Registry, ToolConfig, ExecResult, ToolFailureStrategy, strategy_fatal, strategy_retry,
  strategy_skip, strategy_fallback, get,
}
use vibe_local_go.Dispatch.{
  Timing, ToolResult, Answer, good, bad, answer_of, failure, apply_failure_strategy,
}
use vibe_local_go.Dispatch.Execution.{
  is_retryable, attempts, result_of, execute_single_tool, execute_with_retry, retry_from,
  should_not_retry,
}

abbrev pub is_good : Answer → Bool
is_good (good r) = true
is_good (bad err) = false

-- The strategies that make a success of a failure.
abbrev pub forgives : ToolFailureStrategy → Bool
forgives strategy_skip = true
forgives strategy_fallback = true
forgives _ = false

strategy-is_success :
    (strategy : ToolFailureStrategy) (tc : ToolCall) (err : String)
    → (apply_failure_strategy strategy tc err).is_success ≡ forgives strategy
unfolding apply_failure_strategy
strategy-is_success strategy_fatal tc err = refl
strategy-is_success strategy_retry tc err = refl
strategy-is_success strategy_skip tc err = refl
strategy-is_success strategy_fallback tc err = refl

Answer-cases : (a : Answer) → ((r : ExecResult) × (a ≡ good r)) ⊎ ((err : String) × (a ≡ bad err))
Answer-cases (good r) = inl (r, refl)
Answer-cases (bad err) = inr (err, refl)

result-is_success :
    {W : Type 0} (cfg : ToolConfig W) (tc : ToolCall) (a : Answer)
    → (result_of cfg tc a).is_success ≡ is_good a || forgives cfg.failure_strategy
unfolding result_of
result-is_success cfg tc (good r) = refl
result-is_success cfg tc (bad err) = strategy-is_success cfg.failure_strategy tc err

or-third : (a b : Bool) → a || (b || true) ≡ true
or-third a b = ground arith

abbrev pub not_found : ToolCall → ToolResult
not_found tc = failure tc.id (concat ("Tool not found: " ∷ tc.function.name ∷ []))

not_found-final :
    (table : ℕ → ℕ) (tc : ToolCall) → should_not_retry table (not_found tc).error ≡ true
unfolding should_not_retry
not_found-final table tc =
    rw (codes-append "Tool not found: " (concat (tc.function.name ∷ []))) (or-third _ _)

module _ {W : Type 0} (table : ℕ → ℕ) (timing : Timing W) where
  abbrev pub can_retry : Answer → Bool
  can_retry (good r) = false
  can_retry (bad err) = is_retryable table err

  -- The world before attempt k, when all attempts before it failed.
  abbrev pub world_at : ToolConfig W → String → ℕ → W → W
  world_at cfg arguments zero w = w
  world_at cfg arguments (suc k) w =
      world_at cfg arguments k (timing.sleep cfg.retry_backoff (cfg.tool.execute arguments w).1)

  abbrev pub answer_at : ToolConfig W → String → ℕ → W → Answer
  answer_at cfg arguments k w =
      answer_of (cfg.tool.execute arguments (world_at cfg arguments k w)).0

  -- The last attempt is number k: all before it failed and could be retried, and it is the first
  -- that cannot be retried, or the last that is allowed.
  pub record LastAttempt (cfg : ToolConfig W) (arguments : String) (left : ℕ) (w : W) (a : Answer)
      (w' : W) : Type 0 where
    pub k : ℕ
    pub k_le : k ≤ left
    pub before : (j : ℕ) → j < k → can_retry (answer_at cfg arguments j w) ≡ true
    pub answer : a ≡ answer_at cfg arguments k w
    pub world : w' ≡ (cfg.tool.execute arguments (world_at cfg arguments k w)).1
    pub ends : k < left → can_retry a ≡ false

  once-LastAttempt :
      (cfg : ToolConfig W) (arguments : String) (left : ℕ) (w : W) (a : Answer)
      → a ≡ answer_at cfg arguments 0 w
      → (0 < left → can_retry a ≡ false)
      → LastAttempt cfg arguments left w a (cfg.tool.execute arguments w).1
  once-LastAttempt cfg arguments left w a e h = record {
    k = 0;
    k_le = omega arith;
    before = λ j l. absurd (omega arith);
    answer = e;
    world = refl;
    ends = h;
  }

  again-LastAttempt :
      (cfg : ToolConfig W) (arguments : String) (left : ℕ) (w : W) (a : Answer) (w' : W)
      → can_retry (answer_at cfg arguments 0 w) ≡ true
      → LastAttempt cfg arguments left
          (timing.sleep cfg.retry_backoff (cfg.tool.execute arguments w).1)
          a
          w'
      → LastAttempt cfg arguments (suc left) w a w'
  again-LastAttempt cfg arguments left w a w' h l = record {
    k = suc l.k;
    k_le = ground (arith, l.k_le);
    before = λ j. elim j as (λ i. i < suc l.k → can_retry (answer_at cfg arguments i w) ≡ true) [
      | zero ↦ λ _. h
      | suc i ↦ λ lt. l.before i (omega arith)
    ];
    answer = l.answer;
    world = l.world;
    ends = λ lt. l.ends (omega arith);
  }

  attempts-LastAttempt :
      (cfg : ToolConfig W) (arguments : String) (left : ℕ) (w : W)
      → let (a, w') = attempts table timing left cfg arguments w in
        LastAttempt cfg arguments left w a w'
  unfolding attempts
  attempts-LastAttempt cfg arguments zero w =
      once-LastAttempt cfg arguments 0 w _ refl (λ h. absurd (omega arith))
  attempts-LastAttempt cfg arguments (suc left) w =
      let ran = cfg.tool.execute arguments w in
      let w₁ = timing.sleep cfg.retry_backoff ran.1 in
      elim (Answer-cases (answer_of ran.0)) [
        | inl (r, e) ↦
            rw (attempts, e)
              (once-LastAttempt cfg arguments (suc left) w (good r) (sym e) (λ _. refl))
        | inr (err, e) ↦ elim (Bool-cases (is_retryable table err)) [
          | inl t ↦
              rw (attempts, e, t)
                (again-LastAttempt cfg arguments left w _ _ (ap can_retry e ∙ t)
                  (attempts-LastAttempt cfg arguments left w₁))
          | inr f ↦
              rw (attempts, e, f)
                (once-LastAttempt cfg arguments (suc left) w (bad err) (sym e) (λ _. f))
        ]
      ]

  -- A registered tool is executed until an attempt succeeds, fails for good or is the last that
  -- MaxRetries allows, with a pause after each attempt before that. The result is made of that
  -- attempt; it is a success exactly where the attempt is, or where the failure strategy is to skip
  -- or to fall back.
  pub execute_single_tool_explained :
      (registry : Registry W) (cfg : ToolConfig W) (tc : ToolCall) (w : W)
      → get tc.function.name registry ≡ some cfg
      → let (r, w') = execute_single_tool table timing registry tc w in
        (a : Answer) × LastAttempt cfg tc.function.arguments cfg.max_retries w a w'
        × (r ≡ result_of cfg tc a)
        × (r.is_success ≡ is_good a || forgives cfg.failure_strategy)
  unfolding execute_single_tool
  execute_single_tool_explained registry cfg tc w h =
      let last = attempts table timing cfg.max_retries cfg tc.function.arguments w in
      rw (execute_single_tool, h)
        (
          last.0,
          attempts-LastAttempt cfg tc.function.arguments cfg.max_retries w,
          refl,
          result-is_success cfg tc last.0,
        )

  unknown-single :
      (registry : Registry W) (tc : ToolCall) (w : W)
      → get tc.function.name registry ≡ none
      → execute_single_tool table timing registry tc w ≡ (not_found tc, w)
  unfolding execute_single_tool
  unknown-single registry tc w h = rw (execute_single_tool, h) refl

  -- A tool that is not registered fails in the first round of ExecuteWithRetry, which does not try
  -- it again, however many retries it is given.
  pub unknown_tool_not_retried :
      (registry : Registry W) (tc : ToolCall) (max_retries : ℕ) (w : W)
      → get tc.function.name registry ≡ none
      → execute_with_retry table timing registry tc max_retries w ≡ (not_found tc, w)
  unfolding execute_with_retry retry_from
  unknown_tool_not_retried registry tc zero w h = unknown-single registry tc w h
  unknown_tool_not_retried registry tc (suc n) w h =
      ground (arith, unknown-single registry tc w h, not_found-final table tc)
