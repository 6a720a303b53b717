-- ===== src/Dispatch/Order.antt =====
-- Which calls executeSequential, executeParallel and ExecuteToolCalls execute, and where their
-- results are.
use vibe_local_go.Base.{
  ℕ, zero, suc, ◌≤◌, ◌<◌, ◌≡◌, refl, inl, inr, Bool, true, false, not, ◌&&◌, List, [], ◌∷◌, some,
  length, get_elem?, take, arith, Bool-cases,
}
use vibe_local_go.Session.{ToolCall}
use vibe_local_go.Tool.{Registry}
use vibe_local_go.Dispatch.{Timing, ToolResult, is_write_tool}
use vibe_local_go.Dispatch.Execution.{execute_single_tool, stops, execute_sequential}

-- The call at an index is a write that failed.
abbrev pub failed_write : List ToolCall → List ToolResult → ℕ → Bool
failed_write (tc ∷ tcs) (r ∷ rs) zero = not r.is_success && is_write_tool tc.function.name
failed_write (tc ∷ tcs) (r ∷ rs) (suc i) = failed_write tcs rs i
failed_write _ _ i = false

module _ {W : Type 0} (table : ℕ → ℕ) (timing : Timing W) (registry : Registry W) where
  -- The world after the calls of a list, all executed in order.
  abbrev pub after : List ToolCall → W → W
  after [] w = w
  after (tc ∷ tcs) w = after tcs (execute_single_tool table timing registry tc w).1

  -- The results are those of the first calls, executed in order. A call is left out exactly after
  -- a write that failed.
  pub record IsStoppedRun (calls : List ToolCall) (w : W) (results : List ToolResult) (w' : W)
      : Type 0 where
    pub at_most : length results ≤ length calls
    pub result_at :
        (i : ℕ) (tc : ToolCall)
        → i < length results
        → get_elem? calls i ≡ some tc
        → get_elem? results i
          ≡ some (execute_single_tool table timing registry tc (after (take i calls) w)).0
    pub goes_on : (i : ℕ) → suc i < length results → failed_write calls results i ≡ false
    pub stopped :
        (i : ℕ)
        → suc i ≡ length results
        → length results < length calls
        → failed_write calls results i ≡ true
    pub starts : length results ≡ 0 → length calls ≡ 0
    pub world : w' ≡ after (take (length results) calls) w

  last-IsStoppedRun :
      (tc : ToolCall) (tcs : List ToolCall) (w : W)
      → let (r, w') = execute_single_tool table timing registry tc w in
        stops tc r ≡ true → IsStoppedRun (tc ∷ tcs) w (r ∷ []) w'
  last-IsStoppedRun tc tcs w t = record {
    at_most = omega arith;
    result_at = λ i.
        elim i
          as (λ i.
            (tc' : ToolCall)
            → i < 1
            → get_elem? (tc ∷ tcs) i ≡ some tc'
            → get_elem? ((execute_single_tool table timing registry tc w).0 ∷ []) i
              ≡ some
                  (execute_single_tool table timing registry tc' (after (take i (tc ∷ tcs)) w)).0) [
                    | zero ↦ λ tc' h e. cc
                    | suc j ↦ λ tc' h e. absurd (omega arith)
                  ];
    goes_on = λ i h. absurd (omega arith);
    stopped = λ i.
        elim i
          as (λ i.
            suc i ≡ 1
            → 1 < suc (length tcs)
            → failed_write (tc ∷ tcs) ((execute_single_tool table timing registry tc w).0 ∷ []) i
              ≡ true) [ zero ↦ λ e h. t | suc j ↦ λ e h. absurd (omega arith) ];
    starts = λ e. absurd (omega arith);
    world = refl;
  }

  next-IsStoppedRun :
      (tc : ToolCall) (tcs : List ToolCall) (w : W) (rs : List ToolResult) (w' : W)
      → let (r, w₁) = execute_single_tool table timing registry tc w in
        stops tc r ≡ false → IsStoppedRun tcs w₁ rs w' → IsStoppedRun (tc ∷ tcs) w (r ∷ rs) w'
  next-IsStoppedRun tc tcs w rs w' f l = record {
    at_most = ground (arith, l.at_most);
    result_at = λ i.
        elim i
          as (λ i.
            (tc' : ToolCall)
            → i < suc (length rs)
            → get_elem? (tc ∷ tcs) i ≡ some tc'
            → get_elem? ((execute_single_tool table timing registry tc w).0 ∷ rs) i
              ≡ some
                  (execute_single_tool table timing registry tc' (after (take i (tc ∷ tcs)) w)).0) [
                    | zero ↦ λ tc' h e. cc
                    | suc j ↦ λ tc' h e. l.result_at j tc' (omega arith) e
                  ];
    goes_on = λ i.
        elim i
          as (λ i.
            suc i < suc (length rs)
            → failed_write (tc ∷ tcs) ((execute_single_tool table timing registry tc w).0 ∷ rs) i
              ≡ false) [ zero ↦ λ h. f | suc j ↦ λ h. l.goes_on j (omega arith) ];
    stopped = λ i.
        elim i
          as (λ i.
            suc i ≡ suc (length rs)
            → suc (length rs) < suc (length tcs)
            → failed_write (tc ∷ tcs) ((execute_single_tool table timing registry tc w).0 ∷ rs) i
              ≡ true) [
                | zero ↦ λ e h. absurd (let z = l.starts (omega arith) in omega arith)
                | suc j ↦ λ e h. l.stopped j (omega arith) (omega arith)
              ];
    starts = λ e. absurd (omega arith);
    world = l.world;
  }

  -- executeSequential executes the calls in order up to the first write tool that fails, and no
  -- call after it; without such a failure it executes all calls. Each result is the one of its call.
  pub execute_sequential-IsStoppedRun :
      (calls : List ToolCall) (w : W)
      → let (results, w') = execute_sequential table timing registry calls w in
        IsStoppedRun calls w results w'
  unfolding execute_sequential
  execute_sequential-IsStoppedRun [] w = record {
    at_most = omega arith;
    result_at = λ i tc h. absurd (omega arith);
    goes_on = λ i h. absurd (omega arith);
    stopped = λ i e h. absurd (omega arith);
    starts = λ e. refl;
    world = refl;
  }
  execute_sequential-IsStoppedRun (tc ∷ tcs) w =
      let done = execute_single_tool table timing registry tc w in
      elim (Bool-cases (stops tc done.0)) [
        | inl t ↦ rw (execute_sequential, t) (last-IsStoppedRun tc tcs w t)
        | inr f ↦
            rw (execute_sequential, f)
              (next-IsStoppedRun tc tcs w _ _ f (execute_sequential-IsStoppedRun tcs done.1))
      ]
