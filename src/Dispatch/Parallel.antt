-- ===== src/Dispatch/Parallel.antt =====
-- The results of executeParallel, in whatever order its goroutines run, and of ExecuteToolCalls on
-- calls of read-only tools.
use vibe_local_go.Base.{
  ℕ, zero, suc, ◌<◌, ◌≡◌, ◌≢◌, refl, sym, ap, ◌∙◌, ◌⊎◌, inl, inr, String, true, List, [], ◌∷◌, none,
  some, map, length, get_elem?, any, ◌==◌, ==_iff, arith, Bool-cases, Option-cases, length-map,
  if◌then◌else◌,
}
use vibe_local_go.Session.{ToolCall}
use vibe_local_go.Tool.{
  Registry, ToolConfig, get, ToolFailureStrategy, strategy_fatal, strategy_retry, strategy_skip,
  strategy_fallback,
}
use vibe_local_go.Dispatch.{Timing, ToolResult, Answer, good, bad, apply_failure_strategy}
use vibe_local_go.Dispatch.Execution.{
  attempts, result_of, execute_single_tool, set_at, run_parallel, execute_parallel, empty_result,
}

-- The results have one for the call at index i.
abbrev pub HasResult : List ToolResult → ℕ → ToolCall → Type 0
HasResult rs i tc = (r : ToolResult) × (get_elem? rs i ≡ some r) × (r.tool_call_id ≡ tc.id)

abbrev pub AllAnswered : List ToolCall → List ToolResult → Type 0
AllAnswered calls rs =
    (length rs ≡ length calls)
    × ((i : ℕ) (tc : ToolCall) → get_elem? calls i ≡ some tc → HasResult rs i tc)

strategy-id :
    (strategy : ToolFailureStrategy) (tc : ToolCall) (err : String)
    → (apply_failure_strategy strategy tc err).tool_call_id ≡ tc.id
unfolding apply_failure_strategy
strategy-id strategy_fatal tc err = refl
strategy-id strategy_retry tc err = refl
strategy-id strategy_skip tc err = refl
strategy-id strategy_fallback tc err = refl

result-id :
    {W : Type 0} (cfg : ToolConfig W) (tc : ToolCall) (a : Answer)
    → (result_of cfg tc a).tool_call_id ≡ tc.id
unfolding result_of
result-id cfg tc (good r) = refl
result-id cfg tc (bad err) = strategy-id cfg.failure_strategy tc err

pub get-lt : {A : Type 0} (xs : List A) (i : ℕ) (x : A) → get_elem? xs i ≡ some x → i < length xs
get-lt [] i x e = ground (arith, e)
get-lt (y ∷ xs) zero x e = omega arith
get-lt (y ∷ xs) (suc i) x e = omega (arith, get-lt xs i x e)

length-set_at : {A : Type 0} (i : ℕ) (x : A) (xs : List A) → length (set_at i x xs) ≡ length xs
length-set_at i x [] = refl
length-set_at zero x (y ∷ ys) = refl
length-set_at (suc i) x (y ∷ ys) = ap suc (length-set_at i x ys)

get-set_at :
    {A : Type 0} (i j : ℕ) (x : A) (xs : List A)
    → i < length xs
    → get_elem? (set_at j x xs) i ≡ (if j == i then some x else get_elem? xs i)
get-set_at i j x [] h = absurd (omega arith)
get-set_at zero zero x (y ∷ ys) h = refl
get-set_at (suc i) zero x (y ∷ ys) h = ground arith
get-set_at zero (suc j) x (y ∷ ys) h = ground arith
get-set_at (suc i) (suc j) x (y ∷ ys) h = ground (arith, get-set_at i j x ys)

-- A result that is stored for its own call disturbs no other result.
set_at-HasResult :
    (calls : List ToolCall) (rs : List ToolResult) (i j : ℕ) (tc tc' : ToolCall) (r : ToolResult)
    → length rs ≡ length calls
    → get_elem? calls i ≡ some tc
    → get_elem? calls j ≡ some tc'
    → r.tool_call_id ≡ tc'.id
    → (j ≡ i) ⊎ HasResult rs i tc
    → HasResult (set_at j r rs) i tc
set_at-HasResult calls rs i j tc tc' r l e e' id h =
    let lt : i < length rs = omega (arith, l, get-lt calls i tc e) in
    elim (Bool-cases (j == i)) [
      | inl t ↦ let p = (==_iff j i).0 t in (r, rw (get-set_at i j r rs lt, t) refl, same-id p)
      | inr f ↦ elim h [
        | inl p ↦ absurd (ground (arith, (==_iff j i).1 p))
        | inr (x, at, ok) ↦ (x, rw (get-set_at i j r rs lt, f) at, ok)
      ]
    ]
  where
    same-id : j ≡ i → r.tool_call_id ≡ tc.id
    same-id p = cc

some-not-none : {A : Type 0} (x : A) → some x ≢ none
some-not-none x h = ground (arith, h)

head-or-rest :
    (i j : ℕ) (order : List ℕ)
    → any (λ k. k == i) (j ∷ order) ≡ true
    → (j ≡ i) ⊎ (any (λ k. k == i) order ≡ true)
head-or-rest i j order h = elim (Bool-cases (j == i)) [
  | inl t ↦ inl ((==_iff j i).0 t)
  | inr f ↦ inr (rw f at h)
]

module _ {W : Type 0} (table : ℕ → ℕ) (timing : Timing W) (registry : Registry W) where
  pub single-id :
      (tc : ToolCall) (w : W)
      → (execute_single_tool table timing registry tc w).0.tool_call_id ≡ tc.id
  unfolding execute_single_tool
  single-id tc w = elim (Option-cases (get tc.function.name registry)) [
    | inl e ↦ rw (execute_single_tool, e) refl
    | inr (cfg, e) ↦
        rw (execute_single_tool, e)
          (result-id cfg tc (attempts table timing cfg.max_retries cfg tc.function.arguments w).0)
  ]

  run-answered :
      (order : List ℕ) (calls : List ToolCall) (rs : List ToolResult) (w : W) (i : ℕ)
      (tc : ToolCall)
      → length rs ≡ length calls
      → get_elem? calls i ≡ some tc
      → (any (λ j. j == i) order ≡ true) ⊎ HasResult rs i tc
      → HasResult (run_parallel table timing registry order calls rs w).0 i tc
  unfolding run_parallel
  run-answered [] calls rs w i tc l e (inl h) = absurd (ground arith)
  run-answered [] calls rs w i tc l e (inr h) = h
  run-answered (j ∷ order) calls rs w i tc l e h = elim (Option-cases (get_elem? calls j)) [
    | inl n ↦
        rw (run_parallel, n)
          (run-answered order calls rs w i tc l e (elim h [
            | inl t ↦ elim (head-or-rest i j order t) [
              | inl p ↦ absurd (some-not-none tc (sym e ∙ ap (get_elem? calls) (sym p) ∙ n))
              | inr t' ↦ inl t'
            ]
            | inr x ↦ inr x
          ]))
    | inr (tc', e') ↦
        let done = execute_single_tool table timing registry tc' w in
        let keep = set_at-HasResult calls rs i j tc tc' done.0 l e e' (single-id tc' w) in
        rw (run_parallel, e')
          (run-answered order calls (set_at j done.0 rs) done.1 i tc (length-set_at j done.0 rs ∙ l)
            e
            (elim h [
              | inl t ↦ elim (head-or-rest i j order t) [
                | inl p ↦ inr (keep (inl p))
                | inr t' ↦ inl t'
              ]
              | inr x ↦ inr (keep (inr x))
            ]))
  ]

  length-run :
      (order : List ℕ) (calls : List ToolCall) (rs : List ToolResult) (w : W)
      → length (run_parallel table timing registry order calls rs w).0 ≡ length rs
  unfolding run_parallel
  length-run [] calls rs w = refl
  length-run (j ∷ order) calls rs w = elim (Option-cases (get_elem? calls j)) [
    | inl n ↦ rw (run_parallel, n) (length-run order calls rs w)
    | inr (tc, e) ↦
        let done = execute_single_tool table timing registry tc w in
        rw (run_parallel, e)
          (length-run order calls (set_at j done.0 rs) done.1 ∙ length-set_at j done.0 rs)
  ]

  -- Whatever the order in which the goroutines of executeParallel run, each index once or more:
  -- every call has its result, at its own index.
  pub execute_parallel-AllAnswered :
      (order : List ℕ) (calls : List ToolCall) (w : W)
      → ((i : ℕ) → i < length calls → any (λ k. k == i) order ≡ true)
      → AllAnswered calls (execute_parallel table timing registry order calls w).0
  unfolding execute_parallel
  execute_parallel-AllAnswered order calls w h =
      let blank = map (λ tc. empty_result) calls in
      let l = length-map calls (λ (tc : ToolCall). empty_result) in
      (
        length-run order calls blank w ∙ l,
        λ i tc e. run-answered order calls blank w i tc l e (inl (h i (get-lt calls i tc e))),
      )
