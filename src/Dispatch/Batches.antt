-- ===== src/Dispatch/Batches.antt =====
-- The batches of GroupForParallelExecution, and ExecuteToolCalls on read-only calls.
use mathlib.Core.List.{Perm, perm_middle}
use mathlib.Core.List.Perm
use vibe_local_go.Base.{
  ℕ, zero, suc, ◌<◌, ◌≤◌, ◌≡◌, refl, sym, ap, subst, ◌⊎◌, inl, inr, String, Bool, true, false, not,
  List, [], ◌∷◌, ◌++◌, map, length, take, all, any, All, ◌==◌, arith, Bool-cases, eq_iff, is_empty,
  if◌then◌else◌,
}
use vibe_local_go.Session.{ToolCall}
use vibe_local_go.Tool.{Registry}
use vibe_local_go.Dispatch.{
  Timing, ToolResult, is_write_tool, is_read_only_tool, is_listed, can_execute_in_parallel,
  read_only_calls, write_calls, group_for_parallel_execution,
}
use vibe_local_go.Dispatch.Execution.{execute_sequential, execute_parallel, execute_tool_calls}
use vibe_local_go.Dispatch.Order.{
  IsStoppedRun, execute_sequential-IsStoppedRun, failed_write, after,
}
use vibe_local_go.Dispatch.Parallel.{AllAnswered, single-id, get-lt, execute_parallel-AllAnswered}

abbrev pub all_read_only : List ToolCall → Bool
all_read_only = all (λ tc. is_read_only_tool tc.function.name)

listed-not_read :
    (l : List String) (name : String)
    → all (λ t. not (is_read_only_tool t)) l ≡ true
    → is_listed name l ≡ true
    → is_read_only_tool name ≡ false
listed-not_read [] name h i = ground arith
listed-not_read (t ∷ l) name h i = ground (arith, eq_iff t name, listed-not_read l name)

-- No tool both reads only and writes.
read-not_write : (name : String) → is_read_only_tool name ≡ true → is_write_tool name ≡ false
unfolding is_read_only_tool is_write_tool
read-not_write name h = elim (Bool-cases (is_write_tool name)) [
  | inl t ↦ ground (arith, listed-not_read ("write_file" ∷ "edit_file" ∷ "bash" ∷ []) name refl t)
  | inr f ↦ f
]

read-no_failure :
    (calls : List ToolCall) (rs : List ToolResult) (i : ℕ)
    → all_read_only calls ≡ true
    → failed_write calls rs i ≡ false
read-no_failure [] rs i h = refl
read-no_failure (tc ∷ tcs) [] i h = refl
read-no_failure (tc ∷ tcs) (r ∷ rs) zero h = ground (arith, read-not_write tc.function.name)
read-no_failure (tc ∷ tcs) (r ∷ rs) (suc i) h = read-no_failure tcs rs i (ground (arith, h))

-- Every call once: the batches, one after the other.
abbrev pub flatten : List (List ToolCall) → List ToolCall
flatten [] = []
flatten (b ∷ bs) = b ++ flatten bs

partition-Perm : (calls : List ToolCall) → Perm (read_only_calls calls ++ write_calls calls) calls
unfolding read_only_calls write_calls
partition-Perm [] = Perm.nil
partition-Perm (tc ∷ tcs) = elim (Bool-cases (is_read_only_tool tc.function.name)) [
  | inl t ↦ rw t (Perm.cons tc (partition-Perm tcs))
  | inr f ↦ rw f (
      Perm.trans (perm_middle (read_only_calls tcs) (write_calls tcs))
        (Perm.cons tc (partition-Perm tcs)))
]

flatten-singles : (calls : List ToolCall) → flatten (map (λ op. op ∷ []) calls) ≡ calls
flatten-singles [] = refl
flatten-singles (tc ∷ tcs) = ap (λ l. tc ∷ l) (flatten-singles tcs)

-- A batch is one call, or read-only calls.
abbrev pub IsBatch : List ToolCall → Type 0
IsBatch b = (length b ≡ 1) ⊎ ((0 < length b) × (all_read_only b ≡ true))

read_only_calls-all : (calls : List ToolCall) → all_read_only (read_only_calls calls) ≡ true
unfolding read_only_calls
read_only_calls-all [] = refl
read_only_calls-all (tc ∷ tcs) =
    let t = read_only_calls-all tcs in
    elim (Bool-cases (is_read_only_tool tc.function.name)) [ inl r ↦ rw (r, r) t | inr r ↦ rw r t ]

singles-All : (calls : List ToolCall) → All IsBatch (map (λ op. op ∷ []) calls)
singles-All [] = tt
singles-All (tc ∷ tcs) = (inl refl, singles-All tcs)

-- The batches, of the read-only calls and of the others.
batches_lem :
    (reads writes : List ToolCall)
    → all_read_only reads ≡ true
    → let singles = map (λ op. op ∷ []) writes in
      let batches = (if is_empty reads then singles else reads ∷ singles) in
      (flatten batches ≡ reads ++ writes) × All IsBatch batches
batches_lem [] writes h = (flatten-singles writes, singles-All writes)
batches_lem (r ∷ rs) writes h =
    (ap (λ l. (r ∷ rs) ++ l) (flatten-singles writes), (inr (omega arith, h), singles-All writes))

-- GroupForParallelExecution keeps every call once: the read-only calls in their order, and after
-- them the other calls in theirs. A batch of more than one call holds read-only calls only, and no
-- batch is empty.
pub group-Perm :
    (calls : List ToolCall)
    → (flatten (group_for_parallel_execution calls) ≡ read_only_calls calls ++ write_calls calls)
      × Perm (flatten (group_for_parallel_execution calls)) calls
      × All IsBatch (group_for_parallel_execution calls)
unfolding group_for_parallel_execution
group-Perm calls =
    let made =
      batches_lem (read_only_calls calls) (write_calls calls) (read_only_calls-all calls) in
    (made.0, subst (λ l. Perm l calls) (sym made.0) (partition-Perm calls), made.1)

module _ {W : Type 0} (table : ℕ → ℕ) (timing : Timing W) (registry : Registry W) where
  -- Without a failed write a run is complete.
  stopped-length :
      (calls : List ToolCall) (w : W) (rs : List ToolResult) (w' : W)
      → all_read_only calls ≡ true
      → IsStoppedRun table timing registry calls w rs w'
      → length rs ≡ length calls
  stopped-length calls w [] w' h run = sym (run.starts refl)
  stopped-length calls w (r ∷ rs) w' h run = ground (
    arith,
    run.at_most,
    run.stopped (length rs) refl,
    read-no_failure calls (r ∷ rs) (length rs) h,
  )

  sequential-AllAnswered :
      (calls : List ToolCall) (w : W)
      → all_read_only calls ≡ true
      → AllAnswered calls (execute_sequential table timing registry calls w).0
  sequential-AllAnswered calls w h =
      let done = execute_sequential table timing registry calls w in
      let run = execute_sequential-IsStoppedRun table timing registry calls w in
      let full = stopped-length calls w done.0 done.1 h run in
      (
        full,
        λ i tc e. (
          _,
          run.result_at i tc (omega (arith, full, get-lt calls i tc e)) e,
          single-id table timing registry tc (after table timing registry (take i calls) w),
        ),
      )

  answered_lem :
      (order : List ℕ) (calls : List ToolCall) (w : W)
      → all_read_only calls ≡ true
      → ((i : ℕ) → i < length calls → any (λ k. k == i) order ≡ true)
      → AllAnswered calls (execute_tool_calls table timing registry order calls w).0
  unfolding execute_tool_calls
  answered_lem order [] w r h = (refl, λ i tc e. absurd (ground (arith, e)))
  answered_lem order (tc ∷ tcs) w r h = elim (Bool-cases (can_execute_in_parallel (tc ∷ tcs))) [
    | inl p ↦
        rw (execute_tool_calls, p)
          (execute_parallel-AllAnswered table timing registry order (tc ∷ tcs) w h)
    | inr s ↦ rw (execute_tool_calls, s) (sequential-AllAnswered (tc ∷ tcs) w r)
  ]

  many_lem :
      (order : List ℕ) (calls : List ToolCall) (w : W)
      → 10 < length calls
      → execute_tool_calls table timing registry order calls w
        ≡ execute_sequential table timing registry calls w
  unfolding execute_tool_calls can_execute_in_parallel
  many_lem order [] w h = absurd (omega (arith, h))
  many_lem order (tc ∷ tcs) w h =
      let no : can_execute_in_parallel (tc ∷ tcs) ≡ false = ground (arith, h) in
      rw (execute_tool_calls, no) refl

  few_lem :
      (order : List ℕ) (calls : List ToolCall) (w : W)
      → all_read_only calls ≡ true
      → 0 < length calls
      → length calls ≤ 10
      → execute_tool_calls table timing registry order calls w
        ≡ execute_parallel table timing registry order calls w
  unfolding execute_tool_calls can_execute_in_parallel
  few_lem order [] w r n h = absurd (omega (arith, n))
  few_lem order (tc ∷ tcs) w r n h =
      let yes : can_execute_in_parallel (tc ∷ tcs) ≡ true = ground (arith, r, h) in
      rw (execute_tool_calls, yes) refl

  -- ExecuteToolCalls answers every call of a list of read-only tools, each at its own index and
  -- under its own id, whether the tools succeed or fail. Up to ten run in parallel, in any order;
  -- more than ten run one after the other.
  pub read_only_calls_answered :
      (order : List ℕ) (calls : List ToolCall) (w : W)
      → all_read_only calls ≡ true
      → ((i : ℕ) → i < length calls → any (λ k. k == i) order ≡ true)
      → AllAnswered calls (execute_tool_calls table timing registry order calls w).0
        × (10 < length calls
            → execute_tool_calls table timing registry order calls w
              ≡ execute_sequential table timing registry calls w)
        × (0 < length calls
            → length calls ≤ 10
            → execute_tool_calls table timing registry order calls w
              ≡ execute_parallel table timing registry order calls w)
  read_only_calls_answered order calls w r h = (
    answered_lem order calls w r h,
    λ m. many_lem order calls w m,
    λ n m. few_lem order calls w r n m,
  )
