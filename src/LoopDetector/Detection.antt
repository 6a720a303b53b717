-- ===== src/LoopDetector/Detection.antt =====
-- When DetectLoop and CheckForStuckLoop (internal/agent/loop_detector.go) report a loop.
use mathlib.Core.List.{reverse}
use vibe_local_go.Base.{
  ℕ, ◌+◌, ◌-◌, ◌≤◌, ◌≡◌, refl, ap, String, Bool, true, false, ◌&&◌, ◌||◌, List, [], ◌∷◌, Option,
  arith, leb, ltb, ◌==◌, if◌then◌else◌, str_eq, eq_iff, length, lookup, or_zero, nat_key, any, not,
  length-drop, ==_iff,
}
use vibe_local_go.LoopDetector.{
  LoopDetector, ToolCallRecord, new_loop_detector, hash_of, same_call, identical_newest,
  repeating_newest, has_identical_sequence, has_repeating_pattern, has_similar_bash_loop,
  detect_loop, max_same_tool_repeat,
}
use vibe_local_go.LoopDetector.History.{record_calls, count_hash, record_calls-new_Seen}

-- The newest call and the one two before it are the same.
abbrev pub newest_alternates : List ToolCallRecord → Bool
newest_alternates (last ∷ middle ∷ first ∷ _) =
    str_eq first.tool_name last.tool_name && str_eq first.arguments last.arguments
newest_alternates _ = false

repeating-eq-alternates : (l : List ToolCallRecord) → repeating_newest l ≡ newest_alternates l
repeating-eq-alternates [] = refl
repeating-eq-alternates (x ∷ []) = refl
repeating-eq-alternates (x ∷ y ∷ []) = refl
repeating-eq-alternates (x ∷ y ∷ z ∷ l) = ground arith

identical_alternates :
    (l : List ToolCallRecord) → identical_newest l ≡ true → newest_alternates l ≡ true
identical_alternates [] h = cc
identical_alternates (x ∷ []) h = cc
identical_alternates (x ∷ y ∷ []) h = cc
identical_alternates (x ∷ y ∷ z ∷ l) h = ground (
  arith,
  eq_iff x.tool_name z.tool_name,
  eq_iff z.tool_name x.tool_name,
  eq_iff x.arguments z.arguments,
  eq_iff z.arguments x.arguments,
)

ltb-not : (n : ℕ) → ltb n 3 ≡ not (leb 3 n)
ltb-not n = ground arith

-- The ladder of DetectLoop, over the values of its checks.
checks_eq :
    (short long count identical alternates repeating similar : Bool)
    → short ≡ not long
    → (identical ≡ true → alternates ≡ true)
    → repeating ≡ alternates
    → (if short
        then false
        else if count
        then true
        else if identical
        then true
        else if repeating
        then true
        else if similar
        then true
        else false)
      ≡ long && (count || alternates || similar)
checks_eq short long count identical alternates repeating similar s i r = ground arith

module _ (table : ℕ → ℕ) (decode : String → Option String) where
  -- A loop is reported exactly with at least three calls in the history, of which one was made three
  -- times since the last reset, or the newest is the one two before it, or four of the newest eight
  -- are test commands of bash. The checks for three equal calls in a row add nothing.
  detect_loop_eq :
      (ld : LoopDetector)
      → detect_loop table decode ld
        ≡ leb 3 (length ld.history)
          && (any (λ p. leb max_same_tool_repeat p.1) ld.hash_counts
              || newest_alternates (reverse ld.history)
              || has_similar_bash_loop table decode ld)
  unfolding detect_loop has_identical_sequence has_repeating_pattern
  detect_loop_eq ld =
      checks_eq (ltb (length ld.history) 3) (leb 3 (length ld.history))
        (any (λ p. leb max_same_tool_repeat p.1) ld.hash_counts)
        (identical_newest (reverse ld.history)) (newest_alternates (reverse ld.history))
        (repeating_newest (reverse ld.history)) (has_similar_bash_loop table decode ld)
        (ltb-not (length ld.history)) (identical_alternates (reverse ld.history))
        (repeating-eq-alternates (reverse ld.history))

-- How often the call `c` was made.
abbrev pub count_call : ToolCallRecord → List ToolCallRecord → ℕ
count_call c [] = 0
count_call c (d ∷ cs) = (if same_call d c then 1 else 0) + count_call c cs

same_hash : (c d : ToolCallRecord) → same_call d c ≡ true → (hash_of d == hash_of c) ≡ true
same_hash c d h =
    let tools : d.tool_name ≡ c.tool_name = (eq_iff d.tool_name c.tool_name).0 (ground arith) in
    let args : d.arguments ≡ c.arguments = (eq_iff d.arguments c.arguments).0 (ground arith) in
    (==_iff (hash_of d) (hash_of c)).1 (cc)

count_call-le_hash :
    (c : ToolCallRecord) (cs : List ToolCallRecord) → count_call c cs ≤ count_hash (hash_of c) cs
count_call-le_hash c [] = omega arith
count_call-le_hash c (d ∷ cs) = ground (arith, count_call-le_hash c cs, same_hash c d)

count_call-le_length : (c : ToolCallRecord) (cs : List ToolCallRecord) → count_call c cs ≤ length cs
count_call-le_length c [] = omega arith
count_call-le_length c (d ∷ cs) = ground (arith, count_call-le_length c cs)

any-count :
    (m : List (ℕ × ℕ)) (k : ℕ)
    → 3 ≤ or_zero (lookup k m)
    → any (λ p. leb max_same_tool_repeat p.1) m ≡ true
unfolding lookup
any-count [] k h = absurd (omega arith)
any-count ((j, n) ∷ m) k h = ground (arith, any-count m k)

module _ (table : ℕ → ℕ) (decode : String → Option String) where
  -- A call that was made three times since the last reset is reported as a loop, however many other
  -- calls lie between, also beyond the 20 calls of the history.
  pub detects_repeat :
      (cs : List ToolCallRecord) (c : ToolCallRecord)
      → 3 ≤ count_call c cs
      → detect_loop table decode (record_calls cs new_loop_detector) ≡ true
  detects_repeat cs c h =
      let s = record_calls-new_Seen cs in
      let ld = record_calls cs new_loop_detector in
      ground (
        arith,
        detect_loop_eq table decode ld,
        any-count ld.hash_counts (hash_of c),
        s.hashes (hash_of c),
        count_call-le_hash c cs,
        count_call-le_length c cs,
        ap length s.newest,
        length-drop (length cs - 20) cs,
      )
