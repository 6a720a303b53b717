-- ===== src/Session/Compaction/Target.antt =====
-- The loop of CompactToTarget (internal/session/compaction.go).
use vibe_local_go.Base.{
  ℕ, zero, suc, ◌-◌, ◌≤◌, ◌<◌, ◌≡◌, ◌⊎◌, refl, List, [], ◌∷◌, arith, ltb, drop, take, Bool-cases,
  inl, inr, ltb→lt,
}
use vibe_local_go.Session.{Session, Message, drop_counts}
use vibe_local_go.Session.Compaction.{shrink, compact_to_target}

-- `ms'` is `ms` without the fewest oldest messages that bring the estimate to the target, or
-- without any message.
pub record IsLeastCut (target estimate : ℕ) (ms ms' : List Message) (estimate' : ℕ) : Type 0 where
  pub dropped : ℕ
  pub rest : ms' ≡ drop dropped ms
  pub counted : estimate' ≡ drop_counts estimate (take dropped ms)
  pub needed : (j : ℕ) → j < dropped → target < drop_counts estimate (take j ms)
  pub reached : (estimate' ≤ target) ⊎ (ms' ≡ [])

none-IsLeastCut :
    (target estimate : ℕ) (ms : List Message)
    → (estimate ≤ target) ⊎ (ms ≡ [])
    → IsLeastCut target estimate ms ms estimate
unfolding drop_counts
none-IsLeastCut target estimate ms h = record {
  dropped = 0;
  rest = refl;
  counted = refl;
  needed = λ j l. absurd (omega arith);
  reached = h;
}

needed_cons :
    (target estimate : ℕ) (m : Message) (ms : List Message) (k : ℕ)
    → target < estimate
    → ((j : ℕ) → j < k → target < drop_counts (estimate - m.token_count) (take j ms))
    → (j : ℕ) → j < suc k
    → target < drop_counts estimate (take j (m ∷ ms))
unfolding drop_counts
needed_cons target estimate m ms k h ih zero l = h
needed_cons target estimate m ms k h ih (suc j) l = ih j (omega arith)

cons-IsLeastCut :
    (target estimate : ℕ) (m : Message) (ms ms' : List Message) (estimate' : ℕ)
    → target < estimate
    → IsLeastCut target (estimate - m.token_count) ms ms' estimate'
    → IsLeastCut target estimate (m ∷ ms) ms' estimate'
unfolding drop_counts
cons-IsLeastCut target estimate m ms ms' estimate' h c = record {
  dropped = suc c.dropped;
  rest = c.rest;
  counted = c.counted;
  needed = needed_cons target estimate m ms c.dropped h c.needed;
  reached = c.reached;
}

shrink-IsLeastCut :
    (target : ℕ) (ms : List Message) (estimate : ℕ)
    → IsLeastCut target estimate ms (shrink target ms estimate).0 (shrink target ms estimate).1
unfolding shrink
shrink-IsLeastCut target [] estimate = none-IsLeastCut target estimate [] (inr refl)
shrink-IsLeastCut target (m ∷ ms) estimate = elim (Bool-cases (ltb target estimate)) [
  | inl e ↦ rw e (
      cons-IsLeastCut target estimate m ms (shrink target ms (estimate - m.token_count)).0
        (shrink target ms (estimate - m.token_count)).1 (ltb→lt target estimate e)
        (shrink-IsLeastCut target ms (estimate - m.token_count)))
  | inr e ↦ rw e (none-IsLeastCut target estimate (m ∷ ms) (inl (ground arith)))
]

-- CompactToTarget ends with an estimate of at most the target or with no message left. It drops the
-- oldest messages, and not one more than the target asks for.
pub compact_to_target-IsLeastCut :
    (target : ℕ) (s : Session)
    → let s' = (compact_to_target target s).0 in
      IsLeastCut target s.token_estimate s.messages s'.messages s'.token_estimate
unfolding compact_to_target
compact_to_target-IsLeastCut target s = shrink-IsLeastCut target s.messages s.token_estimate
