-- ===== src/SubAgent/Turns.antt =====
-- How the loop of a sub-agent (internal/agent/subagent.go) ends.
use vibe_local_go.Base.{
  ℕ, zero, suc, ◌+◌, ◌≤◌, ◌≡◌, sym, ap, String, [], ◌∷◌, Option, none, some, arith, Bool-cases,
  Option-cases, inl, inr,
}
use vibe_local_go.Session.{add_user_message, get_messages_for_llm}
use vibe_local_go.LoopDetector.{detect_loop}
use vibe_local_go.Agent.Run.{Host, Response, response, response_error}
use vibe_local_go.SubAgent.{
  SubAgent, SubAgentResult, after_answer, call_model, get_filtered_schemas, sub_turn, sub_run_from,
  sub_run,
}

-- The turns of an end, where there is one.
abbrev HasTurns : ℕ → Option SubAgentResult → Type 0
HasTurns n o = (r : SubAgentResult) → o ≡ some r → r.turns ≡ n

abbrev turns_of : ℕ → Option SubAgentResult → ℕ
turns_of n none = n
turns_of n (some r) = r.turns

turns_eq :
    {x : Option SubAgentResult} {r : SubAgentResult} (n : ℕ) → x ≡ some r → r.turns ≡ turns_of n x
turns_eq n e = ap (turns_of n) (sym e)

module _ {W : Type 0} (host : Host W) where
  answer-turns :
      (turns : ℕ) (last : String) (r : Response) (w : W) (sa : SubAgent W)
      → HasTurns turns (after_answer host turns last (r, w) sa).0
  unfolding after_answer
  answer-turns turns last (response_error err) w sa x e = turns_eq turns e
  answer-turns turns last (response content []) w sa x e = turns_eq turns e
  answer-turns turns last (response content (tc ∷ tcs)) w sa x e = turns_eq turns e

  turn-turns :
      (turns : ℕ) (last : String) (sa : SubAgent W) (w : W)
      → HasTurns turns (sub_turn host turns last sa w).0
  unfolding sub_turn
  turn-turns turns last sa w =
      let (messages, session) = get_messages_for_llm sa.session in
      let asked = call_model host messages w in
      let sa' = (get_filtered_schemas host (record sa { session = session })).1 in
      elim (Bool-cases (detect_loop host.lower host.command_of sa.loop_detector)) [
        | inl t ↦ rw (sub_turn, t) (λ x e. turns_eq turns e)
        | inr f ↦ rw (sub_turn, f) (answer-turns turns last asked.0 asked.1 sa')
      ]

  run_from-turns :
      (left turns : ℕ) (last : String) (sa : SubAgent W) (w : W)
      → (sub_run_from host left turns last sa w).0.turns ≤ turns + left
  unfolding sub_run_from
  run_from-turns zero turns last sa w = omega arith
  run_from-turns (suc left) turns last sa w = elim (Option-cases (host.cancelled w)) [
    | inr s ↦ rw (sub_run_from, s.1) (omega arith)
    | inl n ↦
        let next = sub_turn host (suc turns) last sa w in
        elim (Option-cases next.0) [
          | inr s ↦
              let number = turn-turns (suc turns) last sa w s.0 s.1 in
              rw (sub_run_from, n, s.1) (omega (arith, number))
          | inl m ↦
              let rest = run_from-turns left (suc turns) next.1 next.2 next.3 in
              rw (sub_run_from, n, m) (omega (arith, rest))
        ]
  ]

  -- A sub-agent ends within its limit of turns.
  pub sub_run-turns :
      (task : String) (sa : SubAgent W) (w : W) → (sub_run host task sa w).0.turns ≤ sa.max_turns
  unfolding sub_run
  sub_run-turns task sa w = omega (
    arith,
    run_from-turns sa.max_turns 0 "" (record sa { session = add_user_message task sa.session }) w,
  )
