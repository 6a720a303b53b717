-- ===== src/Agent/Ends.antt =====
-- How Run of internal/agent/agent.go ends.
use vibe_local_go.Base.{
  true, false, ℕ, zero, suc, ◌+◌, ◌<◌, ◌≡◌, refl, sym, ap, ◌∙◌, ◌⊎◌, inl, inr, String, Option, ltb,
  none, some, arith, Option-cases,
}
use vibe_local_go.Agent.{Agent}
use vibe_local_go.Agent.Run.{
  Host, RunEnd, finished, max_iterations, iterate, run_from, run, started,
}

module _ {W : Type 0} (host : Host W) where
  -- A number of turns in a row that do not end the loop, from the turn behind `i` on.
  pub data IsGoingOn : ℕ → ℕ → Agent W → W → Agent W → W → Type 0 where
    no_turn : {i : ℕ} {a : Agent W} {w : W} → IsGoingOn i 0 a w a w
    turn :
        {i n : ℕ} {a b c : Agent W} {w u v : W}
        → iterate host (i + 1) a w ≡ (none, b, u)
        → IsGoingOn (i + 1) n b u c v
        → IsGoingOn i (suc n) a w c v

  -- `n` turns go on from here, and then the loop ends: behind the last turn it may make, or in the
  -- turn after them.
  pub record IsEnded (left i : ℕ) (a : Agent W) (w : W) (out : Option RunEnd × Agent W × W)
      : Type 0 where
    pub turns : ℕ
    pub b : Agent W
    pub u : W
    pub on : IsGoingOn i turns a w b u
    pub ended :
        ((turns ≡ left) × (out ≡ (some finished, b, u)))
        ⊎ ((turns < left)
            × ((end : RunEnd) × (out.0 ≡ some end))
            × (iterate host (i + turns + 1) b u ≡ out))

  -- The fuel is one more than the turns left.
  run_from-IsEnded :
      (left i : ℕ) (a : Agent W) (w : W)
      → i + left ≡ max_iterations
      → IsEnded left i a w (run_from host (suc left) i a w)
  unfolding run_from
  run_from-IsEnded zero i a w h =
      let stop : ltb i max_iterations ≡ false = ground (arith, h) in
      record { turns = 0; b = a; u = w; on = no_turn; ended = inl (refl, rw (run_from, stop) refl) }
  run_from-IsEnded (suc left) i a w h =
      let go : ltb i max_iterations ≡ true = ground (arith, h) in
      let next = iterate host (i + 1) a w in
      elim (Option-cases next.0) [
        | inl e ↦
            let rest = run_from-IsEnded left (i + 1) next.1 next.2 (omega arith) in
            let same : run_from host (suc (suc left)) i a w
                ≡ run_from host (suc left) (i + 1) next.1 next.2 =
              rw (run_from, go, e) refl in
            let number : i + 1 + rest.turns + 1 ≡ i + suc rest.turns + 1 = omega arith in
            record {
              turns = suc rest.turns;
              b = rest.b;
              u = rest.u;
              on = turn (ap (λ o. (o, next.1, next.2)) e) rest.on;
              ended = elim rest.ended [
                | inl (n, o) ↦ inl (omega (arith, n), same ∙ o)
                | inr (n, (end, f), o) ↦ inr (
                  omega (arith, n),
                  (end, ap (λ r. r.0) same ∙ f),
                  ap (λ k. iterate host k rest.b rest.u) (sym number) ∙ o ∙ sym same,
                )
              ];
            }
        | inr s ↦
            let out : run_from host (suc (suc left)) i a w ≡ (some s.0, next.1, next.2) =
              rw (run_from, go, s.1) refl in
            let number : i + 0 + 1 ≡ i + 1 = omega arith in
            record {
              turns = 0;
              b = a;
              u = w;
              on = no_turn;
              ended = inr (
                omega arith,
                (s.0, ap (λ r. r.0) out),
                ap (λ k. iterate host k a w) number ∙ ap (λ o. (o, next.1, next.2)) s.1 ∙ sym out,
              );
            }
      ]

  -- Run ends after at most 30 turns, and the fuel is enough: some turns go on, one after the other, and
  -- the loop ends behind the 30th with nil, or in the turn that follows them with what that turn
  -- returns.
  pub run-IsEnded :
      (input : String) (a : Agent W) (w : W)
      → IsEnded max_iterations 0 (started host input a) w (run host input a w)
  unfolding run
  run-IsEnded input a w = run_from-IsEnded max_iterations 0 (started host input a) w refl
