-- ===== src/Router/Tests.antt =====
-- Calls of the router (internal/llm/routing.go), and its theorem at concrete calls.
use vibe_local_go.Base.{ℕ, zero, suc, ◌+◌, ◌≡◌, refl, true, false, [], ◌∷◌, none, some, contains}
use vibe_local_go.Router.{
  Provider, ModelRouter, auto_select_model, get_active_provider, get_model_tier, swap_model_hot,
}
use vibe_local_go.Router.Loading.{swap, call_all, call}

-- A provider that fails the first time it pulls a model; the world counts the pulls.
abbrev fails_once : Provider ℕ
fails_once = record {
  pull_model = some (λ model w. (elim w [ zero ↦ some "timeout" | suc n ↦ none ], w + 1));
}

abbrev router : ModelRouter ℕ
router = record {
  main_provider = some (record { pull_model = none });
  sidecar_provider = some fails_once;
  main_model = "qwen3:32b";
  sidecar_model = "qwen3:4b";
  use_sidecar = false;
  sidecar_loaded = false;
}

-- A sidecar model without a provider is selected, and the active provider is nil.
nil_provider :
    get_active_provider
      (auto_select_model "code_review" (record router { sidecar_provider = none }))
    ≡ none
unfolding get_active_provider auto_select_model
nil_provider = refl

-- A model of 14b has a lower tier than one of 8b.
tiers : get_model_tier "qwen3:14b" ∷ get_model_tier "qwen3:8b" ∷ [] ≡ "E" ∷ "D" ∷ []
unfolding get_model_tier contains
tiers = refl

loads_at_second :
    (call_all (swap true ∷ swap true ∷ []) router 0).0
    ≡ record router { use_sidecar = true; sidecar_loaded = true }
unfolding call_all call swap_model_hot
loads_at_second = refl
