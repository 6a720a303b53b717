-- ===== src/Fallback/Decision.antt =====
-- Which errors make a chain fall back (internal/llm/fallback_condition.go).
use vibe_local_go.Base.{ℕ, ◌<◌, ◌≡◌, ◌⊎◌, ◌↔◌, refl, true, false, none, some, arith}
use vibe_local_go.Fallback.{
  ErrorValue, FallbackCondition, ErrorClassification, network, timeout, server_error,
  context_window, classify_error, evaluate_fallback, should_auto_switch_model,
  default_fallback_condition, allows,
}

abbrev pub Falls : ErrorClassification → Type 0
Falls c = (c ≡ network) ⊎ (c ≡ timeout) ⊎ (c ≡ server_error) ⊎ (c ≡ context_window)

Falls-class : (c : ErrorClassification) → allows c default_fallback_condition ≡ true → Falls c
Falls-class c h = ground arith

class-Falls : (c : ErrorClassification) → Falls c → allows c default_fallback_condition ≡ true
class-Falls c h = ground arith

-- Under the default condition a chain falls back exactly on network errors, timeouts, server errors
-- and exceeded context windows; and nil is no error to fall back on, under any condition.
pub default_fallback_iff :
    (e : ErrorValue)
    → ((evaluate_fallback (some e) default_fallback_condition ≡ true) ↔ Falls (classify_error e))
      × ((c : FallbackCondition) → evaluate_fallback none c ≡ false)
unfolding evaluate_fallback
default_fallback_iff e =
    ((Falls-class (classify_error e), class-Falls (classify_error e)), λ c. refl)

-- The model is switched exactly for an exceeded context window and a larger alternative, and every
-- error that asks for a switch makes a chain with `on_context_window` fall back.
pub auto_switch_falls_back :
    (e : ErrorValue) (c : FallbackCondition) (current alternative : ℕ)
    → c.on_context_window ≡ true
    → should_auto_switch_model e current alternative ≡ true
    → (current < alternative) × (evaluate_fallback (some e) c ≡ true)
unfolding should_auto_switch_model evaluate_fallback
auto_switch_falls_back e c current alternative h s = ground arith
