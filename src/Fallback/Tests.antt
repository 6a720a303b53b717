-- ===== src/Fallback/Tests.antt =====
-- Runs of the classification of errors (internal/llm/fallback_condition.go), and its theorems at
-- concrete errors.
use vibe_local_go.Base.{◌≡◌, refl, false, String}
use vibe_local_go.Fallback.{
  ErrorValue, network, timeout, context_window, rate_limit, server_error, unknown, classify_error,
}

abbrev plain : String → ErrorValue
plain text = record { text = text; deadline_exceeded = false; net_error = false }

classified :
    (classify_error (plain "HTTP 503") ≡ server_error)
    × (classify_error (plain "HTTP 504: gateway timeout") ≡ timeout)
    × (classify_error (plain "HTTP 429: quota") ≡ rate_limit)
    × (classify_error (plain "dial: connection refused") ≡ network)
    × (classify_error (plain "maximum context length is 8192") ≡ context_window)
    × (classify_error (plain "no idea") ≡ unknown)
unfolding classify_error
classified = (refl, refl, refl, refl, refl, refl)
