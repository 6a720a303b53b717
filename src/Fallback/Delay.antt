-- ===== src/Fallback/Delay.antt =====
-- The waiting times of GetRetryDelay (internal/llm/fallback_condition.go).
use vibe_local_go.Base.{
  ℕ, zero, suc, ◌+◌, ◌*◌, ◌^◌, ◌<◌, ◌≡◌, refl, Bool, true, false, ◌&&◌, arith, min, ◌==◌, ==_iff,
}
use vibe_local_go.Fallback.{
  timeout, rate_limit, network, get_retry_delay, millisecond, second, is_positive,
}

-- 2^k seconds, and at most 30 seconds, for all k below a bound.
is_exact : ℕ → Bool
is_exact k = get_retry_delay rate_limit k == min (2 ^ k * second) (30 * second)

exact_until : ℕ → Bool
unfolding is_exact
exact_until zero = true
exact_until (suc n) = exact_until n && is_exact n

is_exact-below : (k bound : ℕ) → k < bound → exact_until bound ≡ true → is_exact k ≡ true
unfolding exact_until
is_exact-below k zero h t = absurd (omega arith)
is_exact-below k (suc n) h t = ground (arith, is_exact-below k n)

exact_until_34 : exact_until 34 ≡ true
unfolding exact_until get_retry_delay
exact_until_34 = refl

-- Up to attempt 33 the delay on a rate limit is 2^attempt seconds, and at most 30 seconds; up to
-- attempt 10^9 the delays on a timeout and on a network error are the multiples of 500 and 200
-- milliseconds: none of them overflows.
get_retry_delay_exact :
    (attempt : ℕ)
    → (attempt < 34 → get_retry_delay rate_limit attempt ≡ min (2 ^ attempt * second) (30 * second))
      × (attempt < 1_000_000_000
          → (get_retry_delay timeout attempt ≡ (attempt + 1) * (500 * millisecond))
            × (get_retry_delay network attempt ≡ (attempt + 1) * (200 * millisecond)))
unfolding get_retry_delay is_exact
get_retry_delay_exact k =
    (λ h. (==_iff _ _).0 (is_exact-below k 34 h exact_until_34), λ h. (omega arith, omega arith))

-- At attempt 34 the product overflows to a negative duration, which the limit of 30 s lets pass.
rate_limit_34 : is_positive (get_retry_delay rate_limit 34) ≡ false
unfolding get_retry_delay
rate_limit_34 = refl
