-- ===== src/Fallback.antt =====
-- internal/llm/fallback_condition.go: the classes of provider errors, and what a chain of providers
-- does on each.
pub mod Delay
pub mod Decision
mod Tests
use vibe_local_go.Base.{
  ℕ, ◌+◌, ◌*◌, ◌%◌, ◌^◌, String, Bool, true, false, not, ◌&&◌, ◌||◌, Option, none, some, leb, ltb,
  if◌then◌else◌, contains, has_prefix, concat, [], ◌∷◌,
}

-- A Go error as far as the code looks at it: its text, whether errors.Is finds
-- context.DeadlineExceeded in it, and whether errors.As finds a net.Error in it.
pub record ErrorValue : Type 0 where
  pub text : String
  pub deadline_exceeded : Bool
  pub net_error : Bool

pub record FallbackCondition : Type 0 where
  pub on_network_error : Bool
  pub on_timeout : Bool
  pub on_server_error : Bool
  pub on_context_window : Bool
  pub on_rate_limit : Bool
  pub max_retries : ℕ
  pub retry_delay : ℕ  -- nanoseconds

abbrev pub millisecond : ℕ
millisecond = 1_000_000

abbrev pub second : ℕ
second = 1_000_000_000

abbrev pub default_fallback_condition : FallbackCondition
default_fallback_condition = record {
  on_network_error = true;
  on_timeout = true;
  on_server_error = true;
  on_context_window = true;
  on_rate_limit = false;
  max_retries = 3;
  retry_delay = 500 * millisecond;
}

pub data ErrorClassification : Type 0 where
  network timeout server_error client_error context_window rate_limit unknown : ErrorClassification

is_timeout : ErrorValue → Bool
unfolding contains
is_timeout e = e.deadline_exceeded || (contains e.text "timeout" || contains e.text "deadline")

is_network : ErrorValue → Bool
unfolding contains
is_network e =
    e.net_error
    || (contains e.text "connection refused"
        || contains e.text "no such host"
        || contains e.text "network is unreachable")

is_context_window : String → Bool
unfolding contains
is_context_window s =
    (contains s "context length exceeds"
      || contains s "context length exceeded"
      || contains s "token limit"
      || contains s "context too large"
      || contains s "maximum context length")
    || contains s "possible context length exceeded"
    || (contains s "unexpected end of JSON input" && contains s "failed to parse")
    || contains s "empty response from LLM"

is_rate_limit : String → Bool
unfolding contains
is_rate_limit s = contains s "rate limit" || contains s "too many requests" || contains s "quota"

-- The class of an error that is not nil.
unfoldable pub classify_error : ErrorValue → ErrorClassification
unfolding is_timeout is_network is_context_window is_rate_limit has_prefix
classify_error e =
    if is_timeout e
    then timeout
    else if is_network e
    then network
    else if is_context_window e.text
    then context_window
    else if is_rate_limit e.text
    then rate_limit
    else if has_prefix e.text "HTTP 5"
    then server_error
    else if has_prefix e.text "HTTP 4"
    then client_error
    else unknown

abbrev allows : ErrorClassification → FallbackCondition → Bool
allows network c = c.on_network_error
allows timeout c = c.on_timeout
allows server_error c = c.on_server_error
allows context_window c = c.on_context_window
allows rate_limit c = c.on_rate_limit
allows _ c = false

unfoldable pub evaluate_fallback : Option ErrorValue → FallbackCondition → Bool
evaluate_fallback none c = false
evaluate_fallback (some e) c = allows (classify_error e) c

-- time.Duration is an int64, here its bit pattern: a sum or product wraps at 2^64, and a pattern
-- from 2^63 on is negative.
abbrev pub int64 : ℕ → ℕ
int64 n = n % 2 ^ 64

abbrev pub is_positive : ℕ → Bool
is_positive d = ltb 0 d && ltb d (2 ^ 63)

-- a > b on int64 patterns, for a b that is not negative
abbrev pub exceeds : ℕ → ℕ → Bool
exceeds a b = ltb b a && ltb a (2 ^ 63)

unfoldable pub get_retry_delay : ErrorClassification → ℕ → ℕ
get_retry_delay timeout attempt = int64 (int64 (attempt + 1) * (500 * millisecond))
get_retry_delay rate_limit attempt =
    let delay = int64 (second * int64 (2 ^ attempt)) in
    if exceeds delay (30 * second) then 30 * second else delay
get_retry_delay network attempt = int64 (200 * millisecond * int64 (attempt + 1))
get_retry_delay _ attempt = 0

is_context_class : ErrorClassification → Bool
is_context_class context_window = true
is_context_class _ = false

unfoldable pub should_auto_switch_model : ErrorValue → ℕ → ℕ → Bool
unfolding is_context_class
should_auto_switch_model e current_window alternative_window =
    is_context_class (classify_error e) && ltb current_window alternative_window

unfoldable pub error_message : ErrorClassification → String → String → String
error_message network current next =
    concat ("⚠ " ∷ current ∷ " に接続できません → " ∷ next ∷ " にフォールバック" ∷ [])
error_message timeout current next =
    concat ("⏱ " ∷ current ∷ " がタイムアウト → " ∷ next ∷ " にフォールバック" ∷ [])
error_message server_error current next =
    concat ("🔴 " ∷ current ∷ " がエラー状態 → " ∷ next ∷ " にフォールバック" ∷ [])
error_message rate_limit current next = concat ("⏳ " ∷ current ∷ " がレート制限 → リトライします" ∷ [])
error_message context_window current next =
    concat ("📚 " ∷ current ∷ " のコンテキストが不足 → " ∷ next ∷ " にフォールバック" ∷ [])
error_message _ current next = concat ("❓ " ∷ current ∷ " でエラー → " ∷ next ∷ " にフォールバック" ∷ [])
