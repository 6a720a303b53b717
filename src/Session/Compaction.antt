-- ===== src/Session/Compaction.antt =====
-- internal/session/compaction.go. The error branch of Compact is left out: summarizeMessages
-- returns no error. The threshold of half the context window, 32768 * 0.5, is exact in float64.
pub mod Stale
pub mod Target
pub mod Effect
use vibe_local_go.Base.{
  ℕ, suc, ◌+◌, ◌-◌, String, Bool, ◌||◌, List, [], ◌∷◌, Option, none, some, leb, ltb, if◌then◌else◌,
  length, take, drop, ◌/◌,
}
use vibe_local_go.Token.{estimate_tokens}
use vibe_local_go.Session.{Session, Message, text_message, role_system, drop_counts, total_count}
use vibe_local_go.Session.Summary.{summarize_messages}

pub record CompactionResult : Type 0 where
  pub original_token_count : ℕ
  pub new_token_count : ℕ
  pub compacted_messages : ℕ
  pub remaining_messages : ℕ
  pub summary : String

abbrev pub compact_message_threshold : ℕ
compact_message_threshold = 100

abbrev pub get_context_window : ℕ
get_context_window = 32768

-- No call below leaves more messages than there were, so the truncated difference is exact.
abbrev result_of : ℕ → ℕ → String → Session → CompactionResult
result_of original_count original_messages summary s = record {
  original_token_count = original_count;
  new_token_count = s.token_estimate;
  compacted_messages = original_messages - length s.messages;
  remaining_messages = length s.messages;
  summary = summary;
}

abbrev pub keep_count : ℕ
keep_count = 30

-- total of msg.TokenCount
abbrev recount : Session → Session
recount s = record s { token_estimate = total_count s.messages }

-- `float64(tokenCount) > float64(contextWindow)*CompactThreshold || messages >= threshold`
unfoldable pub needs_compaction : Session → Bool
needs_compaction s =
    ltb (get_context_window / 2) s.token_estimate
    || leb compact_message_threshold (length s.messages)

module _ (order : List (String × ℕ) → List (String × ℕ)) where
  -- The summary of the messages that Compact removes.
  unfoldable pub summary_of : Session → String
  summary_of s =
      if ltb keep_count (length s.messages)
      then summarize_messages order (take (length s.messages - keep_count) s.messages)
      else ""

  unfoldable pub compact : Session → Session × CompactionResult
  unfolding total_count summary_of
  compact s =
      let summary = summary_of s in
      let n = length s.messages in
      let s' : Session =
        (if ltb keep_count n
          then record s {
            messages = text_message role_system summary ∷ drop (n - keep_count) s.messages;
            token_estimate = s.token_estimate + estimate_tokens summary;
          }
          else s) in
      (recount s', result_of s.token_estimate n summary (recount s'))

  unfoldable pub compact_if_needed : Session → Session × Option CompactionResult
  unfolding needs_compaction
  compact_if_needed s =
      if needs_compaction s then (let (s', r) = compact s in (s', some r)) else (s, none)

-- The loop of CompactToTarget on the messages and the estimate.
unfoldable pub shrink : ℕ → List Message → ℕ → List Message × ℕ
shrink target [] estimate = ([], estimate)
shrink target (m ∷ ms) estimate =
    let rest = shrink target ms (estimate - m.token_count) in
    if ltb target estimate then rest else (m ∷ ms, estimate)

unfoldable pub compact_to_target : ℕ → Session → Session × CompactionResult
unfolding shrink
compact_to_target target s =
    let (ms, estimate) = shrink target s.messages s.token_estimate in
    let s' : Session = record s { messages = ms; token_estimate = estimate } in
    (s', result_of s.token_estimate (length s.messages) "Compacted to target token count" s')
