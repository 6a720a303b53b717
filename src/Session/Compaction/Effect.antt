-- ===== src/Session/Compaction/Effect.antt =====
-- What Compact and CompactIfNeeded of internal/session/compaction.go do to a session.
use vibe_local_go.Base.{
  ℕ, ◌+◌, ◌-◌, ◌≤◌, ◌<◌, ◌≡◌, false, String, List, none, arith, ap, length, drop, length-drop,
}
use native.Mathlib.Decide.{dec_le}
use vibe_local_go.Session.{Session, total_count}
use vibe_local_go.Session.Compaction.{
  compact, compact_if_needed, needs_compaction, compact_message_threshold,
}

module _ (order : List (String × ℕ) → List (String × ℕ)) where
  -- Compact of more than 30 messages leaves a summary and the newest 30, reports how many messages
  -- fewer there are, and estimates the session at the counts of the 30: the summary counts for
  -- nothing. Compact of 30 messages or fewer leaves the messages as they are.
  pub compact_effect :
      (s : Session)
      → let n = length s.messages in
        let c = compact order s in
        (30 < n
          → (drop 1 c.0.messages ≡ drop (n - 30) s.messages)
            × (length c.0.messages ≡ 31)
            × (c.0.token_estimate ≡ total_count (drop (n - 30) s.messages))
            × (c.1.compacted_messages + 31 ≡ n))
        × (n ≤ 30 → (c.0.messages ≡ s.messages) × (c.1.compacted_messages ≡ 0))
  unfolding compact
  compact_effect s =
      (λ h. ground (arith, length-drop (length s.messages - 30) s.messages), λ h. ground arith)

  length-compact : (s : Session) → length (compact order s).0.messages ≤ 31
  length-compact s = elim (dec_le (length s.messages) 30) [
    | yes h ↦ omega (arith, ap length ((compact_effect s).1 h).0)
    | no h ↦ omega (arith, (compact_effect s).0 (omega arith))
  ]

  -- CompactIfNeeded leaves fewer than 100 messages; it reports nothing exactly where no compaction
  -- was needed, and then the session is unchanged.
  pub compact_if_needed_effect :
      (s : Session)
      → let c = compact_if_needed order s in
        (length c.0.messages < compact_message_threshold)
        × (needs_compaction s ≡ false → (c.1 ≡ none) × (c.0 ≡ s))
        × (c.1 ≡ none → needs_compaction s ≡ false)
  unfolding compact_if_needed
  compact_if_needed_effect s = ground (arith, length-compact s)
