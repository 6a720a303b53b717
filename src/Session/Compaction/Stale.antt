-- ===== src/Session/Compaction/Stale.antt =====
-- Compact of internal/session/compaction.go leaves the cache of GetMessagesForLLM as it is.
use vibe_local_go.Base.{
  ℕ, suc, ◌+◌, ◌<◌, ◌≡◌, ◌≢◌, refl, ap, false, String, List, [], ◌∷◌, some, arith, length,
  length-append,
}
use vibe_local_go.Session.{
  Session, Message, LlmMessage, rebuild, render_messages, render_prompt, get_messages_for_llm,
}
use vibe_local_go.Session.Compaction.{compact}
use vibe_local_go.Session.Compaction.Effect.{compact_effect}

length-render : (ms : List Message) → length (render_messages ms) ≡ length ms
unfolding render_messages
length-render [] = refl
length-render (m ∷ ms) = ap suc (length-render ms)

length-rebuild :
    (s : Session) → length (rebuild s) ≡ length (render_prompt s.system_prompt) + length s.messages
unfolding rebuild
length-rebuild s = omega (
  arith,
  length-append (render_prompt s.system_prompt) (render_messages s.messages),
  length-render s.messages,
)

get_cached :
    (s : Session) (l : List LlmMessage)
    → s.llm_cache_dirty ≡ false
    → s.cached_llm_messages ≡ some l
    → (get_messages_for_llm s).0 ≡ l
unfolding get_messages_for_llm
get_cached s l d c = ground arith

module _ (order : List (String × ℕ) → List (String × ℕ)) where
  compact_fields :
      (s : Session)
      → let c = (compact order s).0 in
        (c.llm_cache_dirty ≡ s.llm_cache_dirty)
        × (c.cached_llm_messages ≡ s.cached_llm_messages)
        × (c.system_prompt ≡ s.system_prompt)
  unfolding compact
  compact_fields s = ground arith

  -- If the messages were served to the model and more than 31 are held, then after Compact
  -- GetMessagesForLLM returns the messages of before the compaction, and they are not the
  -- session's messages any more.
  pub compact_stale :
      (s : Session)
      → s.llm_cache_dirty ≡ false
      → s.cached_llm_messages ≡ some (rebuild s)
      → 31 < length s.messages
      → ((get_messages_for_llm (compact order s).0).0 ≡ rebuild s)
        × (rebuild s ≢ rebuild (compact order s).0)
  compact_stale s d c h = (
    get_cached (compact order s).0 (rebuild s) (rw ((compact_fields s).0) d)
        (rw ((compact_fields s).1) c),
    λ e. omega (
      arith,
      ap length e,
      length-rebuild s,
      length-rebuild (compact order s).0,
      (compact_effect order s).0 (omega arith),
      ap (λ p. length (render_prompt p)) (compact_fields s).2,
    ),
  )
