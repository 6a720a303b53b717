-- ===== src/Chain/Tests.antt =====
-- Runs of a chain of two providers (internal/llm/chain.go), and the theorems about it there.
use vibe_local_go.Base.{ℕ, ◌+◌, ◌≡◌, refl, String, true, false, List, [], ◌∷◌, arith}
use vibe_local_go.Fallback.{ErrorValue, classify_error, evaluate_fallback, get_retry_delay}
use vibe_local_go.Chain.{
  Runtime, Provider, ProviderChain, Outcome, ok, fail, answered, failed, exhausted, provider_failed,
  new_provider_chain, chat_with_fallback, chat, get_failure_count, should_fallback, record_success,
  record_failure, switch_to_next,
}
use vibe_local_go.Chain.Stream.{chat_stream, wrap_stream_with_fallback}
use vibe_local_go.Chain.Streaming.{
  as_chat, as_result, silent, passed, map_outcome, chat_stream-chat,
}
use vibe_local_go.Chain.Explained.{Explains, chat_explained}

-- A world that counts what happens in it.
abbrev ticking : Runtime ℕ
ticking = record { now = λ w. w; sleep = λ d w. w + d }

abbrev refused : ErrorValue
refused = record { text = "connection refused"; deadline_exceeded = false; net_error = true }

abbrev rejected : ErrorValue
rejected = record { text = "HTTP 401"; deadline_exceeded = false; net_error = false }

abbrev provider : String → Outcome ℕ → Provider ℕ String ℕ (List ℕ)
provider name out = record {
  name = name;
  chat = λ req w. (out, w + 1);
  chat_stream = λ req w. (map_outcome (λ n. (n ∷ 8 ∷ [])) out, w + 1);
}

abbrev chain_of : Outcome ℕ → Outcome ℕ → ProviderChain ℕ String ℕ (List ℕ)
chain_of a b = new_provider_chain (provider "local" a ∷ provider "cloud" b ∷ [])

second_answers :
    let (r, c, w) = chat ticking (chain_of (fail refused) (ok 7)) "q" 0 in
    (r ≡ answered 7) × (c.current ≡ 1) × (get_failure_count c 0 ≡ 1) × (w ≡ 200_000_002)
unfolding chat new_provider_chain get_failure_count classify_error evaluate_fallback get_retry_delay
    should_fallback record_success record_failure switch_to_next
second_answers = (refl, refl, refl, refl)

both_fail :
    let (r, c, w) = chat ticking (chain_of (fail refused) (fail refused)) "q" 0 in
    (r ≡ failed exhausted) × (c.current ≡ 0)
unfolding chat new_provider_chain get_failure_count classify_error evaluate_fallback get_retry_delay
    should_fallback record_success record_failure switch_to_next
both_fail = (refl, refl)

first_is_final :
    (chat ticking (chain_of (fail rejected) (ok 7)) "q" 0).0 ≡ failed (provider_failed rejected)
unfolding chat new_provider_chain classify_error evaluate_fallback should_fallback
first_is_final = refl

chat_explained_example :
    let c₀ = chain_of (fail refused) (ok 7) in
    let (r, c', w') = chat_with_fallback ticking c₀ "q" 0 in Explains ticking c₀ "q" 0 r c' w'
unfolding new_provider_chain
chat_explained_example =
    chat_explained ticking (chain_of (fail refused) (ok 7)) "q" 0 (omega arith) (omega arith)

-- A stream does not wait after the failure of the first provider.
second_streams :
    let (r, c, w) =
      chat_stream ticking 0 (false ∷ true ∷ []) (chain_of (fail refused) (ok 7)) "q" 0 in
    (r ≡ answered (7 ∷ 0 ∷ [])) × (c.current ≡ 1) × (get_failure_count c 0 ≡ 1) × (w ≡ 2)
unfolding chat_stream wrap_stream_with_fallback new_provider_chain get_failure_count classify_error
    evaluate_fallback should_fallback record_success record_failure switch_to_next
second_streams = (refl, refl, refl, refl)

stops_stream :
    wrap_stream_with_fallback {E = ℕ} 9 (false ∷ false ∷ true ∷ []) (1 ∷ 2 ∷ 3 ∷ [])
    ≡ 1 ∷ 2 ∷ 9 ∷ []
unfolding wrap_stream_with_fallback
stops_stream = refl

chat_stream-chat_example :
    let c = chain_of (fail refused) (ok 7) in
    chat (silent ticking) (as_chat (passed 0 (true ∷ []) true) c) "q" 0
    ≡ as_result (passed 0 (true ∷ []) true) (chat_stream ticking 0 (true ∷ []) c "q" 0)
unfolding new_provider_chain
chat_stream-chat_example =
    chat_stream-chat ticking 0 (true ∷ []) (chain_of (fail refused) (ok 7)) "q" 0
