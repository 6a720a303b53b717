-- ===== src/Chain/Stream.antt =====
-- internal/llm/chain.go: ChatStream, the call whose answer is a channel of events, and the goroutine
-- that passes the events on. A channel stands for the list of the events that arrive at it.
use vibe_local_go.Base.{
  ℕ, zero, suc, Bool, true, false, List, [], ◌∷◌, Option, none, some, not, if◌then◌else◌, length,
  get_elem?, is_empty,
}
use vibe_local_go.Fallback.{ErrorValue}
use vibe_local_go.Chain.{
  Outcome, ok, fail, ChainResult, answered, failed, no_providers, exhausted, provider_failed,
  all_failed, Attempt, done, retry, Runtime, ChainEntry, ProviderChain, record_success,
  record_failure, switch_to_next, should_fallback,
}

-- What arrives at the outer channel for the events of the inner one. `picks` says for each event
-- whether the select takes the branch of the context, which is ready once the context is done;
-- `stopped` is the event with the error of the context.
unfoldable pub wrap_stream_with_fallback : {E : Type 0} → E → List Bool → List E → List E
wrap_stream_with_fallback stopped picks [] = []
wrap_stream_with_fallback stopped [] (e ∷ es) = e ∷ wrap_stream_with_fallback stopped [] es
wrap_stream_with_fallback stopped (true ∷ picks) (e ∷ es) = stopped ∷ []
wrap_stream_with_fallback stopped (false ∷ picks) (e ∷ es) =
    e ∷ wrap_stream_with_fallback stopped picks es

-- Whether the chain has moved on: the next attempt, or the error of the last provider.
unfoldable pub stream_stop : {B : Type 0} → ErrorValue → Bool → Attempt B
stream_stop e true = retry
stream_stop e false = done (failed (all_failed e))

module _ {W R A E : Type 0} (rt : Runtime W) (stopped : E) (picks : List Bool) where
  unfoldable pub stream_fall_over :
      ErrorValue
      → ProviderChain W R A (List E)
      → W
      → Attempt (List E) × ProviderChain W R A (List E) × W
  unfolding record_failure switch_to_next stream_stop
  stream_fall_over e c w =
      let next = switch_to_next (record_failure (rt.now w) e c) in (stream_stop e next.1, next.0, w)

  unfoldable pub after_stream :
      ProviderChain W R A (List E)
      → Outcome (List E) × W
      → Attempt (List E) × ProviderChain W R A (List E) × W
  unfolding record_success should_fallback stream_fall_over wrap_stream_with_fallback
  after_stream c (ok events, w) =
      (done (answered (wrap_stream_with_fallback stopped picks events)), record_success c, w)
  after_stream c (fail e, w) =
      if should_fallback e c
      then stream_fall_over e c w
      else (done (failed (provider_failed e)), record c { last_error = some e }, w)

  -- One round of the loop of chatStreamWithFallback; `none` is its `break`.
  unfoldable pub attempt_stream :
      Option (ChainEntry W R A (List E))
      → ProviderChain W R A (List E)
      → R
      → W
      → Attempt (List E) × ProviderChain W R A (List E) × W
  unfolding after_stream
  attempt_stream none c req w = (done (failed exhausted), c, w)
  attempt_stream (some entry) c req w = after_stream c (entry.provider.chat_stream req w)

  unfoldable pub stream_from :
      ℕ
      → ProviderChain W R A (List E)
      → R
      → W
      → ChainResult (List E) × ProviderChain W R A (List E) × W
  unfolding attempt_stream
  stream_from zero c req w = (failed exhausted, c, w)
  stream_from (suc rounds) c req w =
      let a = attempt_stream (get_elem? c.entries c.current) c req w in
      elim a.0 [ done r ↦ (r, a.1, a.2) | retry ↦ stream_from rounds a.1 req a.2 ]

  unfoldable pub chat_stream_with_fallback :
      ProviderChain W R A (List E) → R → W → ChainResult (List E) × ProviderChain W R A (List E) × W
  unfolding stream_from
  chat_stream_with_fallback c req w = stream_from (length c.entries) c req w

  unfoldable pub stream_single :
      Option (ChainEntry W R A (List E))
      → ProviderChain W R A (List E)
      → R
      → W
      → ChainResult (List E) × ProviderChain W R A (List E) × W
  stream_single none c req w = (failed exhausted, c, w)
  stream_single (some entry) c req w =
      let out = entry.provider.chat_stream req w in
      (elim out.0 [ ok b ↦ answered b | fail e ↦ failed (provider_failed e) ], c, out.1)

  unfoldable pub chat_stream :
      ProviderChain W R A (List E) → R → W → ChainResult (List E) × ProviderChain W R A (List E) × W
  unfolding chat_stream_with_fallback stream_single
  chat_stream c req w =
      if is_empty c.entries
      then (failed no_providers, c, w)
      else if not c.fallback_on
      then stream_single (get_elem? c.entries c.current) c req w
      else chat_stream_with_fallback c req w
