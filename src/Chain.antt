-- ===== src/Chain.antt =====
-- internal/llm/chain.go: a chain of providers that falls back from one to the next. One call runs
-- at a time: what SwitchTo does in another goroutine between two attempts is not modelled. `W` is
-- the state of the world, which a provider's answer may depend on and change.
pub mod Rotation
pub mod Attempts
pub mod Explained
pub mod Stream
pub mod Streaming
mod Tests
use vibe_local_go.Base.{
  ℕ, zero, suc, ◌+◌, ◌-◌, ◌%◌, String, Bool, true, false, List, [], ◌∷◌, ◌++◌, Option, none, some,
  not, ltb, leb, ◌==◌, if◌then◌else◌, length, get_elem?, lookup, insert, or_zero, nat_key, concat,
  is_empty,
}
use vibe_local_go.Fallback.{
  ErrorValue, ErrorClassification, FallbackCondition, default_fallback_condition, classify_error,
  evaluate_fallback, get_retry_delay, is_positive,
}

pub data ChainRole : Type 0 where
  main sub fallback : ChainRole

-- What a call returns: a value, or an error.
pub data Outcome (A : Type 0) : Type 0 where
  ok : A → Outcome A
  fail : ErrorValue → Outcome A

-- The errors of a chain's calls; the text of each is `error_value`.
pub data ChainError : Type 0 where
  no_providers exhausted : ChainError
  provider_failed all_failed : ErrorValue → ChainError

pub data ChainResult (A : Type 0) : Type 0 where
  answered : A → ChainResult A
  failed : ChainError → ChainResult A

unfoldable pub error_value : ChainError → ErrorValue
error_value no_providers = record {
  text = "no providers in chain";
  deadline_exceeded = false;
  net_error = false;
}
error_value exhausted = record {
  text = "all providers exhausted";
  deadline_exceeded = false;
  net_error = false;
}
error_value (provider_failed e) = e
error_value (all_failed e) = record e {
  text = concat ("all providers failed, last error: " ∷ e.text ∷ []);
}

-- The clock and the sleep of the runtime.
pub record Runtime (W : Type 0) : Type 0 where
  pub now : W → ℕ
  pub sleep : ℕ → W → W

-- LLMProvider: the methods that a chain calls. `R` is a request, `A` a response and `B` a channel
-- of events.
pub record Provider (W R A B : Type 0) : Type 0 where
  pub name : String  -- Info().Name
  pub chat : R → W → Outcome A × W
  pub chat_stream : R → W → Outcome B × W

pub record ChainEntry (W R A B : Type 0) : Type 0 where
  pub provider : Provider W R A B
  pub role : ChainRole
  pub priority : ℕ

pub record ProviderChain (W R A B : Type 0) : Type 0 where
  pub entries : List (ChainEntry W R A B)
  pub current : ℕ
  pub last_error : Option ErrorValue
  pub failure_count : List (ℕ × ℕ)
  pub failure_time : List (ℕ × ℕ)
  pub fallback_on : Bool
  pub max_retries : ℕ
  pub condition : FallbackCondition
  pub on_fallback : Option (String → String → ErrorClassification → W → W)

-- How an attempt of the loop ends: the call returns, or the next provider is tried.
pub data Attempt (A : Type 0) : Type 0 where
  done : ChainResult A → Attempt A
  retry : Attempt A

role_at : ℕ → ChainRole
role_at zero = main
role_at (suc zero) = sub
role_at _ = fallback

module _ {W R A B : Type 0} where
  entries_from : ℕ → List (Provider W R A B) → List (ChainEntry W R A B)
  unfolding role_at
  entries_from i [] = []
  entries_from i (p ∷ ps) =
      record { provider = p; role = role_at i; priority = i } ∷ entries_from (suc i) ps

  unfoldable pub new_provider_chain : List (Provider W R A B) → ProviderChain W R A B
  unfolding entries_from
  new_provider_chain providers = record {
    entries = entries_from 0 providers;
    current = 0;
    last_error = none;
    failure_count = [];
    failure_time = [];
    fallback_on = ltb 1 (length providers);
    max_retries = 3;
    condition = default_fallback_condition;
    on_fallback = none;
  }

  unfoldable pub add_provider :
      Provider W R A B → ChainRole → ProviderChain W R A B → ProviderChain W R A B
  add_provider p role c =
      let entries' =
        c.entries ++ record { provider = p; role = role; priority = length c.entries } ∷ [] in
      record c {
        entries = entries';
        fallback_on = (if ltb 1 (length entries') then true else c.fallback_on);
      }

  unfoldable pub enable_fallback : Bool → ProviderChain W R A B → ProviderChain W R A B
  enable_fallback enabled c = record c { fallback_on = enabled }

  -- The Boolean says whether the index was accepted. A negative index has no counterpart here.
  unfoldable pub switch_to : ℕ → ProviderChain W R A B → ProviderChain W R A B × Bool
  switch_to index c =
      if leb (length c.entries) index then (c, false) else (record c { current = index }, true)

  unfoldable pub get_failure_count : ProviderChain W R A B → ℕ → ℕ
  unfolding lookup
  get_failure_count c index = or_zero (lookup index c.failure_count)

  unfoldable pub switch_to_next : ProviderChain W R A B → ProviderChain W R A B × Bool
  switch_to_next c =
      let n = length c.entries in
      let next = (c.current + 1) % n in
      if leb n 1 then (c, false) else (record c { current = next }, not (next == c.current))

  -- failureCount[current] = 0, lastError = nil
  unfoldable pub record_success : ProviderChain W R A B → ProviderChain W R A B
  unfolding insert
  record_success c = record c {
    failure_count = insert c.current 0 c.failure_count;
    last_error = none;
  }

  -- failureCount[current]++, failureTime[current] = now, lastError = err
  unfoldable pub record_failure : ℕ → ErrorValue → ProviderChain W R A B → ProviderChain W R A B
  unfolding get_failure_count insert
  record_failure time e c = record c {
    failure_count = insert c.current (get_failure_count c c.current + 1) c.failure_count;
    failure_time = insert c.current time c.failure_time;
    last_error = some e;
  }

  unfoldable pub should_fallback : ErrorValue → ProviderChain W R A B → Bool
  should_fallback e c = evaluate_fallback (some e) c.condition

  -- The callback, with the names of the provider that failed and of the current one.
  notify :
      Option (String → String → ErrorClassification → W → W)
      → String
      → Option (ChainEntry W R A B)
      → ErrorClassification
      → W
      → W
  notify (some cb) from (some to) class w = cb from to.provider.name class w
  notify _ from to class w = w

  -- Neither loop answers with an error of its own but these.
  stop : ErrorValue → ProviderChain W R A B × Bool → Attempt A
  stop e (c, true) = retry
  stop e (c, false) = done (failed (all_failed e))

  module _ (rt : Runtime W) where
    -- From the failure on: count it, wait, switch, notify.
    pub fall_over :
        ℕ
        → ErrorValue
        → ChainEntry W R A B
        → ProviderChain W R A B
        → W
        → Attempt A × ProviderChain W R A B × W
    unfolding record_failure switch_to_next notify stop
    fall_over attempt e entry c w =
        let class = classify_error e in
        let delay = get_retry_delay class attempt in
        let w' = (if is_positive delay then rt.sleep delay w else w) in
        let next = switch_to_next (record_failure (rt.now w) e c) in
        let c' = next.0 in
        (
          stop e next,
          c',
          (if next.1
              then notify c'.on_fallback entry.provider.name (get_elem? c'.entries c'.current) class
                  w'
              else w'),
        )

    after_chat :
        ℕ
        → ChainEntry W R A B
        → ProviderChain W R A B
        → Outcome A × W
        → Attempt A × ProviderChain W R A B × W
    unfolding record_success should_fallback fall_over
    after_chat attempt entry c (ok a, w) = (done (answered a), record_success c, w)
    after_chat attempt entry c (fail e, w) =
        if should_fallback e c
        then fall_over attempt e entry c w
        else (done (failed (provider_failed e)), record c { last_error = some e }, w)

    -- One round of the loop of chatWithFallback; `none` is its `break`.
    attempt_chat :
        ℕ
        → Option (ChainEntry W R A B)
        → ProviderChain W R A B
        → R
        → W
        → Attempt A × ProviderChain W R A B × W
    unfolding after_chat
    attempt_chat attempt none c req w = (done (failed exhausted), c, w)
    attempt_chat attempt (some entry) c req w =
        after_chat attempt entry c (entry.provider.chat req w)

    -- `rounds` is len(c.entries) - attempt.
    chat_from : ℕ → ℕ → ProviderChain W R A B → R → W → ChainResult A × ProviderChain W R A B × W
    unfolding attempt_chat
    chat_from zero attempt c req w = (failed exhausted, c, w)
    chat_from (suc rounds) attempt c req w =
        let a = attempt_chat attempt (get_elem? c.entries c.current) c req w in
        elim a.0 [ done r ↦ (r, a.1, a.2) | retry ↦ chat_from rounds (attempt + 1) a.1 req a.2 ]

    unfoldable pub chat_with_fallback :
        ProviderChain W R A B → R → W → ChainResult A × ProviderChain W R A B × W
    unfolding chat_from
    chat_with_fallback c req w = chat_from (length c.entries) 0 c req w

    -- The answer of the one provider, as it is. An index out of range, which Go would panic at, does
    -- not occur in a valid chain.
    single :
        Option (ChainEntry W R A B)
        → ProviderChain W R A B
        → R
        → W
        → ChainResult A × ProviderChain W R A B × W
    single none c req w = (failed exhausted, c, w)
    single (some entry) c req w =
        let out = entry.provider.chat req w in
        (elim out.0 [ ok a ↦ answered a | fail e ↦ failed (provider_failed e) ], c, out.1)

    unfoldable pub chat : ProviderChain W R A B → R → W → ChainResult A × ProviderChain W R A B × W
    unfolding chat_with_fallback single
    chat c req w =
        if is_empty c.entries
        then (failed no_providers, c, w)
        else if not c.fallback_on
        then single (get_elem? c.entries c.current) c req w
        else chat_with_fallback c req w
