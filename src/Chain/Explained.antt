-- ===== src/Chain/Explained.antt =====
-- What a call of Chat with fallback returns (internal/llm/chain.go), in terms of the answers of the
-- providers.
use vibe_local_go.Base.{
  Option, none, ◌==◌, if◌then◌else◌, ◌≤◌, ℕ, zero, suc, ◌+◌, ◌<◌, ◌≡◌, refl, Bool, true, false,
  some, arith, length, get_elem?, get_elem?-some, ap, Bool-cases, inl, inr,
}
use vibe_local_go.Fallback.{ErrorValue}
use vibe_local_go.Chain.{
  get_failure_count, Runtime, ChainEntry, ProviderChain, Outcome, ok, fail, ChainResult, answered,
  failed, no_providers, exhausted, provider_failed, all_failed, Attempt, done, retry,
  record_success, record_failure, switch_to_next, should_fallback, chat_from, chat_with_fallback,
  attempt_chat, after_chat, fall_over, stop,
}
use vibe_local_go.Chain.Rotation.{position-lt}
use vibe_local_go.Chain.Attempts.{count-success, Tried, none-Tried, next-Tried}

-- A chain after the call of a provider that answered: that provider has no failures.
pub record Succeeded {W R A B : Type 0} (c c' : ProviderChain W R A B) : Type 0 where
  pub same_current : c'.current ≡ c.current
  pub same_entries : c'.entries ≡ c.entries
  pub no_error : c'.last_error ≡ none
  pub zeroed :
      (j : ℕ) → get_failure_count c' j ≡ (if c.current == j then 0 else get_failure_count c j)

module _ {W R A B : Type 0} (rt : Runtime W) (c₀ : ProviderChain W R A B) (req : R) (w₀ : W) where
  -- The chain and the world behind `k` rounds: in each the current provider was asked, failed with an
  -- error on which the condition falls back, and the chain moved on.
  pub data FellBack : ℕ → ProviderChain W R A B → W → Type 0 where
    no_round : FellBack 0 c₀ w₀
    next_round :
        (k : ℕ) (c : ProviderChain W R A B) (w : W) (entry : ChainEntry W R A B) (e : ErrorValue)
        (w' : W)
        → FellBack k c w
        → get_elem? c.entries c.current ≡ some entry
        → entry.provider.chat req w ≡ (fail e, w')
        → should_fallback e c ≡ true
        → FellBack
            (k + 1)
            (switch_to_next (record_failure (rt.now w') e c)).0
            (fall_over rt k e entry c w').2

  -- Behind some `k` providers that were asked and failed, the next one gave the outcome `out`, in a
  -- world where the call then ended.
  pub record Asked (c : ProviderChain W R A B) (out : Outcome A) (w' : W) : Type 0 where
    pub k : ℕ
    pub before : k < length c₀.entries
    pub tried : Tried c₀ c k
    pub entry : ChainEntry W R A B
    pub found : get_elem? c.entries c.current ≡ some entry
    pub world : W
    pub rounds : FellBack k c world
    pub reply : entry.provider.chat req world ≡ (out, w')

  -- Why a call returned `r`, and left the chain `c'` and the world `w'`.
  abbrev pub Explains : ChainResult A → ProviderChain W R A B → W → Type 0
  Explains (answered a) c' w' = (c : ProviderChain W R A B) × Asked c (ok a) w' × Succeeded c c'
  Explains (failed (provider_failed e)) c' w' =
      (c : ProviderChain W R A B) × Asked c (fail e) w'
      × (should_fallback e c ≡ false)
      × (c' ≡ record c { last_error = some e })
  Explains (failed exhausted) c' w' =
      Tried c₀ c' (length c₀.entries) × FellBack (length c₀.entries) c' w'
  Explains (failed no_providers) c' w' = ⊥
  Explains (failed (all_failed e)) c' w' = ⊥

  abbrev After : ℕ → Attempt A × ProviderChain W R A B × W → Type 0
  After k (done r, c', w') = Explains r c' w'
  After k (retry, c', w') = Tried c₀ c' (k + 1) × FellBack (k + 1) c' w'

  stop_moves :
      (e : ErrorValue) (next : ProviderChain W R A B × Bool)
      → next.1 ≡ true
      → stop {A = A} e next ≡ retry
  unfolding stop
  stop_moves e (c, true) h = refl
  stop_moves e (c, false) h = cc

  module _ (two : 1 < length c₀.entries) (valid : c₀.current < length c₀.entries) where
    fall_over_lem :
        (k : ℕ) (e : ErrorValue) (entry : ChainEntry W R A B) (c : ProviderChain W R A B) (v w : W)
        → k < length c₀.entries
        → Tried c₀ c k
        → FellBack k c v
        → get_elem? c.entries c.current ≡ some entry
        → entry.provider.chat req v ≡ (fail e, w)
        → should_fallback e c ≡ true
        → After k (fall_over rt k e entry c w)
    unfolding fall_over
    fall_over_lem k e entry c v w more t b f p h =
        let next = next-Tried (rt.now w) e c₀ c k two valid more t in
        rw (stop_moves e (switch_to_next (record_failure (rt.now w) e c)) next.1)
          (next.0, next_round k c v entry e w b f p h)

    after_chat_lem :
        (k : ℕ) (entry : ChainEntry W R A B) (c : ProviderChain W R A B) (w : W) (out : Outcome A)
        (w' : W)
        → k < length c₀.entries
        → Tried c₀ c k
        → FellBack k c w
        → get_elem? c.entries c.current ≡ some entry
        → entry.provider.chat req w ≡ (out, w')
        → After k (after_chat rt k entry c (out, w'))
    unfolding after_chat record_success
    after_chat_lem k entry c w (ok a) w' more t b f p = (
      c,
      record {
        k = k;
        before = more;
        tried = t;
        entry = entry;
        found = f;
        world = w;
        rounds = b;
        reply = p;
      },
      record {
        same_current = refl;
        same_entries = refl;
        no_error = refl;
        zeroed = count-success c;
      },
    )
    after_chat_lem k entry c w (fail e) w' more t b f p = elim (Bool-cases (should_fallback e c)) [
      | inl h ↦ rw h (fall_over_lem k e entry c w w' more t b f p h)
      | inr h ↦ rw h (
        c,
        record {
          k = k;
          before = more;
          tried = t;
          entry = entry;
          found = f;
          world = w;
          rounds = b;
          reply = p;
        },
        h,
        refl,
      )
    ]

    entry_at :
        (c : ProviderChain W R A B) (k : ℕ)
        → k < length c₀.entries
        → Tried c₀ c k
        → (entry : ChainEntry W R A B) × (get_elem? c.entries c.current ≡ some entry)
    entry_at c k more t = get_elem?-some c.entries c.current (
        omega (arith, ap length t.entries, t.current, position-lt (length c₀.entries) c₀.current k))

    attempt_lem :
        (k : ℕ) (c : ProviderChain W R A B) (w : W)
        → k < length c₀.entries
        → Tried c₀ c k
        → FellBack k c w
        → After k (attempt_chat rt k (get_elem? c.entries c.current) c req w)
    unfolding attempt_chat
    attempt_lem k c w more t b =
        let (entry, f) = entry_at c k more t in
        let out = entry.provider.chat req w in
        rw f (after_chat_lem k entry c w out.0 out.1 more t b f refl)

    round_lem :
        (rounds k : ℕ) (a : Attempt A) (c : ProviderChain W R A B) (w : W)
        → After k (a, c, w)
        → (Tried c₀ c (k + 1) × FellBack (k + 1) c w
            → let (r, c', w') = chat_from rt rounds (k + 1) c req w in Explains r c' w')
        → let (r, c', w') : ChainResult A × ProviderChain W R A B × W = (elim a [
          | done r ↦ (r, c, w)
          | retry ↦ chat_from rt rounds (k + 1) c req w
        ]) in
          Explains r c' w'
    round_lem rounds k (done r) c w h rest = h
    round_lem rounds k retry c w h rest = rest h

    chat_from_lem :
        (rounds k : ℕ) (c : ProviderChain W R A B) (w : W)
        → k + rounds ≡ length c₀.entries
        → Tried c₀ c k
        → FellBack k c w
        → let (r, c', w') = chat_from rt rounds k c req w in Explains r c' w'
    unfolding chat_from
    chat_from_lem zero k c w h t b = let e : k ≡ length c₀.entries = omega arith in rw (← e) (t, b)
    chat_from_lem (suc rounds) k c w h t b =
        let a = attempt_chat rt k (get_elem? c.entries c.current) c req w in
        round_lem rounds k a.0 a.1 a.2 (attempt_lem k c w (omega arith) t b)
          (λ u. chat_from_lem rounds (k + 1) a.1 a.2 (omega arith) u.0 u.1)

    -- On a chain of at least two providers Chat with fallback ends in one of three ways. All providers
    -- between the current one and some other, going round, were asked and failed once each, with
    -- errors on which the condition falls back. Then the call answers what that other provider
    -- answered, which is current then, with its failures reset and no last error; or it returns the
    -- error of that provider, on which the condition does not fall back. Or it reports that the
    -- providers are exhausted, when each was asked and failed so and the first is current again. It
    -- never reports the last error of all providers.
    pub chat_explained : let (r, c', w') = chat_with_fallback rt c₀ req w₀ in Explains r c' w'
    unfolding chat_with_fallback
    chat_explained =
        chat_from_lem (length c₀.entries) 0 c₀ w₀ (omega arith) (none-Tried c₀ valid) no_round

    same_counts :
        (c : ProviderChain W R A B) (o : Option ErrorValue) (j : ℕ) {n : ℕ}
        → get_failure_count c j ≤ n
        → get_failure_count (record c { last_error = o }) j ≤ n
    unfolding get_failure_count
    same_counts c o j h = h

    Tried-bound :
        (c : ProviderChain W R A B) (k j : ℕ)
        → j < length c₀.entries
        → Tried c₀ c k
        → get_failure_count c j ≤ get_failure_count c₀ j + 1
    Tried-bound c k j l t = ground (arith, t.counts j l)

    counts_bound :
        (r : ChainResult A) (c' : ProviderChain W R A B) (w' : W) (j : ℕ)
        → j < length c₀.entries
        → Explains r c' w'
        → get_failure_count c' j ≤ get_failure_count c₀ j + 1
    counts_bound (answered a) c' w' j l (c, asked, s) =
        ground (arith, s.zeroed j, Tried-bound c asked.k j l asked.tried)
    counts_bound (failed (provider_failed e)) c' w' j l (c, asked, h, p) =
        rw p (same_counts c (some e) j (Tried-bound c asked.k j l asked.tried))
    counts_bound (failed exhausted) c' w' j l (t, b) = Tried-bound c' (length c₀.entries) j l t
    counts_bound (failed no_providers) c' w' j l h = absurd h
    counts_bound (failed (all_failed e)) c' w' j l h = absurd h

    -- A call asks no provider twice: no failure count grows by more than one.
    pub chat_asks_once :
        (j : ℕ)
        → j < length c₀.entries
        → get_failure_count (chat_with_fallback rt c₀ req w₀).1 j ≤ get_failure_count c₀ j + 1
    chat_asks_once j l =
        let a = chat_with_fallback rt c₀ req w₀ in counts_bound a.0 a.1 a.2 j l chat_explained
