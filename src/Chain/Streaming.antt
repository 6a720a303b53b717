-- ===== src/Chain/Streaming.antt =====
-- ChatStream (internal/llm/chain.go) as a Chat without waiting and without notices.
use vibe_local_go.Base.{
  ℕ, zero, suc, ◌+◌, ◌≡◌, refl, ap, ◌∙◌, Bool, true, false, List, [], ◌∷◌, Option, none, some,
  length, get_elem?, is_empty, leb, arith, Bool-cases, inl, inr, map, length-map, if◌then◌else◌,
  not,
}
use vibe_local_go.Fallback.{ErrorValue, classify_error, get_retry_delay, is_positive}
use vibe_local_go.Chain.{
  Outcome, ok, fail, ChainResult, answered, failed, provider_failed, Attempt, done, retry, Runtime,
  ChainEntry, ProviderChain, record_success, record_failure, switch_to_next, should_fallback,
  get_failure_count, stop, notify, fall_over, after_chat, attempt_chat, chat_from,
  chat_with_fallback, single, chat,
}
use vibe_local_go.Chain.Stream.{
  wrap_stream_with_fallback, stream_stop, stream_fall_over, after_stream, attempt_stream,
  stream_from, chat_stream_with_fallback, stream_single, chat_stream,
}

abbrev pub silent : {W : Type 0} → Runtime W → Runtime W
silent rt = record { now = rt.now; sleep = λ d w. w }

stop-eq :
    {W R B : Type 0} (e : ErrorValue) (c : ProviderChain W R B B) (b : Bool)
    → stop {A = B} e (c, b) ≡ stream_stop e b
unfolding stop stream_stop
stop-eq e c true = refl
stop-eq e c false = refl

waits_eq :
    {W : Type 0} (moved positive : Bool) (w : W)
    → (if moved then (if positive then w else w) else (if positive then w else w)) ≡ w
waits_eq true true w = refl
waits_eq true false w = refl
waits_eq false true w = refl
waits_eq false false w = refl

-- What comes of an answer, and an error as it is.
abbrev pub map_outcome : {B C : Type 0} → (B → C) → Outcome B → Outcome C
map_outcome f (ok b) = ok (f b)
map_outcome f (fail e) = fail e

module _ {W R A B : Type 0} (f : B → B) where
  -- The providers whose answers are their channels, passed through `f`, and no callback.
  abbrev as_entry : ChainEntry W R A B → ChainEntry W R B B
  as_entry e = record {
    provider = record {
      name = e.provider.name;
      chat = λ req w. (let out = e.provider.chat_stream req w in (map_outcome f out.0, out.1));
      chat_stream = e.provider.chat_stream;
    };
    role = e.role;
    priority = e.priority;
  }

  abbrev pub as_chat : ProviderChain W R A B → ProviderChain W R B B
  as_chat c = record {
    entries = map as_entry c.entries;
    current = c.current;
    last_error = c.last_error;
    failure_count = c.failure_count;
    failure_time = c.failure_time;
    fallback_on = c.fallback_on;
    max_retries = c.max_retries;
    condition = c.condition;
    on_fallback = none;
  }

  abbrev as_attempt : Attempt B × ProviderChain W R A B × W → Attempt B × ProviderChain W R B B × W
  as_attempt (a, c, w) = (a, as_chat c, w)

  abbrev pub as_result :
      ChainResult B × ProviderChain W R A B × W → ChainResult B × ProviderChain W R B B × W
  as_result (r, c, w) = (r, as_chat c, w)

  abbrev as_entry? : Option (ChainEntry W R A B) → Option (ChainEntry W R B B)
  as_entry? none = none
  as_entry? (some e) = some (as_entry e)

  is_empty-map : (l : List (ChainEntry W R A B)) → is_empty (map as_entry l) ≡ is_empty l
  is_empty-map [] = refl
  is_empty-map (e ∷ l) = refl

  get-as_entry :
      (l : List (ChainEntry W R A B)) (i : ℕ)
      → get_elem? (map as_entry l) i ≡ as_entry? (get_elem? l i)
  get-as_entry [] i = refl
  get-as_entry (e ∷ l) zero = refl
  get-as_entry (e ∷ l) (suc i) = get-as_entry l i

  switch-as_chat :
      (c : ProviderChain W R A B)
      → switch_to_next (as_chat c) ≡ (as_chat (switch_to_next c).0, (switch_to_next c).1)
  unfolding switch_to_next
  switch-as_chat c =
      rw (length-map c.entries as_entry)
        (elim (Bool-cases (leb (length c.entries) 1)) [ inl t ↦ rw t refl | inr f ↦ rw f refl ])

  failure-as_chat :
      (time : ℕ) (e : ErrorValue) (c : ProviderChain W R A B)
      → record_failure time e (as_chat c) ≡ as_chat (record_failure time e c)
  unfolding record_failure get_failure_count
  failure-as_chat time e c = refl

-- The events of a channel that ChatStream returns, with fallback or without.
abbrev pub passed : {E : Type 0} → E → List Bool → Bool → List E → List E
passed stopped picks true events = wrap_stream_with_fallback stopped picks events
passed stopped picks false events = events

fallback_branch :
    {X Y : Type 0} (f : X → Y) (b : Bool) (x1 x2 : X) (y1 y2 : Y)
    → b ≡ true
    → y2 ≡ f x2
    → (if not b then y1 else y2) ≡ f (if not b then x1 else x2)
fallback_branch f true x1 x2 y1 y2 h p = p
fallback_branch f false x1 x2 y1 y2 h p = absurd (ground (arith, h))

single_branch :
    {X Y : Type 0} (f : X → Y) (b : Bool) (x1 x2 : X) (y1 y2 : Y)
    → b ≡ false
    → y1 ≡ f x1
    → (if not b then y1 else y2) ≡ f (if not b then x1 else x2)
single_branch f true x1 x2 y1 y2 h p = absurd (ground (arith, h))
single_branch f false x1 x2 y1 y2 h p = p

module _ {W R A E : Type 0} (rt : Runtime W) (stopped : E) (picks : List Bool) where
  fall_over-as :
      (k : ℕ) (e : ErrorValue) (entry : ChainEntry W R (List E) (List E))
      (c : ProviderChain W R A (List E)) (w : W)
      → fall_over (silent rt) k e entry (as_chat (passed stopped picks true) c) w
        ≡ as_attempt (passed stopped picks true) (stream_fall_over rt stopped picks e c w)
  unfolding fall_over stream_fall_over notify
  fall_over-as k e entry c w =
      let class = classify_error e in
      let positive = is_positive (get_retry_delay class k) in
      let waited = if positive then w else w in
      let n = switch_to_next (record_failure (rt.now w) e c) in
      let same =
        ap switch_to_next (failure-as_chat (passed stopped picks true) (rt.now w) e c)
        ∙ switch-as_chat (passed stopped picks true) (record_failure (rt.now w) e c) in
      let finish = λ (x : ProviderChain W R (List E) (List E) × Bool).
        (let r : Attempt (List E) × ProviderChain W R (List E) (List E) × W = (
          stop e x,
          x.0,
          (if x.1
              then notify x.0.on_fallback entry.provider.name (get_elem? x.0.entries x.0.current)
                  class waited
              else waited),
        ) in
          r) in
      ap finish same ∙ (λ i. (
        stop-eq e (as_chat (passed stopped picks true) n.0) n.1 i,
        as_chat (passed stopped picks true) n.0,
        waits_eq n.1 positive w i,
      ))

  after-as :
      (k : ℕ) (entry : ChainEntry W R (List E) (List E)) (c : ProviderChain W R A (List E))
      (out : Outcome (List E)) (w : W)
      → after_chat
          (silent rt)
          k
          entry
          (as_chat (passed stopped picks true) c)
          (map_outcome (passed stopped picks true) out, w)
        ≡ as_attempt (passed stopped picks true) (after_stream rt stopped picks c (out, w))
  unfolding after_chat after_stream record_success should_fallback
  after-as k entry c (ok b) w = refl
  after-as k entry c (fail e) w = elim (Bool-cases (should_fallback e c)) [
    | inl t ↦ rw t (fall_over-as k e entry c w)
    | inr f ↦ rw f refl
  ]

  attempt-as :
      (k : ℕ) (entry : Option (ChainEntry W R A (List E))) (c : ProviderChain W R A (List E))
      (req : R) (w : W)
      → attempt_chat
          (silent rt)
          k
          (as_entry? (passed stopped picks true) entry)
          (as_chat (passed stopped picks true) c)
          req
          w
        ≡ as_attempt (passed stopped picks true) (attempt_stream rt stopped picks entry c req w)
  unfolding attempt_chat attempt_stream
  attempt-as k none c req w = refl
  attempt-as k (some entry) c req w =
      let out = entry.provider.chat_stream req w in
      after-as k (as_entry (passed stopped picks true) entry) c out.0 out.1

  round-as :
      (rounds k : ℕ) (req : R) (a : Attempt (List E)) (c : ProviderChain W R A (List E)) (w : W)
      → (chat_from (silent rt) rounds (k + 1) (as_chat (passed stopped picks true) c) req w
          ≡ as_result (passed stopped picks true) (stream_from rt stopped picks rounds c req w))
      → let left : ChainResult (List E) × ProviderChain W R (List E) (List E) × W = (elim a [
        | done r ↦ (r, as_chat (passed stopped picks true) c, w)
        | retry ↦ chat_from (silent rt) rounds (k + 1) (as_chat (passed stopped picks true) c) req w
      ]) in
        let right : ChainResult (List E) × ProviderChain W R A (List E) × W = (elim a [
          | done r ↦ (r, c, w)
          | retry ↦ stream_from rt stopped picks rounds c req w
        ]) in
        left ≡ as_result (passed stopped picks true) right
  round-as rounds k req (done r) c w h = refl
  round-as rounds k req retry c w h = h

  stream_from-as :
      (rounds k : ℕ) (c : ProviderChain W R A (List E)) (req : R) (w : W)
      → chat_from (silent rt) rounds k (as_chat (passed stopped picks true) c) req w
        ≡ as_result (passed stopped picks true) (stream_from rt stopped picks rounds c req w)
  unfolding chat_from stream_from
  stream_from-as zero k c req w = refl
  stream_from-as (suc rounds) k c req w =
      let a = attempt_stream rt stopped picks (get_elem? c.entries c.current) c req w in
      let one : attempt_chat (silent rt) k
            (get_elem? (as_chat (passed stopped picks true) c).entries c.current)
            (as_chat (passed stopped picks true) c) req w
          ≡ as_attempt (passed stopped picks true) a =
        ap (λ o. attempt_chat (silent rt) k o (as_chat (passed stopped picks true) c) req w)
          (get-as_entry (passed stopped picks true) c.entries c.current)
        ∙ attempt-as k (get_elem? c.entries c.current) c req w in
      let step = λ (x : Attempt (List E) × ProviderChain W R (List E) (List E) × W).
        (let y : ChainResult (List E) × ProviderChain W R (List E) (List E) × W = (elim x.0 [
          | done r ↦ (r, x.1, x.2)
          | retry ↦ chat_from (silent rt) rounds (k + 1) x.1 req x.2
        ]) in
          y) in
      ap step one ∙ round-as rounds k req a.0 a.1 a.2 (stream_from-as rounds (k + 1) a.1 req a.2)

  single-as :
      (entry : Option (ChainEntry W R A (List E))) (c : ProviderChain W R A (List E)) (req : R)
      (w : W)
      → single
          (silent rt)
          (as_entry? (passed stopped picks false) entry)
          (as_chat (passed stopped picks false) c)
          req
          w
        ≡ as_result (passed stopped picks false) (stream_single rt stopped picks entry c req w)
  unfolding single stream_single
  single-as none c req w = refl
  single-as (some entry) c req w = let out = entry.provider.chat_stream req w in one out.0 out.1
    where
      one :
          (o : Outcome (List E)) (v : W)
          → (
            (elim (map_outcome (passed stopped picks false) o) [
              | ok a ↦ answered a
              | fail e ↦ failed (provider_failed e)
            ]),
            as_chat (passed stopped picks false) c,
            v,
          )
            ≡ as_result
                (passed stopped picks false)
                ((elim o [ ok a ↦ answered a | fail e ↦ failed (provider_failed e) ]), c, v)
      one (ok a) v = refl
      one (fail e) v = refl

  at_fallback :
      (b : Bool) (c : ProviderChain W R A (List E)) (req : R) (w : W)
      → c.fallback_on ≡ b
      → chat (silent rt) (as_chat (passed stopped picks b) c) req w
        ≡ as_result (passed stopped picks b) (chat_stream rt stopped picks c req w)
  unfolding chat chat_stream chat_with_fallback chat_stream_with_fallback
  at_fallback true c req w h = elim (Bool-cases (is_empty c.entries)) [
    | inl t ↦ rw (is_empty-map (passed stopped picks true) c.entries, t) refl
    | inr n ↦
        rw (is_empty-map (passed stopped picks true) c.entries, n)
          (fallback_branch (as_result (passed stopped picks true)) c.fallback_on _ _ _ _ h (
            ap (λ n. chat_from (silent rt) n 0 (as_chat (passed stopped picks true) c) req w)
              (length-map c.entries (as_entry (passed stopped picks true)))
            ∙ stream_from-as (length c.entries) 0 c req w))
  ]
  at_fallback false c req w h = elim (Bool-cases (is_empty c.entries)) [
    | inl t ↦ rw (is_empty-map (passed stopped picks false) c.entries, t) refl
    | inr n ↦
        rw (is_empty-map (passed stopped picks false) c.entries, n)
          (single_branch (as_result (passed stopped picks false)) c.fallback_on _ _ _ _ h (
            ap (λ o. single (silent rt) o (as_chat (passed stopped picks false) c) req w)
              (get-as_entry (passed stopped picks false) c.entries c.current)
            ∙ single-as (get_elem? c.entries c.current) c req w))
  ]

  -- ChatStream does what Chat does on the chain of the same providers, with their channels for answers,
  -- but that it does not wait between two attempts and tells nobody of a fallback: the same result, the
  -- same chain and the same world. The channel is that of the provider where fallback is off, and
  -- otherwise the outer one, to which the goroutine passes the events on until the context is done.
  pub chat_stream-chat :
      (c : ProviderChain W R A (List E)) (req : R) (w : W)
      → chat (silent rt) (as_chat (passed stopped picks c.fallback_on) c) req w
        ≡ as_result (passed stopped picks c.fallback_on) (chat_stream rt stopped picks c req w)
  chat_stream-chat c req w = at_fallback c.fallback_on c req w refl
