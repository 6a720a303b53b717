-- ===== src/Chain/Attempts.antt =====
-- The rounds of chatWithFallback (internal/llm/chain.go): which providers have been asked after k
-- of them.
use vibe_local_go.Base.{
  ℕ, ◌+◌, ◌%◌, ◌<◌, ◌≡◌, refl, true, false, List, arith, ltb, leb, ◌==◌, length, if◌then◌else◌,
  lookup, insert, lookup-insert, or_zero, nat_key, ap, ◌∙◌, Bool-cases, inl, inr, ==_iff,
}
use vibe_local_go.Fallback.{ErrorValue}
use vibe_local_go.Chain.{
  ProviderChain, get_failure_count, record_success, record_failure, switch_to_next,
}
use vibe_local_go.Chain.Rotation.{
  position, distance, position-lt, position_next, mod_next, distance-position, position-distance,
}

count_of_insert :
    (k j v : ℕ) (m : List (ℕ × ℕ))
    → or_zero (lookup j (insert k v m)) ≡ (if k == j then v else or_zero (lookup j m))
count_of_insert k j v m = elim (Bool-cases (k == j)) [
  | inl e ↦ rw (lookup-insert, e)
  | inr e ↦ rw (lookup-insert, e)
]

leb-false : (a b : ℕ) → b < a → leb a b ≡ false
leb-false a b h = ground arith

module _ {W R A B : Type 0} where
  same_key :
      (c : ProviderChain W R A B) (j : ℕ)
      → (if c.current == j then get_failure_count c c.current + 1 else get_failure_count c j)
        ≡ (if c.current == j then get_failure_count c j + 1 else get_failure_count c j)
  same_key c j = elim (Bool-cases (c.current == j)) [
    | inl e ↦ rw (e, (==_iff c.current j).0 e)
    | inr e ↦ rw e
  ]

  -- `c` is `c₀` after its first `k` providers, from the current one on and going round, have failed
  -- once each in this call.
  pub record Tried (c₀ c : ProviderChain W R A B) (k : ℕ) : Type 0 where
    pub entries : c.entries ≡ c₀.entries
    pub condition : c.condition ≡ c₀.condition
    pub current : c.current ≡ position (length c₀.entries) c₀.current k
    pub counts :
        (j : ℕ)
        → j < length c₀.entries
        → get_failure_count c j ≡ (
            if ltb (distance (length c₀.entries) c₀.current j) k
            then get_failure_count c₀ j + 1
            else get_failure_count c₀ j)

  pub none-Tried : (c : ProviderChain W R A B) → c.current < length c.entries → Tried c c 0
  none-Tried c h = record {
    entries = refl;
    condition = refl;
    current = ground arith;
    counts = λ j l. ground arith;
  }

  count-failure :
      (time : ℕ) (e : ErrorValue) (c : ProviderChain W R A B) (j : ℕ)
      → get_failure_count (record_failure time e c) j
        ≡ (if c.current == j then get_failure_count c j + 1 else get_failure_count c j)
  unfolding get_failure_count record_failure
  count-failure time e c j =
      count_of_insert c.current j (get_failure_count c c.current + 1) c.failure_count ∙ same_key c j

  pub count-success :
      (c : ProviderChain W R A B) (j : ℕ)
      → get_failure_count (record_success c) j
        ≡ (if c.current == j then 0 else get_failure_count c j)
  unfolding get_failure_count record_success
  count-success c j = count_of_insert c.current j 0 c.failure_count

  switch_forward :
      (c : ProviderChain W R A B)
      → 1 < length c.entries
      → c.current < length c.entries
      → (switch_to_next c).0 ≡ record c { current = (c.current + 1) % length c.entries }
  unfolding switch_to_next
  switch_forward c two h = rw (leb-false (length c.entries) 1 two)

  switch_moves :
      (c : ProviderChain W R A B)
      → 1 < length c.entries
      → c.current < length c.entries
      → (switch_to_next c).1 ≡ true
  unfolding switch_to_next
  switch_moves c two h = ground (arith, mod_next (length c.entries) c.current)

  count_step :
      (time : ℕ) (e : ErrorValue) (c₀ c : ProviderChain W R A B) (k j : ℕ)
      → c₀.current < length c₀.entries
      → k < length c₀.entries
      → j < length c₀.entries
      → Tried c₀ c k
      → get_failure_count (record_failure time e c) j ≡ (
          if ltb (distance (length c₀.entries) c₀.current j) (k + 1)
          then get_failure_count c₀ j + 1
          else get_failure_count c₀ j)
  count_step time e c₀ c k j valid more l t = ground (
    arith,
    count-failure time e c j,
    t.counts j l,
    t.current,
    distance-position (length c₀.entries) c₀.current k,
    position-distance (length c₀.entries) c₀.current j,
  )

  -- A failure of the provider that is current, and the switch to the next.
  pub next-Tried :
      (time : ℕ) (e : ErrorValue) (c₀ c : ProviderChain W R A B) (k : ℕ)
      → 1 < length c₀.entries
      → c₀.current < length c₀.entries
      → k < length c₀.entries
      → Tried c₀ c k
      → Tried c₀ (switch_to_next (record_failure time e c)).0 (k + 1)
        × ((switch_to_next (record_failure time e c)).1 ≡ true)
  unfolding get_failure_count record_failure
  next-Tried time e c₀ c k two valid more t =
      let n = length c₀.entries in
      let e' : length c.entries ≡ n = ap length t.entries in
      let small : c.current < length c.entries =
        omega (arith, t.current, position-lt n c₀.current k) in
      let wide : 1 < length c.entries = omega arith in
      let f = record_failure time e c in
      (
        rw (switch_forward f wide small) (record {
          entries = t.entries;
          condition = t.condition;
          current = rw (e', t.current) (position_next n c₀.current k valid more);
          counts = λ j l. count_step time e c₀ c k j valid more l t;
        }),
        switch_moves f wide small,
      )
