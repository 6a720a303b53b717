-- ===== src/PathValidator/Environment.antt =====
-- The variables that SanitizeEnvironment (internal/security/sanitize.go) keeps.
use vibe_local_go.Base.{
  ℕ, ◌+◌, ◌≡◌, refl, ap, Bool, true, not, List, [], ◌∷◌, ◌++◌, arith, any, map, codes, String,
  is_prefix, is_infix, upper_rune, if◌then◌else◌,
}
use vibe_local_go.PathValidator.Resolution.{equal_text-eq}
use vibe_local_go.PathValidator.{
  is_sensitive_env_var, sanitize_environment, sensitive_patterns, environment_patterns, keeps,
  equal_text,
}

is_prefix-append : (p s t : List ℕ) → is_prefix p s ≡ true → is_prefix p (s ++ t) ≡ true
is_prefix-append [] s t h = refl
is_prefix-append (x ∷ p) [] t h = absurd (ground (arith, h))
is_prefix-append (x ∷ p) (c ∷ s) t h = ground (arith, is_prefix-append p s t)

empty-infix : (p t : List ℕ) → is_prefix p [] ≡ true → is_infix p t ≡ true
empty-infix [] [] h = refl
empty-infix [] (c ∷ t) h = refl
empty-infix (x ∷ p) t h = absurd (ground (arith, h))

is_infix-append : (p s t : List ℕ) → is_infix p s ≡ true → is_infix p (s ++ t) ≡ true
is_infix-append p [] t h = empty-infix p t h
is_infix-append p (c ∷ s) t h = ground (arith, is_prefix-append p (c ∷ s) t, is_infix-append p s t)

map-append : (f : ℕ → ℕ) (s t : List ℕ) → map f (s ++ t) ≡ map f s ++ map f t
map-append f [] t = refl
map-append f (c ∷ s) t = ap (λ l. f c ∷ l) (map-append f s t)

any-append :
    (ps : List String) (s t : List ℕ)
    → any (λ p. is_infix (codes p) s) ps ≡ true
    → any (λ p. is_infix (codes p) (s ++ t)) ps ≡ true
any-append [] s t h = h
any-append (p ∷ ps) s t h = ground (arith, is_infix-append (codes p) s t, any-append ps s t)

-- How often an entry stands in an environment.
abbrev pub count_entry : List ℕ → List (List ℕ) → ℕ
count_entry e [] = 0
count_entry e (x ∷ xs) = (if equal_text x e then 1 else 0) + count_entry e xs

equal-sensitive : (f : List ℕ → Bool) (s t : List ℕ) → equal_text s t ≡ true → f s ≡ f t
equal-sensitive f s t h = ap f (equal_text-eq s t h)

module _ (table : ℕ → ℕ) where
  sensitive-append :
      (name rest : List ℕ)
      → is_sensitive_env_var table name ≡ true
      → is_sensitive_env_var table (name ++ rest) ≡ true
  unfolding is_sensitive_env_var
  sensitive-append name rest h =
      rw (is_sensitive_env_var, map-append (upper_rune table) name rest)
        (any-append sensitive_patterns (map (upper_rune table) name) (map (upper_rune table) rest)
          h)

  -- The two functions agree: an entry is kept where it is no sensitive name.
  keeps-sensitive :
      (ps : List String) (e : List ℕ) → keeps table ps e ≡ not (any (λ p. is_infix (codes p) e) ps)
  keeps-sensitive [] e = refl
  keeps-sensitive (p ∷ ps) e = ground (arith, keeps-sensitive ps e)

  kept_iff :
      (e : List ℕ)
      → keeps table environment_patterns (map (upper_rune table) e)
        ≡ not (is_sensitive_env_var table e)
  unfolding is_sensitive_env_var
  kept_iff e = keeps-sensitive environment_patterns (map (upper_rune table) e)

  -- The entries that are not sensitive are kept, as often as they stand there.
  sanitize_environment-count :
      (env : List (List ℕ)) (e : List ℕ)
      → count_entry e (sanitize_environment table env)
        ≡ (if is_sensitive_env_var table e then 0 else count_entry e env)
  unfolding sanitize_environment
  sanitize_environment-count [] e = ground arith
  sanitize_environment-count (x ∷ xs) e = ground (
    arith,
    kept_iff x,
    sanitize_environment-count xs e,
    equal-sensitive (is_sensitive_env_var table) x e,
  )

  -- No variable whose name IsSensitiveEnvVar reports is left by SanitizeEnvironment, which has its own
  -- list of patterns: an entry that begins with such a name does not stand in the result.
  pub sanitize_environment-hides :
      (env : List (List ℕ)) (name rest : List ℕ)
      → is_sensitive_env_var table name ≡ true
      → count_entry (name ++ rest) (sanitize_environment table env) ≡ 0
  sanitize_environment-hides env name rest h =
      ground (arith, sanitize_environment-count env (name ++ rest), sensitive-append name rest h)
