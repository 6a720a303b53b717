-- ===== src/PathValidator/Components.antt =====
-- Paths by their parts (internal/security/validator.go): texts against lists of names.
use vibe_local_go.Base.{
  ℕ, ◌≡◌, refl, ◌∙◌, Bool, true, false, ◌&&◌, ◌||◌, List, [], ◌∷◌, ◌++◌, ◌==◌, arith, any,
  Bool-cases, inl, inr, is_prefix,
}
use vibe_local_go.PathValidator.{PathValidator, slash, equal_text, split, is_within_allowed_paths}

-- Whether one list of names begins another.
abbrev pub begins : List (List ℕ) → List (List ℕ) → Bool
begins [] parts = true
begins (p ∷ ps) [] = false
begins (p ∷ ps) (q ∷ qs) = equal_text q p && begins ps qs

pub split-head :
    (cs : List ℕ) → (part : List ℕ) × (parts : List (List ℕ)) × (split cs ≡ part ∷ parts)
unfolding split
split-head [] = ([], [], refl)
split-head (c ∷ cs) =
    let (part, parts, e) = split-head cs in
    elim (Bool-cases (c == slash)) [
      | inl t ↦ ([], split cs, rw (split, t) refl)
      | inr f ↦ (c ∷ part, parts, rw (split, f, e) refl)
    ]

pub split-slash : (c : ℕ) (cs : List ℕ) → (c == slash) ≡ true → split (c ∷ cs) ≡ [] ∷ split cs
unfolding split
split-slash c cs t = rw (split, t) refl

pub split-other :
    (c : ℕ) (cs part : List ℕ) (parts : List (List ℕ))
    → (c == slash) ≡ false
    → split cs ≡ part ∷ parts
    → split (c ∷ cs) ≡ (c ∷ part) ∷ parts
unfolding split
split-other c cs part parts f e = rw (split, f, e) refl

begins-split :
    (a p : List ℕ) → (is_prefix (a ++ slash ∷ []) p || equal_text p a) ≡ begins (split a) (split p)
unfolding split
begins-split [] [] = refl
begins-split [] (c ∷ p) =
    let (u, us, q) = split-head p in
    elim (Bool-cases (c == slash)) [
      | inl t ↦ rw (split-slash c p t) (ground (arith, t))
      | inr f ↦ rw (split-other c p u us f q) (ground (arith, f))
    ]
begins-split (x ∷ a) [] =
    let (t, ts, e) = split-head a in
    elim (Bool-cases (x == slash)) [
      | inl y ↦ rw (split-slash x a y, e) refl
      | inr n ↦ rw (split-other x a t ts n e) refl
    ]
begins-split (x ∷ a) (c ∷ p) =
    let (t, ts, e) = split-head a in
    let (u, us, q) = split-head p in
    let ih = begins-split a p in
    elim (Bool-cases (x == slash)) [
      | inl y ↦ elim (Bool-cases (c == slash)) [
        | inl z ↦ rw (split-slash x a y, split-slash c p z) (ground (arith, ih))
        | inr m ↦ rw (split-slash x a y, split-other c p u us m q) (ground (arith, ih))
      ]
      | inr n ↦ elim (Bool-cases (c == slash)) [
        | inl z ↦ rw (split-other x a t ts n e, split-slash c p z) (ground (arith, ih))
        | inr m ↦
            let both : (is_prefix (a ++ slash ∷ []) p || equal_text p a)
                ≡ (equal_text u t && begins ts us) =
              ih ∙ rw (e, q) refl in
            rw (split-other x a t ts n e, split-other c p u us m q) (ground (arith, both))
      ]
    ]

within-begins :
    (allowed : List (List ℕ)) (path : List ℕ)
    → any (λ a. is_prefix (a ++ slash ∷ []) path || equal_text path a) allowed
      ≡ any (λ a. begins (split a) (split path)) allowed
within-begins [] path = refl
within-begins (a ∷ allowed) path = ground (arith, begins-split a path, within-begins allowed path)

-- A path is within the allowed paths exactly where the names of one of them begin its names, so
-- that no name is compared with a part of a name.
pub is_within_allowed_paths-begins :
    (pv : PathValidator) (path : List ℕ)
    → is_within_allowed_paths pv path
      ≡ any (λ allowed. begins (split allowed) (split path)) pv.allowed_paths
unfolding is_within_allowed_paths
is_within_allowed_paths-begins pv path = within-begins pv.allowed_paths path
