-- ===== src/PathValidator/Resolution.antt =====
-- What Validate of internal/security/validator.go accepts.
use mathlib.Core.List.{reverse, reverse_aux}
use vibe_local_go.Base.{
  ℕ, ◌≡◌, ◌≢◌, ◌↔◌, refl, sym, ap, ◌∙◌, Bool, true, false, not, ◌&&◌, List, [], ◌∷◌, ◌++◌, ◌==◌,
  arith, any, all, Bool-cases, Option-cases, inl, inr, if◌then◌else◌, Option, none, some,
}
use vibe_local_go.PathValidator.{
  PathValidator, path_traversal, other_error, FileSystem, Resolved, resolved, not_exist, unresolved,
  slash, dots, equal_text, split, is_within_allowed_paths, clean_parts, join_parts, is_abs,
  absolute, absolute_parts, is_path_traversal, is_unsafe_path, resolve, check_resolved,
  validate_parts, validate,
}
use vibe_local_go.PathValidator.Components.{split-head, split-slash, split-other}

abbrev has_no_slash : List ℕ → Bool
has_no_slash [] = true
has_no_slash (c ∷ cs) = if c == slash then false else has_no_slash cs

abbrev is_name : List ℕ → Bool
is_name part = has_no_slash part && not (equal_text part dots)

split-no_slash : (cs : List ℕ) → all has_no_slash (split cs) ≡ true
unfolding split
split-no_slash [] = refl
split-no_slash (c ∷ cs) =
    let (part, parts, e) = split-head cs in
    let ih : (has_no_slash part && all has_no_slash parts) ≡ true =
      sym (ap (all has_no_slash) e) ∙ split-no_slash cs in
    elim (Bool-cases (c == slash)) [
      | inl t ↦ rw (split-slash c cs t) (split-no_slash cs)
      | inr f ↦ rw (split-other c cs part parts f e) (ground (arith, ih))
    ]

split-name : (p rest : List ℕ) → has_no_slash p ≡ true → split (p ++ slash ∷ rest) ≡ p ∷ split rest
split-name [] rest h = split-slash slash rest refl
split-name (c ∷ p) rest h =
    split-other c (p ++ slash ∷ rest) p (split rest) (ground arith)
      (split-name p rest (ground arith))

split-whole : (p : List ℕ) → has_no_slash p ≡ true → split p ≡ p ∷ []
unfolding split
split-whole [] h = refl
split-whole (c ∷ p) h = split-other c p p [] (ground arith) (split-whole p (ground arith))

all-append : (f : List ℕ → Bool) (xs ys : List (List ℕ)) → all f (xs ++ ys) ≡ (all f xs && all f ys)
all-append f [] ys = refl
all-append f (x ∷ xs) ys = ground (arith, all-append f xs ys)

all-reverse_aux :
    (f : List ℕ → Bool) (xs ys : List (List ℕ)) → all f (reverse_aux xs ys) ≡ (all f xs && all f ys)
all-reverse_aux f [] ys = refl
all-reverse_aux f (x ∷ xs) ys = ground (arith, all-reverse_aux f xs (x ∷ ys))

all-reverse : (f : List ℕ → Bool) (xs : List (List ℕ)) → all f (reverse xs) ≡ all f xs
all-reverse f xs = ground (arith, all-reverse_aux f xs [])

clean_parts-names :
    (parts kept : List (List ℕ))
    → all has_no_slash parts ≡ true
    → all is_name kept ≡ true
    → all is_name (clean_parts true kept parts) ≡ true
unfolding clean_parts
clean_parts-names [] kept h k = all-reverse is_name kept ∙ k
clean_parts-names (p ∷ parts) [] h k = clean_parts-names parts _ (ground arith) (ground arith)
clean_parts-names (p ∷ parts) (q ∷ kept) h k =
    clean_parts-names parts _ (ground arith) (ground arith)

join-untraversed :
    (parts : List (List ℕ))
    → all is_name parts ≡ true
    → any (λ part. equal_text part dots) (split (join_parts parts)) ≡ false
unfolding join_parts split
join-untraversed [] h = refl
join-untraversed (p ∷ []) h = rw (split-whole p (ground arith)) (ground arith)
join-untraversed (p ∷ q ∷ parts) h =
    rw (split-name p (join_parts (q ∷ parts)) (ground arith))
      (ground (arith, join-untraversed (q ∷ parts) (ground arith)))

clean_parts-no_slash :
    (parts kept : List (List ℕ))
    → all has_no_slash parts ≡ true
    → all has_no_slash kept ≡ true
    → all has_no_slash (clean_parts false kept parts) ≡ true
unfolding clean_parts
clean_parts-no_slash [] kept h k = all-reverse has_no_slash kept ∙ k
clean_parts-no_slash (p ∷ parts) [] h k = clean_parts-no_slash parts _ (ground arith) (ground arith)
clean_parts-no_slash (p ∷ parts) (q ∷ kept) h k =
    clean_parts-no_slash parts _ (ground arith) (ground arith)

abbrev parts_of : Option (List (List ℕ)) → List (List ℕ)
parts_of none = []
parts_of (some parts) = parts

absolute_parts-names :
    (working_dir : Option (List ℕ)) (path : List ℕ)
    → all is_name (parts_of (absolute_parts working_dir path)) ≡ true
unfolding absolute_parts
absolute_parts-names working_dir path = elim (Bool-cases (is_abs path)) [
  | inl t ↦ rw (absolute_parts, t) (clean_parts-names (split path) [] (split-no_slash path) refl)
  | inr f ↦ elim (Option-cases working_dir) [
    | inl n ↦ rw (absolute_parts, f, n) refl
    | inr s ↦
        let rest = clean_parts false [] (split path) in
        let names : all has_no_slash (split s.0 ++ rest) ≡ true = ground (
          arith,
          all-append has_no_slash (split s.0) rest,
          split-no_slash s.0,
          clean_parts-no_slash (split path) [] (split-no_slash path) refl,
        ) in
        rw (absolute_parts, f, s.1) (clean_parts-names (split s.0 ++ rest) [] names refl)
  ]
]

untraversed :
    (working_dir : Option (List ℕ)) (path : List ℕ) (parts : List (List ℕ))
    → absolute_parts working_dir path ≡ some parts
    → is_path_traversal (absolute parts) ≡ false
unfolding is_path_traversal split
untraversed working_dir path parts e =
    let names : all is_name parts ≡ true =
      ap (λ o. all is_name (parts_of o)) (sym e) ∙ absolute_parts-names working_dir path in
    join-untraversed parts names

pub equal_text-eq : (s t : List ℕ) → equal_text s t ≡ true → s ≡ t
equal_text-eq [] [] h = refl
equal_text-eq [] (b ∷ t) h = absurd (ground (arith, h))
equal_text-eq (a ∷ s) [] h = absurd (ground (arith, h))
equal_text-eq (a ∷ s) (b ∷ t) h =
    let heads : a ≡ b = ground (arith, h) in
    let tails = equal_text-eq s t (ground (arith, h)) in λ i. heads i ∷ tails i

module _ (table : ℕ → ℕ) (fs : FileSystem) (pv : PathValidator) where
  -- The path, cleaned and made absolute, is not unsafe, and what it resolves to exists within the
  -- allowed paths and is not unsafe.
  pub record IsSafe (path : List ℕ) : Type 0 where
    pub parts : List (List ℕ)
    pub target : List ℕ
    pub cleaned : absolute_parts fs.working_dir path ≡ some parts
    pub resolves : resolve table fs parts ≡ resolved target
    pub within : is_within_allowed_paths pv target ≡ true
    pub safe_path : is_unsafe_path table pv (absolute parts) ≡ false
    pub safe_target : is_unsafe_path table pv target ≡ false

  checked_target :
      (path : List ℕ) (r : Resolved)
      → check_resolved table fs pv path r ≡ none
      → is_unsafe_path table pv path ≡ false
      → (target : List ℕ) × (r ≡ resolved target)
        × (is_within_allowed_paths pv target ≡ true)
        × (is_unsafe_path table pv target ≡ false)
  unfolding check_resolved
  checked_target path not_exist h u = absurd (ground (arith, h))
  checked_target path (unresolved err) h u = absurd (ground (arith, h))
  checked_target path (resolved r) h u =
      let same : equal_text r path ≡ true → is_unsafe_path table pv r ≡ false =
        λ e. ap (is_unsafe_path table pv) (equal_text-eq r path e) ∙ u in
      (r, refl, ground (arith, h), ground (arith, h, same))

  check_accepts :
      (path target : List ℕ)
      → is_within_allowed_paths pv target ≡ true
      → is_unsafe_path table pv target ≡ false
      → check_resolved table fs pv path (resolved target) ≡ none
  unfolding check_resolved
  check_accepts path target w u = ground arith

  parts-IsSafe :
      (path : List ℕ) (parts : List (List ℕ))
      → absolute_parts fs.working_dir path ≡ some parts
      → validate_parts table fs pv parts ≡ none
      → IsSafe path
  unfolding validate_parts
  parts-IsSafe path parts e h =
      let clean = untraversed fs.working_dir path parts e in
      let u : is_unsafe_path table pv (absolute parts) ≡ false = ground (arith, h, clean) in
      let c : check_resolved table fs pv (absolute parts) (resolve table fs parts) ≡ none =
        ground (arith, h, clean, u) in
      let (target, r, w, s) = checked_target (absolute parts) (resolve table fs parts) c u in
      record {
        parts = parts;
        target = target;
        cleaned = e;
        resolves = r;
        within = w;
        safe_path = u;
        safe_target = s;
      }

  -- Validate returns nil exactly where the path, cleaned and made absolute, is not in the unsafe
  -- places, and resolves to a path that is within the allowed ones and not in the unsafe ones.
  pub validate_iff : (path : List ℕ) → (validate table fs pv path ≡ none) ↔ IsSafe path
  unfolding validate
  validate_iff path = (
    λ h. elim (Option-cases (absolute_parts fs.working_dir path)) [
      | inl n ↦
          let bad : some (other_error "getwd") ≡ none = sym (rw (validate, n) refl) ∙ h in
          absurd (ground (arith, bad))
      | inr s ↦ parts-IsSafe path s.0 s.1 (sym (rw (validate, s.1) refl) ∙ h)
    ],
    λ s.
        let clean = untraversed fs.working_dir path s.parts s.cleaned in
        let c = check_accepts (absolute s.parts) s.target s.within s.safe_target in
        rw (validate, s.cleaned, validate_parts, clean, s.safe_path, s.resolves) c,
  )

  check-no_traversal :
      (path : List ℕ) (r : Resolved) → check_resolved table fs pv path r ≢ some path_traversal
  unfolding check_resolved
  check-no_traversal path not_exist h = absurd (ground (arith, h))
  check-no_traversal path (unresolved err) h = absurd (ground (arith, h))
  check-no_traversal path (resolved r) h = absurd (ground (arith, h))

  -- Validate never reports a path traversal: `..` is resolved before it is looked for.
  validate-no_traversal : (path : List ℕ) → validate table fs pv path ≢ some path_traversal
  unfolding validate validate_parts
  validate-no_traversal path h = elim (Option-cases (absolute_parts fs.working_dir path)) [
    | inl n ↦
        let bad : some (other_error "getwd") ≡ some path_traversal =
          sym (rw (validate, n) refl) ∙ h in
        absurd (ground (arith, bad))
    | inr s ↦
        let found : validate_parts table fs pv s.0 ≡ some path_traversal =
          sym (rw (validate, s.1) refl) ∙ h in
        absurd (
          ground (
            arith,
            found,
            untraversed fs.working_dir path s.0 s.1,
            check-no_traversal (absolute s.0) (resolve table fs s.0),
          ))
  ]
