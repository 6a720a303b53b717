-- ===== src/PathValidator.antt =====
-- internal/security/validator.go and sanitize.go: the paths that tools may touch, and the environment
-- that they see. A text is the list of its runes. Paths are those of Unix. `table` is Go's case table
-- outside of ASCII.
pub mod Components
pub mod Resolution
pub mod Environment
mod Tests
use mathlib.Core.List.{reverse}
use vibe_local_go.Base.{
  ℕ, ◌+◌, Bool, true, false, not, ◌&&◌, ◌||◌, List, [], ◌∷◌, ◌++◌, Option, none, some, map, any,
  ◌==◌, codes, str_eq, String, is_prefix, is_infix, lower_rune, upper_rune, if◌then◌else◌,
}

abbrev pub slash : ℕ
slash = 47

abbrev pub equal_text : List ℕ → List ℕ → Bool
equal_text [] [] = true
equal_text (a ∷ s) (b ∷ t) = a == b && equal_text s t
equal_text _ _ = false

-- strings.Split(path, "/")
abbrev pub add_rune : ℕ → List (List ℕ) → List (List ℕ)
add_rune c [] = (c ∷ []) ∷ []
add_rune c (part ∷ parts) = (c ∷ part) ∷ parts

unfoldable pub split : List ℕ → List (List ℕ)
split [] = [] ∷ []
split (c ∷ cs) = let rest = split cs in if c == slash then [] ∷ rest else add_rune c rest

abbrev pub dot : List ℕ
dot = b'.' ∷ []

abbrev pub dots : List ℕ
dots = b'.' ∷ b'.' ∷ []

-- filepath.Clean on the parts of a path: `kept` holds those kept so far, newest first.
abbrev pub leave : Bool → List (List ℕ) → List (List ℕ)
leave rooted [] = if rooted then [] else dots ∷ []
leave rooted (part ∷ kept) = if equal_text part dots then dots ∷ part ∷ kept else kept

unfoldable pub clean_parts : Bool → List (List ℕ) → List (List ℕ) → List (List ℕ)
clean_parts rooted kept [] = reverse kept
clean_parts rooted kept (part ∷ parts) =
    clean_parts rooted
      (if equal_text part [] || equal_text part dot
        then kept
        else if equal_text part dots
        then leave rooted kept
        else part ∷ kept)
      parts

unfoldable pub join_parts : List (List ℕ) → List ℕ
join_parts [] = []
join_parts (part ∷ []) = part
join_parts (part ∷ p ∷ parts) = part ++ slash ∷ join_parts (p ∷ parts)

-- filepath.IsAbs
abbrev pub is_abs : List ℕ → Bool
is_abs [] = false
is_abs (c ∷ cs) = c == slash

-- An absolute path of these parts.
abbrev pub absolute : List (List ℕ) → List ℕ
absolute parts = slash ∷ join_parts parts

-- What EvalSymlinks returns: a path, that the path does not exist, or another error.
pub data Resolved : Type 0 where
  resolved : List ℕ → Resolved
  not_exist : Resolved
  unresolved : String → Resolved

-- The errors of Validate and ValidateFileOperation.
pub data PathError : Type 0 where
  path_traversal unsafe_path path_outside_base symlink_to_unsafe protected_file : PathError
  other_error : String → PathError

pub record PathValidator : Type 0 where
  pub allowed_paths : List (List ℕ)
  pub unsafe_paths : List (List ℕ)

-- Getwd, which filepath.Abs calls, and EvalSymlinks.
pub record FileSystem : Type 0 where
  pub working_dir : Option (List ℕ)
  pub eval_symlinks : List ℕ → Resolved

unfoldable pub get_unsafe_paths : List (List ℕ)
get_unsafe_paths = map codes (
    "/" ∷ "/bin" ∷ "/sbin" ∷ "/usr/bin" ∷ "/usr/sbin" ∷ "/boot" ∷ "/dev" ∷ "/proc" ∷ "/sys"
    ∷ "/etc/passwd" ∷ "/etc/shadow" ∷ "/etc/sudoers" ∷ "C:\\" ∷ "C:\\Windows" ∷ "C:\\Program Files"
    ∷ "C:\\Program Files (x86)" ∷ [])

unfoldable pub new_path_validator : List ℕ → PathValidator
unfolding get_unsafe_paths
new_path_validator base_dir = record {
  allowed_paths = base_dir ∷ [];
  unsafe_paths = get_unsafe_paths;
}

unfoldable pub is_path_traversal : List ℕ → Bool
unfolding split
is_path_traversal path = any (λ part. equal_text part dots) (split path)

unfoldable pub is_within_allowed_paths : PathValidator → List ℕ → Bool
is_within_allowed_paths pv path =
    any (λ allowed. is_prefix (allowed ++ slash ∷ []) path || equal_text path allowed)
      pv.allowed_paths

module _ (table : ℕ → ℕ) where
  unfoldable pub is_unsafe_path : PathValidator → List ℕ → Bool
  is_unsafe_path pv path =
      let lower : List ℕ → List ℕ = map (lower_rune table) in
      any
        (λ unsafe.
          equal_text (lower path) (lower unsafe)
          || is_prefix (lower unsafe ++ slash ∷ []) (lower path))
        pv.unsafe_paths

  abbrev pub protected_files : List String
  protected_files =
      "/etc/passwd" ∷ "/etc/shadow" ∷ "/etc/sudoers" ∷ "/etc/hosts" ∷ "/.ssh/" ∷ "/.aws/"
      ∷ "/.config/google/" ∷ []

  unfoldable pub is_protected_file : List ℕ → Bool
  is_protected_file path =
      any (λ pf. is_infix (codes pf) (map (lower_rune table) path)) protected_files

-- The parts of the absolute and clean path that `filepath.Clean` and `filepath.Abs` make.
unfoldable pub absolute_parts : Option (List ℕ) → List ℕ → Option (List (List ℕ))
unfolding clean_parts split
absolute_parts working_dir path = elim (is_abs path) [
  | true ↦ some (clean_parts true [] (split path))
  | false ↦ elim working_dir [
    | none ↦ none
    | some cwd ↦ some (clean_parts true [] (split cwd ++ clean_parts false [] (split path)))
  ]
]

module _ (table : ℕ → ℕ) (fs : FileSystem) where
  -- The loop of resolveNonExistentPathSec on the parts of a clean absolute path, newest first:
  -- filepath.Dir drops the last, filepath.Base is the last, and filepath.Join cleans what it joins.
  unfoldable pub resolve_from : List ℕ → List (List ℕ) → List (List ℕ) → Resolved
  unfolding clean_parts split
  resolve_from path missing [] = resolved path
  resolve_from path missing (part ∷ current) =
      let further = resolve_from path (part ∷ missing) current in
      elim (fs.eval_symlinks (absolute (reverse current))) [
        | resolved r ↦ resolved (absolute (clean_parts true [] (split r ++ part ∷ missing)))
        | unresolved err ↦ unresolved err
        | not_exist ↦ further
      ]

  unfoldable pub resolve_non_existent_path_sec : List (List ℕ) → Resolved
  unfolding resolve_from
  resolve_non_existent_path_sec parts = resolve_from (absolute parts) [] (reverse parts)

  -- EvalSymlinks, and the ancestors of a path that does not exist.
  unfoldable pub resolve : List (List ℕ) → Resolved
  unfolding resolve_non_existent_path_sec
  resolve parts = elim (fs.eval_symlinks (absolute parts)) [
    | resolved r ↦ resolved r
    | unresolved err ↦ unresolved err
    | not_exist ↦ resolve_non_existent_path_sec parts
  ]

  -- From the symlinks on.
  unfoldable pub check_resolved : PathValidator → List ℕ → Resolved → Option PathError
  unfolding is_within_allowed_paths is_unsafe_path
  check_resolved pv path not_exist = some (other_error "file does not exist")
  check_resolved pv path (unresolved err) = some (other_error err)
  check_resolved pv path (resolved r) =
      if not (is_within_allowed_paths pv r)
      then some path_outside_base
      else if not (equal_text r path) && is_unsafe_path table pv r
      then some symlink_to_unsafe
      else none

  unfoldable pub validate_parts : PathValidator → List (List ℕ) → Option PathError
  unfolding is_path_traversal is_unsafe_path resolve check_resolved
  validate_parts pv parts =
      let path = absolute parts in
      if is_path_traversal path
      then some path_traversal
      else if is_unsafe_path table pv path
      then some unsafe_path
      else check_resolved pv path (resolve parts)

  -- Validate; `none` is nil.
  unfoldable pub validate : PathValidator → List ℕ → Option PathError
  unfolding absolute_parts validate_parts
  validate pv path = elim (absolute_parts fs.working_dir path) [
    | none ↦ some (other_error "getwd")
    | some parts ↦ validate_parts pv parts
  ]

  unfoldable pub validate_file_operation : PathValidator → String → List ℕ → Option PathError
  unfolding validate is_protected_file
  validate_file_operation pv operation path = elim (validate pv path) [
    | some err ↦ some err
    | none ↦
        if str_eq operation "write" && is_protected_file table path
        then some protected_file
        else none
  ]

-- filepath.Clean on a text.
unfoldable pub clean : List ℕ → List ℕ
unfolding clean_parts split join_parts
clean path =
    let parts = clean_parts (is_abs path) [] (split path) in
    if is_abs path then absolute parts else elim parts [ [] ↦ dot | p ∷ ps ↦ join_parts (p ∷ ps) ]

unfoldable pub add_allowed_path : Option (List ℕ) → List ℕ → PathValidator → PathValidator
unfolding absolute_parts clean
add_allowed_path working_dir path pv = record pv {
  allowed_paths =
      pv.allowed_paths
      ++ elim (absolute_parts working_dir path) [ some parts ↦ absolute parts | none ↦ clean path ]
        ∷ [];
}

-- ResolveAndValidate: the path to use, or the error.
unfoldable pub resolve_and_validate :
    (ℕ → ℕ) → FileSystem → PathValidator → List ℕ → Option PathError × List ℕ
unfolding absolute_parts validate
resolve_and_validate table fs pv path = elim (absolute_parts fs.working_dir path) [
  | none ↦ (some (other_error "getwd"), [])
  | some parts ↦ elim (validate table fs pv (absolute parts)) [
    | some err ↦ (some err, [])
    | none ↦ elim (fs.eval_symlinks (absolute parts)) [
      | resolved r ↦ (none, r)
      | not_exist ↦ (none, absolute parts)
      | unresolved err ↦ (none, absolute parts)
    ]
  ]
]

unfoldable pub is_safe_path : List ℕ → Bool
unfolding clean
is_safe_path path =
    let cleaned = clean path in
    not (is_infix dots cleaned)
    && not (any (λ p. is_prefix (codes p) cleaned) ("/dev/" ∷ "/proc/" ∷ "/sys/" ∷ []))

abbrev pub sensitive_patterns : List String
sensitive_patterns =
    "_TOKEN" ∷ "_KEY" ∷ "_SECRET" ∷ "_PASSWORD" ∷ "_PRIVATE" ∷ "_AUTH" ∷ "CREDENTIAL" ∷ "API_" ∷ []

abbrev pub environment_patterns : List String
environment_patterns =
    "_TOKEN" ∷ "_KEY" ∷ "_SECRET" ∷ "_PASSWORD" ∷ "_PRIVATE" ∷ "_AUTH" ∷ "CREDENTIAL" ∷ "API_" ∷ []

module _ (table : ℕ → ℕ) where
  unfoldable pub is_sensitive_env_var : List ℕ → Bool
  is_sensitive_env_var name =
      any (λ p. is_infix (codes p) (map (upper_rune table) name)) sensitive_patterns

  -- The inner loop over the patterns, on eUpper.
  abbrev pub keeps : List String → List ℕ → Bool
  keeps [] upper = true
  keeps (p ∷ ps) upper = if is_infix (codes p) upper then false else keeps ps upper

  -- SanitizeEnvironment has a list of patterns of its own.
  unfoldable pub sanitize_environment : List (List ℕ) → List (List ℕ)
  sanitize_environment [] = []
  sanitize_environment (e ∷ es) =
      let rest = sanitize_environment es in
      if keeps environment_patterns (map (upper_rune table) e) then e ∷ rest else rest

  unfoldable pub get_safe_env_var : (List ℕ → List ℕ) → List ℕ → List ℕ × Bool
  unfolding is_sensitive_env_var
  get_safe_env_var getenv name =
      if is_sensitive_env_var name then ([], false) else (getenv name, true)
