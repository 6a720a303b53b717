-- ===== src/PathValidator/Tests.antt =====
-- Paths that are validated and an environment that is sanitized (internal/security).
use vibe_local_go.Base.{
  ℕ, ◌≡◌, ◌↔◌, refl, true, false, [], ◌∷◌, ◌++◌, none, some, codes, any, if◌then◌else◌,
}
use vibe_local_go.PathValidator.{
  PathValidator, FileSystem, resolved, not_exist, path_outside_base, equal_text, split,
  new_path_validator, get_unsafe_paths, is_within_allowed_paths, is_unsafe_path, validate,
  validate_parts, is_protected_file, absolute_parts, clean_parts, join_parts, is_path_traversal,
  resolve, resolve_from, resolve_non_existent_path_sec, check_resolved, is_sensitive_env_var,
  sanitize_environment,
}
use vibe_local_go.PathValidator.Components.{begins, is_within_allowed_paths-begins}
use vibe_local_go.PathValidator.Resolution.{IsSafe, validate_iff}
use vibe_local_go.PathValidator.Environment.{count_entry, sanitize_environment-hides}

abbrev ascii : ℕ → ℕ
ascii c = c

-- Only /, /home/w and /tmp exist, and /home/w is a link to /tmp.
abbrev disk : FileSystem
disk = record {
  working_dir = some (codes "/home/w");
  eval_symlinks = λ path.
      if equal_text path (codes "/home/w")
      then resolved (codes "/tmp")
      else if equal_text path (codes "/")
      then resolved (codes "/")
      else not_exist;
}

abbrev validator : PathValidator
validator = new_path_validator (codes "/tmp")

linked : validate ascii disk validator (codes "a/../new.txt") ≡ none
unfolding validate absolute_parts clean_parts split validate_parts is_path_traversal join_parts
    is_unsafe_path resolve resolve_non_existent_path_sec resolve_from check_resolved
    is_within_allowed_paths new_path_validator get_unsafe_paths
linked = refl

outside : validate ascii disk validator (codes "../../tmpfile") ≡ some path_outside_base
unfolding validate absolute_parts clean_parts split validate_parts is_path_traversal join_parts
    is_unsafe_path resolve resolve_non_existent_path_sec resolve_from check_resolved
    is_within_allowed_paths new_path_validator get_unsafe_paths
outside = refl

-- The unsafe path "/" forbids nothing below it, and as an allowed path it allows nothing below it.
root_only :
    is_unsafe_path ascii (new_path_validator (codes "/")) (codes "/root")
    ≡ is_within_allowed_paths (new_path_validator (codes "/")) (codes "/root")
unfolding is_unsafe_path new_path_validator get_unsafe_paths is_within_allowed_paths
root_only = refl

-- The file is protected by its name as it is written.
protects : is_protected_file ascii (codes "/etc/hosts") ≡ true
unfolding is_protected_file
protects = refl

protects_not : is_protected_file ascii (codes "/etc/./hosts") ≡ false
unfolding is_protected_file
protects_not = refl

is_within_allowed_paths-begins_example :
    is_within_allowed_paths validator (codes "/tmpfile")
    ≡ any (λ allowed. begins (split allowed) (split (codes "/tmpfile"))) validator.allowed_paths
unfolding new_path_validator
is_within_allowed_paths-begins_example = is_within_allowed_paths-begins validator (codes "/tmpfile")

validate_iff_example :
    (validate ascii disk validator (codes "a/../new.txt") ≡ none)
    ↔ IsSafe ascii disk validator (codes "a/../new.txt")
validate_iff_example = validate_iff ascii disk validator (codes "a/../new.txt")

sanitize_environment-hides_example :
    count_entry
      (codes "my_Key" ++ codes "=1")
      (sanitize_environment ascii (codes "HOME=/" ∷ codes "my_Key=1" ∷ []))
    ≡ 0
unfolding is_sensitive_env_var
sanitize_environment-hides_example =
    sanitize_environment-hides ascii (codes "HOME=/" ∷ codes "my_Key=1" ∷ []) (codes "my_Key")
      (codes "=1") refl
