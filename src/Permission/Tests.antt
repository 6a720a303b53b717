-- ===== src/Permission/Tests.antt =====
-- Runs of the permissions of internal/security/permission.go, and their theorems at concrete rules.
use vibe_local_go.Base.{◌≡◌, ◌≢◌, ◌⊎◌, ◌↔◌, refl, true, false, [], ◌∷◌, none, some, lookup}
use vibe_local_go.Permission.{
  PermissionManager, permission_always, permission_deny, tool_safe, RulesFile, missing, stored,
  get_tool_category, check_permission, new_permission_manager, set_permission,
}
use vibe_local_go.Permission.Decision.{IsAllowed, rule_of, check_permission_iff}
use vibe_local_go.Permission.Persistence.{check-reload}

abbrev manager : PermissionManager
manager = record { rules = ("bash", permission_deny) ∷ []; always_approve = false }

abbrev file : RulesFile
file = stored (record { tool_name = "bash"; permission_type = permission_deny } ∷ [])

bash_denied : (check_permission manager "bash").reason ≡ "always_denied"
unfolding check_permission lookup
bash_denied = refl

check_permission_iff_example :
    (IsAllowed manager "glob" ↔ (
      (manager.always_approve ≡ true)
      ⊎ (rule_of manager "glob" ≡ some permission_always)
      ⊎ ((rule_of manager "glob" ≢ some permission_deny) × (get_tool_category "glob" ≡ tool_safe))))
    × (((check_permission manager "glob").error ≡ none)
        ↔ ((manager.always_approve ≡ true) ⊎ (rule_of manager "glob" ≢ some permission_deny)))
check_permission_iff_example = check_permission_iff manager "glob"

check-reload_example :
    let s = set_permission true "glob" permission_deny manager missing in
    (pm' : PermissionManager) × (new_permission_manager false s.1 ≡ some pm')
    × (check_permission pm' "bash" ≡ check_permission s.0 "bash")
unfolding lookup
check-reload_example = check-reload "glob" "bash" permission_deny manager missing (refl, tt)
