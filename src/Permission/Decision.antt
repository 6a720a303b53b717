-- ===== src/Permission/Decision.antt =====
-- CheckPermission of internal/security/permission.go.
use vibe_local_go.Base.{
  ◌≡◌, ◌≢◌, ◌⊎◌, ◌↔◌, String, true, Option, none, some, arith, lookup, string_key, eq_iff,
}
use vibe_local_go.Permission.{
  PermissionManager, PermissionType, permission_always, permission_deny, tool_safe,
  get_tool_category, check_permission,
}

-- A tool may run without asking.
abbrev pub IsAllowed : PermissionManager → String → Type 0
IsAllowed pm tool = (check_permission pm tool).allowed ≡ true

abbrev pub rule_of : PermissionManager → String → Option PermissionType
rule_of pm tool = lookup tool pm.rules

-- A tool runs without asking exactly with the -y flag, under a rule `always`, or, without a rule
-- `deny`, where it is one of the read-only tools; and an error comes back exactly under a rule
-- `deny` without the -y flag.
pub check_permission_iff :
    (pm : PermissionManager) (tool : String)
    → (IsAllowed pm tool ↔ (
        (pm.always_approve ≡ true)
        ⊎ (rule_of pm tool ≡ some permission_always)
        ⊎ ((rule_of pm tool ≢ some permission_deny) × (get_tool_category tool ≡ tool_safe))))
      × (((check_permission pm tool).error ≡ none)
          ↔ ((pm.always_approve ≡ true) ⊎ (rule_of pm tool ≢ some permission_deny)))
unfolding check_permission
check_permission_iff pm tool = ground arith

-- The read-only tools are the only safe ones, so `bash` never runs without a rule or the flag.
pub safe_tools :
    (tool : String)
    → (get_tool_category tool ≡ tool_safe)
      ↔ ((tool ≡ "read_file") ⊎ (tool ≡ "glob") ⊎ (tool ≡ "grep"))
unfolding get_tool_category
safe_tools tool =
    ground
      (arith, eq_iff "read_file" tool, eq_iff "glob" tool, eq_iff "grep" tool, eq_iff "bash" tool)
