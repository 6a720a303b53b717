-- ===== src/Permission.antt =====
-- internal/security/permission.go: the decision whether a tool may run without asking, and the
-- rules that are kept for it. The rules file is a list of rules: json.Unmarshal of what
-- json.MarshalIndent wrote gives them back. Its order is that of the map, which Go leaves open.
pub mod Decision
pub mod Persistence
mod Tests
use vibe_local_go.Base.{
  ℕ, String, Bool, true, false, List, [], ◌∷◌, Option, none, some, if◌then◌else◌, str_eq, any,
  lookup, insert, string_key, concat,
}

-- PermissionType is an int type with three constants; a file may hold other numbers.
pub data PermissionType : Type 0 where
  permission_ask permission_always permission_deny : PermissionType
  permission_other : ℕ → PermissionType

pub data ToolCategory : Type 0 where
  tool_safe tool_ask tool_network tool_dangerous : ToolCategory

pub record PermissionRule : Type 0 where
  pub tool_name : String
  pub permission_type : PermissionType

pub record PermissionManager : Type 0 where
  pub rules : List (String × PermissionType)
  pub always_approve : Bool

-- The rules file: missing, unreadable or no list of rules, or its rules.
pub data RulesFile : Type 0 where
  missing broken : RulesFile
  stored : List PermissionRule → RulesFile

is_one_of : List String → String → Bool
is_one_of names tool_name = any (λ t. str_eq t tool_name) names

unfoldable pub get_tool_category : String → ToolCategory
unfolding is_one_of
get_tool_category tool_name =
    if is_one_of ("read_file" ∷ "glob" ∷ "grep" ∷ []) tool_name
    then tool_safe
    else if is_one_of ("write_file" ∷ "edit_file" ∷ []) tool_name
    then tool_ask
    else if is_one_of ("web_fetch" ∷ "web_search" ∷ []) tool_name
    then tool_network
    else if str_eq tool_name "bash"
    then tool_dangerous
    else tool_ask

unfoldable pub category_text : ToolCategory → String
category_text tool_safe = "safe"
category_text tool_ask = "ask"
category_text tool_network = "network"
category_text tool_dangerous = "dangerous"

-- allowed, reason, and the error if there is one
pub record Check : Type 0 where
  pub allowed : Bool
  pub reason : String
  pub error : Option String

abbrev pub check_of : Bool → String → Check
check_of allowed reason = record { allowed = allowed; reason = reason; error = none }

check_category : ToolCategory → Check
unfolding category_text
check_category tool_safe = check_of true "safe"
check_category tool_ask = check_of false "ask"
check_category category = check_of false (category_text category)

check_rule : Option PermissionType → String → Check
unfolding check_category
check_rule (some permission_always) tool_name = check_of true "always_allowed"
check_rule (some permission_deny) tool_name = record {
  allowed = false;
  reason = "always_denied";
  error = some (concat ("tool permanently denied: " ∷ tool_name ∷ []));
}
check_rule _ tool_name = check_category (get_tool_category tool_name)

unfoldable pub check_permission : PermissionManager → String → Check
unfolding check_rule
check_permission pm tool_name =
    if pm.always_approve
    then check_of true "always_approved"
    else check_rule (lookup tool_name pm.rules) tool_name

unfoldable pub save_rules : List (String × PermissionType) → List PermissionRule
save_rules [] = []
save_rules ((name, permission) ∷ m) =
    record { tool_name = name; permission_type = permission } ∷ save_rules m

-- pm.rules[rule.ToolName] = rule.PermissionType, for each rule of the file
unfoldable pub put_rules :
    List PermissionRule → List (String × PermissionType) → List (String × PermissionType)
put_rules [] m = m
put_rules (r ∷ rs) m = put_rules rs (insert r.tool_name r.permission_type m)

-- The manager, or none for an error. A missing file is no error.
unfoldable pub new_permission_manager : Bool → RulesFile → Option PermissionManager
unfolding put_rules
new_permission_manager always_approve missing =
    some (record { rules = []; always_approve = always_approve })
new_permission_manager always_approve broken = none
new_permission_manager always_approve (stored rs) =
    some (record { rules = put_rules rs []; always_approve = always_approve })

-- `saved` says whether the file could be written; if not, the error of saveRules is returned and
-- the old file stays, since it is replaced by a rename.
abbrev write_rules : Bool → PermissionManager → RulesFile → PermissionManager × RulesFile × Bool
write_rules true pm file = (pm, stored (save_rules pm.rules), true)
write_rules false pm file = (pm, file, false)

unfoldable pub set_permission :
    Bool
    → String
    → PermissionType
    → PermissionManager
    → RulesFile
    → PermissionManager × RulesFile × Bool
unfolding save_rules
set_permission saved tool_name perm pm file =
    write_rules saved (record pm { rules = insert tool_name perm pm.rules }) file

unfoldable pub clear_rules :
    Bool → PermissionManager → RulesFile → PermissionManager × RulesFile × Bool
unfolding save_rules
clear_rules saved pm file = write_rules saved (record pm { rules = [] }) file

unfoldable pub set_auto_approve : Bool → PermissionManager → PermissionManager
set_auto_approve auto_approve pm = record pm { always_approve = auto_approve }
