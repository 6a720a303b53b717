-- ===== src/Permission/Persistence.antt =====
-- Setting, saving and loading the rules of internal/security/permission.go.
use vibe_local_go.Base.{
  ◌≡◌, refl, String, Bool, true, false, List, [], ◌∷◌, Option, none, some, arith, lookup, insert,
  lookup-insert, ap, string_key, str_eq, eq_iff, if◌then◌else◌,
}
use vibe_local_go.Permission.{
  PermissionManager, PermissionType, PermissionRule, RulesFile, missing, broken, stored,
  check_permission, check_rule, save_rules, put_rules, check_of, new_permission_manager,
  set_permission, clear_rules,
}
use vibe_local_go.Permission.Decision.{rule_of}

-- No tool has two rules, as in a Go map.
abbrev pub Unique : List (String × PermissionType) → Type 0
Unique [] = Unit
Unique ((k, p) ∷ m) = (lookup k m ≡ none) × Unique m

insert-Unique :
    (k : String) (p : PermissionType) (m : List (String × PermissionType))
    → Unique m
    → Unique (insert k p m)
unfolding insert lookup
insert-Unique k p [] u = (refl, tt)
insert-Unique k p ((j, q) ∷ m) u =
    ground (arith, insert-Unique k p m u.1, lookup-insert k j p m, eq_iff j k, eq_iff k j)

put-Unique :
    (rs : List PermissionRule) (m : List (String × PermissionType))
    → Unique m
    → Unique (put_rules rs m)
unfolding put_rules
put-Unique [] m u = u
put-Unique (r ∷ rs) m u =
    put-Unique rs (insert r.tool_name r.permission_type m)
      (insert-Unique r.tool_name r.permission_type m u)

abbrev pub OptionUnique : Option PermissionManager → Type 0
OptionUnique none = Unit
OptionUnique (some pm) = Unique pm.rules

new-Unique : (flag : Bool) (file : RulesFile) → OptionUnique (new_permission_manager flag file)
unfolding new_permission_manager
new-Unique flag missing = tt
new-Unique flag broken = tt
new-Unique flag (stored rs) = put-Unique rs [] tt

set-Unique :
    (saved : Bool) (tool : String) (p : PermissionType) (pm : PermissionManager) (file : RulesFile)
    → Unique pm.rules
    → Unique (set_permission saved tool p pm file).0.rules
unfolding set_permission
set-Unique true tool p pm file u = insert-Unique tool p pm.rules u
set-Unique false tool p pm file u = insert-Unique tool p pm.rules u

clear-Unique :
    (saved : Bool) (pm : PermissionManager) (file : RulesFile)
    → Unique (clear_rules saved pm file).0.rules
unfolding clear_rules
clear-Unique true pm file = tt
clear-Unique false pm file = tt

-- The rules of a manager name no tool twice: not when they come from a file, whatever it holds, and
-- not after a rule is set or the rules are cleared, whether or not the file could be written.
pub rules-Unique :
    (flag saved : Bool) (file : RulesFile) (tool : String) (p : PermissionType)
    (pm : PermissionManager)
    → OptionUnique (new_permission_manager flag file)
      × (Unique pm.rules → Unique (set_permission saved tool p pm file).0.rules)
      × Unique (clear_rules saved pm file).0.rules
rules-Unique flag saved file tool p pm =
    (new-Unique flag file, set-Unique saved tool p pm file, clear-Unique saved pm file)

or_else : Option PermissionType → Option PermissionType → Option PermissionType
or_else (some p) o = some p
or_else none o = o

lookup-put :
    (rules m : List (String × PermissionType)) (k : String)
    → Unique rules
    → lookup k (put_rules (save_rules rules) m) ≡ or_else (lookup k rules) (lookup k m)
unfolding put_rules save_rules or_else lookup
lookup-put [] m k u = refl
lookup-put ((j, p) ∷ rules) m k u =
    ground (arith, lookup-put rules (insert j p m) k u.1, lookup-insert j k p m, eq_iff j k)

lookup-reload :
    (rules : List (String × PermissionType)) (k : String)
    → Unique rules
    → lookup k (put_rules (save_rules rules) []) ≡ lookup k rules
unfolding lookup or_else
lookup-reload rules k u = ground (arith, lookup-put rules [] k u)

-- A rule that is set holds from then on, also if the file could not be written, which is reported;
-- the rules of all other tools stay as they are.
pub rule-set_permission :
    (saved : Bool) (tool other : String) (p : PermissionType) (pm : PermissionManager)
    (file : RulesFile)
    → let s = set_permission saved tool p pm file in
      (rule_of s.0 other ≡ (if str_eq tool other then some p else rule_of pm other)) × (s.2 ≡ saved)
unfolding set_permission
rule-set_permission true tool other p pm file = (lookup-insert tool other p pm.rules, refl)
rule-set_permission false tool other p pm file = (lookup-insert tool other p pm.rules, refl)

-- Rules that were saved decide the same after a restart: a manager that reads the file back gives
-- every tool the answer that the manager gave that wrote it.
pub check-reload :
    (tool other : String) (p : PermissionType) (pm : PermissionManager) (file : RulesFile)
    → Unique pm.rules
    → let s = set_permission true tool p pm file in
      (pm' : PermissionManager) × (new_permission_manager pm.always_approve s.1 ≡ some pm')
      × (check_permission pm' other ≡ check_permission s.0 other)
unfolding set_permission new_permission_manager check_permission
check-reload tool other p pm file u =
    let rules = insert tool p pm.rules in
    (
      record { rules = put_rules (save_rules rules) []; always_approve = pm.always_approve },
      refl,
      ap (λ o. if pm.always_approve then check_of true "always_approved" else check_rule o other)
          (lookup-reload rules other (insert-Unique tool p pm.rules u)),
    )
