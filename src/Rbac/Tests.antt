-- ===== src/Rbac/Tests.antt =====
-- The role table on concrete roles and accounts.
use go_lab.Prelude.{
  ◌≡◌, refl, pos, int_eq, is_positive, codes, text_eq, true, false, none, some, [], ◌∷◌, any,
}
use go_lab.Strings.{trim_space, has_prefix}
use go_lab.Strconv.{atoi}
use go_lab.Sql.{steady}
use go_lab.Http.{passes, auth_user_id}
use go_lab.Rbac.Perm
use go_lab.Rbac.{has_permission, permissions_for_role}
use go_lab.Rbac.Roles.{RoleDb}
use go_lab.Rbac.Policy.{is_operator_or, duties}
use go_lab.Rbac.Gate.{require_permission, is_allowed, require_permission-passes}

duties_example :
    let roles = codes "support" ∷ codes "security_admin" ∷ [] in
    (has_permission roles Perm.backups_restore_approve
      ≡ any (is_operator_or (codes "security_admin")) roles)
    × (has_permission roles Perm.backups_restore_fulfill
        ≡ any (is_operator_or (codes "security_admin")) roles)
    × (has_permission roles Perm.users_delete ≡ any (is_operator_or (codes "security_admin")) roles)
    × (has_permission roles Perm.security_write
        ≡ any (is_operator_or (codes "security_admin")) roles)
    × (has_permission roles Perm.audit_write ≡ any (is_operator_or (codes "security_admin")) roles)
    × (has_permission roles Perm.backups_restore_request
        ≡ any (is_operator_or (codes "support")) roles)
duties_example = duties (codes "support" ∷ codes "security_admin" ∷ [])

-- User 3 has an active account with the role "support".
abbrev desk : RoleDb
desk = record {
  connected = true;
  has_operator_tables = true;
  roles =
      record { id = 1; name = codes "operator" } ∷ record { id = 2; name = codes "support" } ∷ [];
  account_roles = record { account = 5; role = 2 } ∷ [];
  accounts = record { id = 5; linked_user_id = some (pos 3); status = codes "active" } ∷ [];
  users = record { id = pos 3; deleted_at = none } ∷ [];
  user_roles = [];
}

may_write_cases : is_allowed desk Perm.cases_write (auth_user_id (codes "user:3")) ≡ true
unfolding auth_user_id trim_space has_prefix atoi is_positive int_eq text_eq permissions_for_role
may_write_cases = refl

may_not_approve :
    is_allowed desk Perm.backups_restore_approve (auth_user_id (codes "user:3")) ≡ false
unfolding auth_user_id trim_space has_prefix atoi is_positive int_eq text_eq permissions_for_role
may_not_approve = refl

require_permission-passes_example :
    passes (require_permission (steady 1 1) (some desk) Perm.cases_write (codes "user:3"))
    ≡ is_allowed desk Perm.cases_write (auth_user_id (codes "user:3"))
require_permission-passes_example =
    require_permission-passes (steady 1 1) desk Perm.cases_write (codes "user:3") refl refl refl
