-- ===== src/Rbac.antt =====
-- api/platformrbac/permissions.go: what each role may do, and effectivePlatformRoles and
-- RequirePlatformPermission of api/middleware/rbac.go, which ask for it.
pub mod Perm
pub mod Roles
pub mod Policy
pub mod Gate
mod Tests
use go_lab.Prelude.{
  Text, codes, text_eq, Bool, true, false, ◌||◌, List, [], ◌∷◌, any, if◌then◌else◌,
}
use go_lab.Rbac.Perm

abbrev support_permissions : List Text
support_permissions =
    Perm.players_read ∷ Perm.characters_read ∷ Perm.backups_read ∷ Perm.backups_restore_request
    ∷ Perm.economy_read ∷ Perm.audit_read ∷ Perm.support_ack ∷ Perm.security_read ∷ Perm.cases_read
    ∷ Perm.cases_write ∷ Perm.recovery_write ∷ Perm.appeals_resolve ∷ []

abbrev security_admin_permissions : List Text
security_admin_permissions =
    Perm.security_read ∷ Perm.security_write ∷ Perm.audit_read ∷ Perm.audit_write
    ∷ Perm.players_read ∷ Perm.economy_read ∷ Perm.backups_read ∷ Perm.backups_restore_approve
    ∷ Perm.backups_restore_fulfill ∷ Perm.cases_read ∷ Perm.sanctions_write ∷ Perm.appeals_resolve
    ∷ Perm.users_delete ∷ []

abbrev gm_liveops_permissions : List Text
gm_liveops_permissions =
    Perm.players_read ∷ Perm.characters_read ∷ Perm.cases_read ∷ Perm.cases_write
    ∷ Perm.sanctions_write ∷ Perm.recovery_write ∷ Perm.appeals_resolve ∷ Perm.audit_read
    ∷ Perm.support_ack ∷ Perm.security_read ∷ Perm.economy_read ∷ []

-- `PermissionsForRole`: the look-up in `rolePermissions`.
unfoldable pub permissions_for_role : Text → List Text
permissions_for_role role =
    if text_eq role (codes "operator")
    then codes "*" ∷ []
    else if text_eq role (codes "support")
    then support_permissions
    else if text_eq role (codes "security_admin")
    then security_admin_permissions
    else if text_eq role (codes "gm_liveops")
    then gm_liveops_permissions
    else []

abbrev pub grants : Text → Text → Bool
grants required p = text_eq p (codes "*") || text_eq p required

-- `HasPermission`
unfoldable pub has_permission : List Text → Text → Bool
has_permission roles required = any (λ r. any (grants required) (permissions_for_role r)) roles
