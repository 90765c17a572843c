-- ===== src/Rbac/Gate.antt =====
-- RequirePlatformPermission of api/middleware/rbac.go and RequireHumanUser of
-- api/middleware/human.go.
use go_lab.Prelude.{
  ◌≡◌, refl, ℤ, ◌∙◌, map, filter, Text, Bool, true, false, ◌&&◌, not, Option, none, some, List,
  arith, any, if◌then◌else◌,
}
use go_lab.Strings.{trim_space, has_prefix}
use go_lab.Sql.{Call, answered, Result, ok, err}
use go_lab.Http.{forbidden, internal, Gate, next, abort, passes, auth_user_id, user_prefix}
use go_lab.Http.Subject.{auth_user_id_positive}
use go_lab.Rbac.{permissions_for_role, grants, has_permission}
use go_lab.Rbac.Roles.{
  RoleError, RoleDb, PlatformRole, has_role, list_role_names, effective_roles, sort, compact,
  any-sort, any-compact, any-names,
}

abbrev permitted : Text → Result RoleError (List Text) → Gate (List Text)
permitted permission (err e) = abort 500 internal
permitted permission (ok roles) =
    if not (has_permission roles permission) then abort 403 forbidden else next roles

-- `RequirePlatformPermission`, which sets the roles.
unfoldable pub require_permission : Call → Option RoleDb → Text → Text → Gate (List Text)
require_permission c store permission auth_subject = elim (auth_user_id auth_subject) [
  | none ↦ abort 403 forbidden
  | some uid ↦ permitted permission (effective_roles c store uid)
]

-- `RequireHumanUser`
unfoldable pub require_human : Text → Gate (Unit {0})
require_human auth_subject =
    let sub = trim_space auth_subject in
    if not (has_prefix sub user_prefix) then abort 403 forbidden else next tt

-- An active operator account of the user, who is not deleted, has a role that grants it.
abbrev pub is_allowed : RoleDb → Text → Option ℤ → Bool
is_allowed db permission none = false
is_allowed db permission (some uid) =
    any (λ r. has_role db uid r && any (grants permission) (permissions_for_role r.name)) db.roles

-- With a store that is connected, that has the operator tables and that answers, a request passes
-- the check exactly when its subject is a user who is not deleted and to whom an active operator
-- account is linked that has a role which grants the permission.
pub require_permission-passes :
    (c : Call) (db : RoleDb) (permission auth_subject : Text)
    → db.connected ≡ true
    → db.has_operator_tables ≡ true
    → answered (c.driver 0) ≡ true
    → passes (require_permission c (some db) permission auth_subject)
      ≡ is_allowed db permission (auth_user_id auth_subject)
unfolding require_permission effective_roles list_role_names has_permission
require_permission-passes c db permission auth_subject a b d = go (auth_user_id auth_subject) refl
  where
    go :
        (user : Option ℤ)
        → auth_user_id auth_subject ≡ user
        → passes (require_permission c (some db) permission auth_subject)
          ≡ is_allowed db permission user
    go none e = ground (arith, e)
    go (some uid) e =
        let positive = auth_user_id_positive auth_subject uid e in
        let q = λ (name : Text). any (grants permission) (permissions_for_role name) in
        let names = map (λ (r : PlatformRole). r.name) (filter (has_role db uid) db.roles) in
        let kept : any q (compact (sort (compact (sort names)))) ≡ any q names =
          any-compact q (sort (compact (sort names)))
          ∙ any-sort q (compact (sort names))
          ∙ any-compact q (sort names)
          ∙ any-sort q names in
        let asked = any-names q (has_role db uid) db.roles in
        ground (arith, e, kept, asked, positive)
