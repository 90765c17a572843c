-- ===== src/Accounts/Refused.antt =====
-- AcceptOperatorInvite: the tables behind an error.
use go_lab.Prelude.{◌≡◌, ◌≢◌, refl, ℤ, Text, Bool, Option, none, some, arith}
use go_lab.Sql.{Call, err}
use go_lab.Sql.Rows.{find}
use go_lab.Rbac.Roles.{PlatformRole}
use go_lab.Accounts.{AccountError, driver, Invite, Db}
use go_lab.Accounts.Invites.{
  has_hash, display_name, positive_id, user_of, accept_for, accept_row, accept_invite,
}

module _ (collates : Text → Text → Bool) (c : Call) where
  for_unchanged :
      (i : Invite) (hash : Text) (role : PlatformRole) (before db : Db) (uid : ℤ) (e : AccountError)
      → e ≢ driver
      → (accept_for collates c i hash role before (uid, db)).0 ≡ err e
      → (accept_for collates c i hash role before (uid, db)).1 ≡ before
  unfolding accept_for
  for_unchanged i hash role before db uid e ne h = ground (arith, ne, h)

  row_unchanged :
      (i : Invite) (email hash name : Text) (db : Db) (e : AccountError)
      → e ≢ driver
      → (accept_row collates c i email hash name db).0 ≡ err e
      → (accept_row collates c i email hash name db).1 ≡ db
  unfolding accept_row
  row_unchanged i email hash name db e ne h =
      go (find (λ (r : PlatformRole). collates r.name i.role_name) db.roles) refl
    where
      go :
          (o : Option PlatformRole)
          → find (λ (r : PlatformRole). collates r.name i.role_name) db.roles ≡ o
          → (accept_row collates c i email hash name db).1 ≡ db
      go none q = ground (arith, q)
      go (some r) q =
          let user = user_of (positive_id i.linked_user_id) (display_name name i) db in
          let rest = for_unchanged i hash r db user.1 user.0 e ne in ground (arith, q, h, rest)

  -- An acceptance that is refused with any error but one of the database leaves the tables as they
  -- were, the user included that it has inserted by then for a new account, whatever the driver
  -- answers.
  pub accept_error-unchanged :
      (h email hash name : Text) (db : Db) (e : AccountError)
      → e ≢ driver
      → (accept_invite collates c h email hash name db).0 ≡ err e
      → (accept_invite collates c h email hash name db).1 ≡ db
  unfolding accept_invite
  accept_error-unchanged h email hash name db e ne refused = go (find (has_hash h) db.invites) refl
    where
      go :
          (o : Option Invite)
          → find (has_hash h) db.invites ≡ o
          → (accept_invite collates c h email hash name db).1 ≡ db
      go none q = ground (arith, q)
      go (some i) q =
          let rest = row_unchanged i email hash name db e ne in ground (arith, q, refused, rest)
