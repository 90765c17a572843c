-- ===== src/Login/Invited.antt =====
-- AcceptOperatorInvite of the store with a database that answers, and the account behind it.
use go_lab.Prelude.{
  ℕ, ◌<◌, ◌≡◌, refl, pos, int_eq, int_eq_iff, Text, text_eq, Bool, true, false, ◌&&◌, not, none,
  some, arith, any, is_some,
}
use go_lab.Strings.{trim_space, equal_fold}
use go_lab.Sql.{ok, steady}
use go_lab.Sql.Rows.{find, insert, no_match}
use go_lab.Sql.Keys.{find-insert_absent}
use go_lab.Rbac.Roles.{PlatformRole}
use go_lab.Accounts.{
  Invite, Db, is_user, is_present, is_login_of, new_user, add_user, clashes, new_account,
  user_auth_by_email,
}
use go_lab.Accounts.Invites.{
  has_hash, display_name, positive_id, granted, accept_for, accept_row, accept_invite,
}
use go_lab.Accounts.Granted.{any-insert}

module _ (collates : Text → Text → Bool) (now db_now : ℕ) (i : Invite) (role : PlatformRole)
    (stored name : Text) where
  -- The tables after the acceptance, where the invite makes a new user.
  abbrev pub joined : Db → Db
  joined db =
      granted collates (steady now db_now) i (pos db.next_user) stored role
        (add_user (display_name name i) db)

  pub accept_invite-open :
      (h email : Text) (db : Db)
      → db.connected ≡ true
      → find (has_hash h) db.invites ≡ some i
      → i.consumed_at ≡ none
      → now < i.expires_at
      → equal_fold (trim_space i.email) (trim_space email) ≡ true
      → find (λ (r : PlatformRole). collates r.name i.role_name) db.roles ≡ some role
      → i.linked_user_id ≡ none
      → any (clashes collates i.email (pos db.next_user)) db.accounts ≡ false
      → accept_invite collates (steady now db_now) h email stored name db ≡ (
        ok (record { linked_user_id = pos db.next_user; email = i.email; role_name = i.role_name }),
        joined db,
      )
  unfolding accept_invite accept_row accept_for
  accept_invite-open h email db up found unused live same has_role fresh clear =
      let new = new_user db (display_name name i) in
      let itself = (int_eq_iff (pos db.next_user) (pos db.next_user)).1 refl in
      let there : any (is_user (pos db.next_user)) (insert new db.users) ≡ true =
        any-insert (is_user (pos db.next_user)) new db.users itself in
      ground (arith, up, found, unused, live, same, has_role, fresh, clear, there)

  pub user_auth_by_email-joined :
      (t d : ℕ) (db : Db)
      → collates i.email i.email ≡ true
      → any (clashes collates i.email (pos db.next_user)) db.accounts ≡ false
      → (user_auth_by_email collates (steady t d) i.email (joined db)
          ≡ ok (pos db.next_user, stored))
        × (is_present (joined db) (pos db.next_user) ≡ true)
  unfolding user_auth_by_email text_eq
  user_auth_by_email-joined t d db same clear =
      let uid = pos db.next_user in
      let itself = (int_eq_iff uid uid).1 refl in
      let present : is_present (joined db) uid ≡ true =
        any-insert (λ u. int_eq u.id uid && not (is_some u.deleted_at))
          (new_user db (display_name name i)) db.users (ground (arith, itself)) in
      let absent : any (is_login_of collates (joined db) i.email) db.accounts ≡ false =
        no_match (clashes collates i.email uid) (is_login_of collates (joined db) i.email)
          db.accounts (λ a h. ground (arith, h)) clear in
      let new =
        new_account collates (add_user (display_name name i) db) uid i.email stored
          (positive_id i.invited_by) in
      let found : find (is_login_of collates (joined db) i.email) (joined db).accounts ≡ some new =
        find-insert_absent (is_login_of collates (joined db) i.email) new db.accounts absent
          (ground (arith, same, present)) in
      (ground (arith, found), present)
