-- ===== src/Accounts/Invites.antt =====
-- CreateOperatorInvite and AcceptOperatorInvite of api/authstore/operator_identity.go.
use go_lab.Prelude.{
  ℕ, ◌+◌, ℤ, pos, is_positive, Text, codes, text_eq, is_empty, Bool, true, ◌&&◌, not, Option, none,
  some, is_some, any, take, ltb, ◌==◌, if◌then◌else◌,
}
use go_lab.Strings.{trim_space, equal_fold}
use go_lab.Sql.{Call, Outcome, answered, Result, ok, err, settle, null_str}
use go_lab.Sql.Rows.{find, update, insert}
use go_lab.Rbac.Roles.{PlatformRole}
use go_lab.Accounts.{
  AccountError, invite_not_found, invite_used, invite_expired, email_mismatch, role_not_found,
  email_exists, nil_db, driver, Invite, Db, is_user, add_user, add_account, clashes,
}

abbrev pub has_hash : Text → Invite → Bool
has_hash h i = text_eq i.token_hash h

abbrev pub new_invite : ℕ → Text → Text → Text → Text → Option ℤ → Option ℤ → ℕ → Text → Invite
new_invite id hash email name role linked invited_by expires_at meta = record {
  id = id;
  token_hash = hash;
  email = email;
  display_name = name;
  role_name = role;
  linked_user_id = linked;
  invited_by = invited_by;
  expires_at = expires_at;
  consumed_at = none;
  meta_json = null_str meta;
}

abbrev insert_invite : Outcome → Invite → Db → Db
insert_invite o i db = record db {
  invites = settle o db.invites (insert i db.invites);
  next_invite = settle o db.next_invite (db.next_invite + 1);
}

-- `CreateOperatorInvite`; the unique key on `token_hash` refuses a hash that is there.
unfoldable pub create_invite :
    Call
    → Text
    → Text
    → Text
    → Text
    → Option ℤ
    → Option ℤ
    → ℕ
    → Text
    → Db
    → Result AccountError (Unit {0}) × Db
create_invite c hash email name role linked invited_by expires_at meta db =
    if not db.connected
    then (err nil_db, db)
    else if any (has_hash hash) db.invites
    then (err driver, db)
    else (
      if answered (c.driver 0) then ok tt else err driver,
      insert_invite (c.driver 0)
          (new_invite db.next_invite hash email name role linked invited_by expires_at meta) db,
    )

-- `OperatorInviteResult`
pub record InviteResult : Type 0 where
  pub linked_user_id : ℤ
  pub email : Text
  pub role_name : Text

abbrev or_else : Text → Text → Text
or_else name other = if is_empty name then other else name

-- The name of the account's user: the one that was given, the invite's, or "Operator".
abbrev pub display_name : Text → Invite → Text
display_name given i =
    take 100 (or_else (or_else (trim_space given) (trim_space i.display_name)) (codes "Operator"))

abbrev pub positive_id : Option ℤ → Option ℤ
positive_id none = none
positive_id (some uid) = if is_positive uid then some uid else none

-- The user that the account is for, and the tables with that user in them.
abbrev pub user_of : Option ℤ → Text → Db → ℤ × Db
user_of none name db = (pos db.next_user, add_user name db)
user_of (some uid) name db = (uid, db)

abbrev user_answered : Call → Option ℤ → Bool
user_answered c none = answered (c.driver 3) && answered (c.driver 4)
user_answered c (some _) = true

abbrev pub is_open : ℕ → Invite → Bool
is_open id i = i.id == id && not (is_some i.consumed_at)

abbrev pub set_consumed : Call → Invite → Invite
set_consumed c i = record i { consumed_at = some c.db_now }

abbrev add_role : ℕ → ℕ → Db → Db
add_role account role db = record db {
  account_roles = insert (record { account = account; role = role }) db.account_roles;
}

abbrev consume_invite : Call → ℕ → Db → Db
consume_invite c id db = record db { invites = update (is_open id) (set_consumed c) db.invites }

module _ (collates : Text → Text → Bool) where
  -- The tables after the INSERTs and the UPDATE of AcceptOperatorInvite.
  abbrev pub granted : Call → Invite → ℤ → Text → PlatformRole → Db → Db
  granted c i uid hash role db = consume_invite c i.id (
      add_role db.next_account role.id
        (add_account collates uid i.email hash (positive_id i.invited_by) db))

  -- From the check of the accounts on (statement 5): the INSERT of the account 6 with its id 7, that
  -- of its role 8, the UPDATE of the invite 9, the COMMIT 10. `before` is what a rollback restores.
  unfoldable pub accept_for :
      Call → Invite → Text → PlatformRole → Db → ℤ × Db → Result AccountError InviteResult × Db
  accept_for c i hash role before (uid, db) =
      if not (answered (c.driver 5))
      then (err driver, before)
      else if any (clashes collates i.email uid) db.accounts
      then (err email_exists, before)
      else if not (any (is_user uid) db.users)
      then (err driver, before)
      else if not (
          answered (c.driver 6)
          && (answered (c.driver 7) && (answered (c.driver 8) && answered (c.driver 9))))
      then (err driver, before)
      else (
        if answered (c.driver 10)
            then ok (record { linked_user_id = uid; email = i.email; role_name = i.role_name })
            else err driver,
        settle (c.driver 10) before (granted c i uid hash role db),
      )

  -- The role is statement 2, the INSERT of a user 3 with its id 4.
  unfoldable pub accept_row :
      Call → Invite → Text → Text → Text → Db → Result AccountError InviteResult × Db
  unfolding accept_for
  accept_row c i input_email hash given_name db =
      if is_some i.consumed_at
      then (err invite_used, db)
      else if not (ltb c.now i.expires_at)
      then (err invite_expired, db)
      else if not (equal_fold (trim_space i.email) (trim_space input_email))
      then (err email_mismatch, db)
      else if not (answered (c.driver 2))
      then (err driver, db)
      else elim (find (λ (r : PlatformRole). collates r.name i.role_name) db.roles) [
        | none ↦ (err role_not_found, db)
        | some role ↦
            if not (user_answered c (positive_id i.linked_user_id))
            then (err driver, db)
            else accept_for c i hash role db
                (user_of (positive_id i.linked_user_id) (display_name given_name i) db)
      ]

  -- `AcceptOperatorInvite`: BEGIN is statement 0, SELECT … FOR UPDATE is 1.
  unfoldable pub accept_invite :
      Call → Text → Text → Text → Text → Db → Result AccountError InviteResult × Db
  unfolding accept_row
  accept_invite c token_hash input_email hash given_name db =
      if not db.connected
      then (err nil_db, db)
      else if not (answered (c.driver 0) && answered (c.driver 1))
      then (err driver, db)
      else elim (find (has_hash token_hash) db.invites) [
        | none ↦ (err invite_not_found, db)
        | some i ↦ accept_row c i input_email hash given_name db
      ]
