-- ===== src/Accounts/Granted.antt =====
-- What an accepted invite is worth: the permissions of its role, as the middleware checks them.
use go_lab.Prelude.{
  ◌≡◌, refl, sym, ◌∙◌, ap, ℤ, Text, text_eq, Bool, true, false, ◌&&◌, Option, none, some, List, [],
  ◌∷◌, arith, any, map, Bool-cases, ◌==◌, inl, inr, int_eq_iff,
}
use go_lab.Sql.{Call, answered, ok}
use go_lab.Sql.Rows.{find, insert}
use go_lab.Session.{User}
use go_lab.Rbac.{permissions_for_role, grants}
use go_lab.Rbac.Roles.{
  PlatformRole, AccountRole, OperatorAccount, UserRole, RoleDb, has_role, is_active_account,
}
use go_lab.Http.{auth_user_id, passes}
use go_lab.Rbac.Gate.{is_allowed, require_permission, require_permission-passes}
use go_lab.Accounts.{Invite, new_account, UserRow, Account, Db, is_present}
use go_lab.Accounts.Invites.{
  InviteResult, display_name, positive_id, user_of, granted, accept_invite,
}
use go_lab.Accounts.Once.{accept-Accepted}

abbrev pub user_of_row : UserRow → User
user_of_row u = record { id = u.id; deleted_at = u.deleted_at }

abbrev pub account_of_row : Account → OperatorAccount
account_of_row a = record { id = a.id; linked_user_id = some a.linked_user_id; status = a.status }

-- The tables as the queries of roles see them.
abbrev pub role_db : List UserRole → Db → RoleDb
role_db user_roles db = record {
  connected = db.connected;
  has_operator_tables = true;
  roles = db.roles;
  account_roles = db.account_roles;
  accounts = map account_of_row db.accounts;
  users = map user_of_row db.users;
  user_roles = user_roles;
}

module _ {ℓ} {A : Type ℓ} where
  pub any-insert : (p : A → Bool) (a : A) (xs : List A) → p a ≡ true → any p (insert a xs) ≡ true
  any-insert p a [] h = rw h
  any-insert p a (x ∷ xs) h = ground (arith, any-insert p a xs h)

  any-find :
      (q p : A → Bool) (xs : List A) {x : A} → find q xs ≡ some x → p x ≡ true → any p xs ≡ true
  any-find q p [] e h = absurd (ground arith)
  any-find q p (y ∷ xs) {x} e h = elim (Bool-cases (q y)) [
    | inl hit ↦ let same : y ≡ x = ground arith in let py : p y ≡ true = rw same h in rw py
    | inr miss ↦
        let rest : any p xs ≡ true = any-find q p xs (ground arith) h in ground (arith, rest)
  ]

  pub none-any : (p : A → Bool) (xs : List A) → ((x : A) → p x ≡ false) → any p xs ≡ false
  none-any p [] h = refl
  none-any p (x ∷ xs) h = ground (arith, h x, none-any p xs h)

pub any-map :
    {A B : Type 0} (p : B → Bool) (f : A → B) (xs : List A)
    → any p (map f xs) ≡ any (λ x. p (f x)) xs
any-map p f [] = refl
any-map p f (x ∷ xs) = ground (arith, any-map p f xs)

-- Whether a user is there does not depend on how the tables are seen.
pub present-role_db :
    (user_roles : List UserRole) (db : Db) (uid : ℤ)
    → any (go_lab.Rbac.Roles.is_present uid) (role_db user_roles db).users ≡ is_present db uid
present-role_db user_roles db uid = any-map (go_lab.Rbac.Roles.is_present uid) user_of_row db.users

module _ (collates : Text → Text → Bool) where
  -- The account that an acceptance adds has the role.
  has_role-granted :
      (user_roles : List UserRole) (c : Call) (i : Invite) (uid : ℤ) (hash : Text)
      (role : PlatformRole) (db : Db)
      → has_role (role_db user_roles (granted collates c i uid hash role db)) uid role
        ≡ is_present db uid
  unfolding text_eq
  has_role-granted user_roles c i uid hash role db =
      let db' = granted collates c i uid hash role db in
      let itself = (int_eq_iff uid uid).1 refl in
      let account : any (λ oa. oa.id == db.next_account && is_active_account uid oa)
            (map account_of_row db'.accounts)
          ≡ true =
        any-map (λ oa. oa.id == db.next_account && is_active_account uid oa) account_of_row
          db'.accounts
        ∙ any-insert (λ a. a.id == db.next_account && is_active_account uid (account_of_row a))
            (new_account collates db uid i.email hash (positive_id i.invited_by)) db.accounts
            (ground (arith, itself)) in
      let links : any
            (λ (oar : AccountRole).
              oar.role == role.id
              && any (λ oa. oa.id == oar.account && is_active_account uid oa)
                  (map account_of_row db'.accounts))
            db'.account_roles
          ≡ true =
        any-insert
          (λ (oar : AccountRole).
            oar.role == role.id
            && any (λ oa. oa.id == oar.account && is_active_account uid oa)
                (map account_of_row db'.accounts))
          (record { account = db.next_account; role = role.id }) db.account_roles
          (ground (arith, account)) in
      let present = present-role_db user_roles db' uid in ground (arith, links, present)

  allowed-granted :
      (user_roles : List UserRole) (permission : Text) (c : Call) (i : Invite) (uid : ℤ)
      (hash : Text) (role : PlatformRole) (db : Db) (q : PlatformRole → Bool)
      → find q db.roles ≡ some role
      → any (grants permission) (permissions_for_role role.name) ≡ true
      → is_allowed
          (role_db user_roles (granted collates c i uid hash role db))
          permission
          (some uid)
        ≡ is_present db uid
  allowed-granted user_roles permission c i uid hash role db q e g =
      let db' = granted collates c i uid hash role db in
      let p = λ (r : PlatformRole).
        has_role (role_db user_roles db') uid r
        && any (grants permission) (permissions_for_role r.name) in
      elim (Bool-cases (is_present db uid)) [
        | inl here ↦
            let has = has_role-granted user_roles c i uid hash role db ∙ here in
            let holds : p role ≡ true = ground (arith, has, g) in
            any-find q p db.roles e holds ∙ sym here
        | inr gone ↦
            let absent = present-role_db user_roles db' uid ∙ gone in
            none-any p db.roles (λ r. ground (arith, absent)) ∙ sym gone
      ]

  user_of-same :
      (o : Option ℤ) (name : Text) (db : Db)
      → ((user_of o name db).1.roles ≡ db.roles) × ((user_of o name db).1.connected ≡ db.connected)
  user_of-same none name db = (refl, refl)
  user_of-same (some uid) name db = (refl, refl)

  -- After an acceptance that succeeded, of an invite whose role grants a permission, a connected
  -- database that answers lets the user of the new account pass the check of that permission exactly
  -- if the user is not deleted.
  pub accept_grants :
      (c c' : Call) (h email hash name : Text) (db : Db) (res : InviteResult) (role : PlatformRole)
      (user_roles : List UserRole) (permission auth_subject : Text)
      → (accept_invite collates c h email hash name db).0 ≡ ok res
      → find (λ (r : PlatformRole). collates r.name res.role_name) db.roles ≡ some role
      → any (grants permission) (permissions_for_role role.name) ≡ true
      → auth_user_id auth_subject ≡ some res.linked_user_id
      → db.connected ≡ true
      → answered (c'.driver 0) ≡ true
      → passes (
          require_permission c'
            (some (role_db user_roles (accept_invite collates c h email hash name db).1))
            permission
            auth_subject)
        ≡ is_present (accept_invite collates c h email hash name db).1 res.linked_user_id
  accept_grants c c' h email hash name db res role user_roles permission auth_subject done found g
        subject connected live =
      let a = accept-Accepted collates c h email hash name db res done in
      let user = user_of (positive_id a.invite.linked_user_id) (display_name name a.invite) db in
      let (roles, same) =
        user_of-same (positive_id a.invite.linked_user_id) (display_name name a.invite) db in
      let uid : res.linked_user_id ≡ user.0 =
        ap (λ (r : InviteResult). r.linked_user_id) a.result in
      let named : res.role_name ≡ a.invite.role_name =
        ap (λ (r : InviteResult). r.role_name) a.result in
      let its : a.role ≡ role = ground (arith, a.has_role, rw named at found) in
      let here : find (λ (r : PlatformRole). collates r.name a.invite.role_name) user.1.roles
          ≡ some a.role =
        rw roles a.has_role in
      let allowed =
        allowed-granted user_roles permission c a.invite user.0 hash a.role user.1
          (λ (r : PlatformRole). collates r.name a.invite.role_name) here (rw its g) in
      let db' = (accept_invite collates c h email hash name db).1 in
      let joined : db'.connected ≡ true = ap (λ (d : Db). d.connected) a.left ∙ same ∙ connected in
      require_permission-passes c' (role_db user_roles db') permission auth_subject joined refl live
      ∙ rw (subject, uid, a.left) allowed
