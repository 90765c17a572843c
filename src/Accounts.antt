-- ===== src/Accounts.antt =====
-- api/authstore/operator_identity.go, identity.go and user_auth.go: invites, operator accounts,
-- external identities, and the users they belong to.
pub mod Invites
pub mod Steps
pub mod Once
pub mod Granted
pub mod Refused
mod Tests
use go_lab.Prelude.{
  ℕ, ◌+◌, ◌<◌, ℤ, pos, is_positive, int_eq, Text, codes, text_eq, is_empty, Bool, true, false, ◌&&◌,
  ◌||◌, not, Option, none, some, List, [], ◌∷◌, ◌-◌, is_some, any, take, leb, ltb, ◌==◌,
  if◌then◌else◌,
}
use go_lab.Sql.{Call, Outcome, answered, Result, ok, err, settle, null_str}
use go_lab.Sql.Rows.{find, update, matching, insert}
use go_lab.Rbac.Roles.{PlatformRole, AccountRole}

-- `no_rows` is `sql.ErrNoRows`, `invalid` one of `errors.New` for bad arguments.
pub data AccountError : Type 0 where
  invite_not_found invite_used invite_expired email_mismatch role_not_found email_exists :
      AccountError
  no_rows nil_db invalid driver : AccountError

-- A row of `users`.
pub record UserRow : Type 0 where
  pub id : ℤ
  pub name : Text
  pub pennies : ℤ
  pub deleted_at : Option ℕ

-- A row of `operator_accounts`.
pub record Account : Type 0 where
  pub id : ℕ
  pub linked_user_id : ℤ
  pub email : Text
  pub password_hash : Text
  pub status : Text
  pub invited_by : Option ℤ
  pub last_login_at : Option ℕ

-- A row of `operator_invites`.
pub record Invite : Type 0 where
  pub id : ℕ
  pub token_hash : Text
  pub email : Text
  pub display_name : Text
  pub role_name : Text
  pub linked_user_id : Option ℤ
  pub invited_by : Option ℤ
  pub expires_at : ℕ
  pub consumed_at : Option ℕ
  pub meta_json : Option Text

-- A row of `user_identities`.
pub record Identity : Type 0 where
  pub user_id : ℤ
  pub issuer : Text
  pub subject : Text

-- The tables. The counters of AUTO_INCREMENT go on from `next_…`; a number that a rollback has
-- used up is not skipped here.
pub record Db : Type 0 where
  pub connected : Bool
  pub users : List UserRow
  pub accounts : List Account
  pub invites : List Invite
  pub identities : List Identity
  pub roles : List PlatformRole
  pub account_roles : List AccountRole
  pub next_user : ℕ
  pub next_account : ℕ
  pub next_invite : ℕ

abbrev pub is_user : ℤ → UserRow → Bool
is_user uid u = int_eq u.id uid

-- `u.deleted_at IS NULL` of the user with that id.
abbrev pub is_present : Db → ℤ → Bool
is_present db uid = any (λ u. int_eq u.id uid && not (is_some u.deleted_at)) db.users

abbrev is_active : Db → Account → Bool
is_active db a = text_eq a.status (codes "active") && is_present db a.linked_user_id

abbrev pub new_user : Db → Text → UserRow
new_user db name = record { id = pos db.next_user; name = name; pennies = pos 0; deleted_at = none }

abbrev pub add_user : Text → Db → Db
add_user name db = record db {
  users = insert (new_user db name) db.users;
  next_user = db.next_user + 1;
}

-- `collates` is the database's `=` on texts, which depends on the column's collation.
module _ (collates : Text → Text → Bool) where
  abbrev has_email : Text → Account → Bool
  has_email email a = collates a.email email

  abbrev pub is_login_of : Db → Text → Account → Bool
  is_login_of db email a = has_email email a && is_active db a

  -- `GetUserAuthByEmail`; a hash is never NULL in the schema.
  unfoldable pub user_auth_by_email : Call → Text → Db → Result AccountError (ℤ × Text)
  user_auth_by_email c email db =
      if not (answered (c.driver 0))
      then err driver
      else elim (find (is_login_of db email) db.accounts) [
        | none ↦ err no_rows
        | some a ↦ ok (a.linked_user_id, a.password_hash)
      ]

  abbrev touched : Call → Account → Account
  touched c a = record a { last_login_at = some c.db_now }

  -- `TouchOperatorLoginByEmail`
  unfoldable pub touch_login : Call → Text → Db → Result AccountError (Unit {0}) × Db
  touch_login c email db = if not db.connected then (err nil_db, db) else (
    if answered (c.driver 0) then ok tt else err driver,
    record db {
      accounts = settle (c.driver 0) db.accounts (update (has_email email) (touched c) db.accounts);
    },
  )

  -- What makes an account's INSERT fail: a unique key, or a user that is not there.
  abbrev pub clashes : Text → ℤ → Account → Bool
  clashes email uid a = collates a.email email || int_eq a.linked_user_id uid

  abbrev pub new_account : Db → ℤ → Text → Text → Option ℤ → Account
  new_account db uid email hash invited_by = record {
    id = db.next_account;
    linked_user_id = uid;
    email = email;
    password_hash = hash;
    status = codes "active";
    invited_by = invited_by;
    last_login_at = none;
  }

  abbrev pub add_account : ℤ → Text → Text → Option ℤ → Db → Db
  add_account uid email hash invited_by db = record db {
    accounts = insert (new_account db uid email hash invited_by) db.accounts;
    next_account = db.next_account + 1;
  }

  -- `CreateRegisteredUser`: BEGIN is statement 0, the INSERT of the user 1 with its id 2, that of
  -- the account 3, the COMMIT 4.
  unfoldable pub create_registered_user :
      Call → Text → Text → Text → Db → Result AccountError ℤ × Db
  create_registered_user c email name hash db =
      let uid = pos db.next_user in
      if not (answered (c.driver 0) && (answered (c.driver 1) && answered (c.driver 2)))
      then (err driver, db)
      else if any (clashes email uid) db.accounts
      then (err driver, db)
      else if not (answered (c.driver 3))
      then (err driver, db)
      else (
        if answered (c.driver 4) then ok uid else err driver,
        settle (c.driver 4) db (add_account uid email hash none (add_user name db)),
      )

-- The columns of the two tables that GetUserPasswordHashByID joins, from the schema.
abbrev account_columns : List Text
account_columns =
    codes "id"
    ∷ codes "linked_user_id"
    ∷ codes "email"
    ∷ codes "password_hash"
    ∷ codes "status"
    ∷ codes "invited_by_user_id"
    ∷ codes "last_login_at"
    ∷ codes "created_at"
    ∷ codes "updated_at"
    ∷ []

abbrev user_columns : List Text
user_columns =
    codes "id"
    ∷ codes "name"
    ∷ codes "email"
    ∷ codes "password_hash"
    ∷ codes "pennies"
    ∷ codes "created_at"
    ∷ codes "updated_at"
    ∷ codes "deleted_at"
    ∷ []

-- A column without its table's name that both tables have, which MySQL refuses (error 1052).
abbrev is_ambiguous : Text → List Text → List Text → Bool
is_ambiguous column xs ys = any (text_eq column) xs && any (text_eq column) ys

abbrev is_account_of : Db → ℤ → Account → Bool
is_account_of db uid a = int_eq a.linked_user_id uid && is_active db a

-- `GetUserPasswordHashByID`, whose SELECT names the column `password_hash` alone.
unfoldable pub password_hash_by_id : Call → ℤ → Db → Result AccountError Text
password_hash_by_id c uid db =
    if not (answered (c.driver 0))
    then err driver
    else if is_ambiguous (codes "password_hash") account_columns user_columns
    then err driver
    else elim (find (is_account_of db uid) db.accounts) [
      | none ↦ err no_rows
      | some a ↦ ok a.password_hash
    ]

abbrev set_hash : Text → Account → Account
set_hash hash a = record a { password_hash = hash }

-- The rows whose hash changes.
abbrev takes_hash : Db → ℤ → Text → Account → Bool
takes_hash db uid hash a =
    int_eq a.linked_user_id uid
    && (is_present db a.linked_user_id && not (text_eq a.password_hash hash))

-- `UpdateUserPasswordHash`: the UPDATE is statement 0, its count 1.
unfoldable pub update_password_hash : Call → ℤ → Text → Db → Result AccountError (Unit {0}) × Db
update_password_hash c uid hash db = (
  if not (answered (c.driver 0) && answered (c.driver 1))
      then err driver
      else if matching (takes_hash db uid hash) db.accounts == 0
      then err no_rows
      else ok tt,
  record db {
    accounts =
        settle (c.driver 0) db.accounts
          (update (takes_hash db uid hash) (set_hash hash) db.accounts);
  },
)

-- The first `n` characters of a text: a byte between 128 and 191 goes on with a character of UTF-8.
abbrev is_continuation : ℕ → Bool
is_continuation b = leb 128 b && ltb b 192

unfoldable pub first_chars : ℕ → Text → Text
first_chars n [] = []
first_chars n (b ∷ s) =
    let left = if is_continuation b then n else n - 1 in
    let rest = first_chars left s in if n == 0 && not (is_continuation b) then [] else b ∷ rest

-- The name of a new user: at most 100 bytes, with a default for none.
abbrev short_name : Text → Text → Text
short_name default_name name = take 100 (if is_empty name then default_name else name)

abbrev add_identity : ℤ → Text → Text → Db → Db
add_identity uid issuer subject db = record db {
  identities = insert (record { user_id = uid; issuer = issuer; subject = subject }) db.identities;
}

abbrev new_identity : Text → Text → Text → Db → Db
new_identity issuer subject name db =
    add_identity (pos db.next_user) issuer subject
      (add_user (short_name (codes "OIDC user") name) db)

module _ (collates : Text → Text → Bool) where
  abbrev pub is_identity : Text → Text → Identity → Bool
  is_identity issuer subject i = collates i.issuer issuer && collates i.subject subject

  -- What the unique key on the first 255 characters of issuer and subject refuses.
  abbrev clashes_identity : Text → Text → Identity → Bool
  clashes_identity issuer subject i =
      collates (first_chars 255 i.issuer) (first_chars 255 issuer)
      && collates (first_chars 255 i.subject) (first_chars 255 subject)

  -- `LocalUserIDForIdentity`
  unfoldable pub local_user_id : Call → Text → Text → Db → Result AccountError (Option ℤ)
  local_user_id c issuer subject db =
      if not db.connected
      then err nil_db
      else if not (answered (c.driver 0))
      then err driver
      else elim (find (is_identity issuer subject) db.identities) [
        | none ↦ ok none
        | some i ↦ ok (some i.user_id)
      ]

  -- `EnsureOIDCUser`: BEGIN is statement 0, the SELECT 1, the COMMIT of what was found 2; else the
  -- INSERT of the user is 2 with its id 3, that of the identity 4, the COMMIT 5.
  unfoldable pub ensure_oidc_user : Call → Text → Text → Text → Db → Result AccountError ℤ × Db
  ensure_oidc_user c issuer subject name db =
      if not db.connected
      then (err nil_db, db)
      else if is_empty issuer || is_empty subject
      then (err invalid, db)
      else if not (answered (c.driver 0) && answered (c.driver 1))
      then (err driver, db)
      else elim (find (is_identity issuer subject) db.identities) [
        | some i ↦ (if answered (c.driver 2) then ok i.user_id else err driver, db)
        | none ↦
            if not (answered (c.driver 2) && answered (c.driver 3))
            then (err driver, db)
            else if any (clashes_identity issuer subject) db.identities
            then (err driver, db)
            else if not (answered (c.driver 4))
            then (err driver, db)
            else (
              if answered (c.driver 5) then ok (pos db.next_user) else err driver,
              settle (c.driver 5) db (new_identity issuer subject name db),
            )
      ]
