-- ===== src/Accounts/Tests.antt =====
-- Invites and accounts on concrete tables.
use go_lab.Rbac.{permissions_for_role}
use go_lab.Prelude.{
  arith, is_positive, ◌≡◌, refl, ◌≢◌, pos, int_eq, codes, text_eq, true, none, some, [], ◌∷◌,
}
use go_lab.Strings.{has_prefix, trim_space, equal_fold}
use go_lab.Strconv.{atoi}
use go_lab.Http.{auth_user_id, passes}
use go_lab.Sql.{steady, ok, err}
use go_lab.Rbac.Gate.{require_permission}
use go_lab.Accounts.{
  invite_used, Db, is_present, user_auth_by_email, password_hash_by_id, update_password_hash,
  local_user_id, ensure_oidc_user, email_exists, driver,
}
use go_lab.Accounts.Invites.{create_invite, InviteResult, accept_for, accept_row, accept_invite}
use go_lab.Accounts.Once.{accept_once}
use go_lab.Accounts.Steps.{touch_at, run}
use go_lab.Accounts.Granted.{role_db, accept_grants}
use go_lab.Accounts.Refused.{accept_error-unchanged}

abbrev empty : Db
empty = record {
  connected = true;
  users = [];
  accounts = [];
  invites = [];
  identities = [];
  roles =
      record { id = 1; name = codes "support" } ∷ record { id = 2; name = codes "operator" } ∷ [];
  account_roles = [];
  next_user = 7;
  next_account = 3;
  next_invite = 1;
}

abbrev invited : Db
invited =
    (create_invite (steady 10 10) (codes "h") (codes "Ann@x") (codes "Ann") (codes "operator") none
      (some (pos 1)) 100 (codes "") empty).1

abbrev accepted : Db
accepted =
    (accept_invite text_eq (steady 20 20) (codes "h") (codes " ann@x") (codes "key") (codes "")
      invited).1

abbrev ann : InviteResult
ann = record { linked_user_id = pos 7; email = codes "Ann@x"; role_name = codes "operator" }

accept_ann :
    (accept_invite text_eq
      (steady 20 20)
      (codes "h")
      (codes " ann@x")
      (codes "key")
      (codes "")
      invited).0
    ≡ ok ann
unfolding accept_invite accept_row accept_for create_invite text_eq trim_space equal_fold int_eq
accept_ann = refl

-- The invited e-mail has an account by now.
abbrev with_bob : Db
with_bob = record invited {
  users = record { id = pos 2; name = codes "Bob"; pennies = pos 0; deleted_at = none } ∷ [];
  accounts =
      record {
        id = 1;
        linked_user_id = pos 2;
        email = codes "Ann@x";
        password_hash = codes "key";
        status = codes "active";
        invited_by = none;
        last_login_at = none;
      }
      ∷ [];
}

accept_again :
    (accept_invite text_eq
      (steady 30 30)
      (codes "h")
      (codes "ann@x")
      (codes "other")
      (codes "")
      accepted).0
    ≡ err invite_used
unfolding accept_invite accept_row accept_for create_invite text_eq trim_space equal_fold int_eq
accept_again = refl

login_ann :
    user_auth_by_email text_eq (steady 30 30) (codes "Ann@x") accepted ≡ ok (pos 7, codes "key")
unfolding user_auth_by_email accept_invite accept_row accept_for create_invite text_eq trim_space
    equal_fold int_eq
login_ann = refl

-- The SELECT names a column that both tables have.
no_hash_of_ann : password_hash_by_id (steady 50 50) (pos 7) accepted ≡ err driver
unfolding password_hash_by_id update_password_hash accept_invite accept_row accept_for create_invite
    text_eq trim_space equal_fold int_eq
no_hash_of_ann = refl

link_bob :
    local_user_id equal_fold
      (steady 50 50)
      (codes "iss")
      (codes "Bob")
      (ensure_oidc_user equal_fold (steady 40 40) (codes "iss") (codes "bob") (codes "") accepted).1
    ≡ ok (some (pos 8))
unfolding local_user_id ensure_oidc_user accept_invite accept_row accept_for create_invite text_eq
    trim_space equal_fold int_eq
link_bob = refl

accept_once_example :
    (accept_invite text_eq
      (steady 40 40)
      (codes "h")
      (codes "ann@x")
      (codes "other")
      (codes "Eve")
      (run text_eq ((steady 30 30, touch_at (codes "Ann@x")) ∷ []) accepted)).0
    ≢ ok ann
accept_once_example =
    accept_once text_eq (steady 20 20) (steady 40 40) (codes "h") (codes " ann@x") (codes "ann@x")
      (codes "key") (codes "other") (codes "") (codes "Eve") invited ann ann
      ((steady 30 30, touch_at (codes "Ann@x")) ∷ []) accept_ann

accept_grants_example :
    passes (
      require_permission
        (steady 40 40)
        (some (role_db [] accepted))
        (codes "backups.restore.approve")
        (codes "user:7"))
    ≡ is_present accepted (pos 7)
unfolding text_eq trim_space auth_user_id atoi create_invite permissions_for_role has_prefix
    is_positive
accept_grants_example =
    accept_grants text_eq (steady 20 20) (steady 40 40) (codes "h") (codes " ann@x") (codes "key")
      (codes "") invited ann (record { id = 2; name = codes "operator" }) []
      (codes "backups.restore.approve") (codes "user:7") accept_ann refl refl refl refl refl

taken :
    (accept_invite text_eq
      (steady 20 20)
      (codes "h")
      (codes "ann@x")
      (codes "key")
      (codes "")
      with_bob).0
    ≡ err email_exists
unfolding accept_invite create_invite text_eq equal_fold trim_space
taken = refl

accept_error-unchanged_example :
    (accept_invite text_eq
      (steady 20 20)
      (codes "h")
      (codes "ann@x")
      (codes "key")
      (codes "")
      with_bob).1
    ≡ with_bob
accept_error-unchanged_example =
    accept_error-unchanged text_eq (steady 20 20) (codes "h") (codes "ann@x") (codes "key")
      (codes "") with_bob email_exists (ground arith) taken
