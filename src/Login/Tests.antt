-- ===== src/Login/Tests.antt =====
-- The handlers on a concrete state: an invite, its acceptance, logins and a change of password.
use go_lab.Throttle.{login_email_locked, clear_throttle}
use go_lab.Prelude.{
  is_positive, ℕ, ◌≡◌, refl, pos, int_eq, Text, text_eq, codes, true, Option, none, some, [], ◌∷◌,
  arith,
}
use go_lab.Strings.{has_prefix, trim_space, equal_fold, split}
use go_lab.Strconv.{atoi, itoa}
use go_lab.Password.{validate_length, parse_encoded, hash_password, verify_password, hash_text}
use go_lab.Password.Scan.{scan_params, scan_int}
use go_lab.Password.Base64.{encode, decode}
use go_lab.Accounts.Invites.{accept_invite, accept_row, accept_for, new_invite}
use go_lab.Login.Invites.{accept, AcceptBody, accept_operator_invite}
use go_lab.Login.SignIn.{sign_in, check_password, open_session, login_user}
use go_lab.Login.Passwords.{change_for, replace_hash, change_password}
use go_lab.Session.{create_session, revoke_all, validate_session}
use go_lab.Accounts.{
  touch_login, update_password_hash, Account, Invite, user_auth_by_email, password_hash_by_id,
}
use go_lab.Exchange.Tokens.{hex_encode, new_opaque_token}
use go_lab.Sql.{ok, steady}
use go_lab.Http.{rate_limited, success, error, internal}
use go_lab.Password.Sample.{
  fake_key, fake_key-length, fake_key-IsByte, salt, salt-IsByte, replicate,
}
use go_lab.Login.{
  World, Config, session_db, Request, set_session, set_csrf, Meta, normalize_email,
  email_domain_hint,
}
use go_lab.Login.Verified.{is_success, Verified, login-Verified}
use go_lab.Login.Lockout.{Attempt, attempt, attempts, IsWrong, wrong_passwords_lock}
use go_lab.Login.Journey.{invite_to_session}
use go_lab.Login.Enters.{may_enter, login_user-success_iff}

abbrev digest : Text → Text
digest s = b'#' ∷ s

abbrev address : Text → Option (Text × Text)
address s = some (codes "", s)

abbrev json : Meta → Text
json _ = codes "{}"

abbrev cfg : Config
cfg = record { idle_ttl = 100; abs_ttl = 1000; invite_ttl = 50 }

abbrev req : Request
req = record {
  auth_subject = codes "user:7";
  client_ip = codes "::1";
  user_agent = codes "curl";
  session_cookie = none;
}

abbrev ann : Invite
ann =
    new_invite 1 (codes "#tok") (codes "ann@x") (codes "Ann") (codes "operator") none (some (pos 1))
      100 (codes "")

abbrev world : World
world = record {
  accounts = record {
    connected = true;
    users = [];
    accounts = [];
    invites = ann ∷ [];
    identities = [];
    roles = record { id = 2; name = codes "operator" } ∷ [];
    account_roles = [];
    next_user = 7;
    next_account = 3;
    next_invite = 2;
  };
  sessions = [];
  next_session = 1;
  events = [];
  throttle = λ _. none;
}

abbrev body : AcceptBody
body = record {
  invite_token = codes " tok";
  email = codes "Ann@x ";
  password = codes "12345678";
  name = codes "";
}

domain : email_domain_hint (codes "a@b@example.org") ≡ codes "example.org"
unfolding email_domain_hint
domain = refl

invite_to_session_example :
    let accepted =
      accept_operator_invite digest address text_eq fake_key true
        (steady 20 20)
        (some salt)
        req
        (some body)
        world in
    let signed =
      login_user text_eq digest fake_key address json true cfg
        (steady 30 30)
        (some (1 ∷ []))
        (some (2 ∷ []))
        req
        (some (codes "ANN@x", codes "12345678"))
        accepted.1 in
    (accepted.0
      ≡ success 201
          (record { linked_user_id = pos 7; email = codes "ann@x"; role_name = codes "operator" }))
    × (signed.0 ≡ success 200 (record { user_id = pos 7; email = codes "ann@x" }))
    × (signed.1
        ≡ set_session (new_opaque_token (1 ∷ [])) ∷ set_csrf (new_opaque_token (2 ∷ [])) ∷ [])
    × ((validate_session digest
          (steady 40 40)
          (new_opaque_token (1 ∷ []))
          (session_db cfg signed.2)).0
        ≡ ok (pos 7))
unfolding trim_space normalize_email text_eq login_email_locked
invite_to_session_example =
    invite_to_session text_eq digest fake_key address json cfg 20 20 30 30 40 40 salt (1 ∷ [])
      (2 ∷ []) req req ann (record { id = 2; name = codes "operator" }) body (codes "ANN@x") world
      fake_key-length fake_key-IsByte salt-IsByte refl (omega arith) (omega arith) refl refl refl
      refl refl refl (omega arith) refl refl refl refl refl refl (omega arith) (omega arith)

abbrev entered : World
entered =
    (accept_operator_invite digest address text_eq fake_key true (steady 20 20) (some salt) req
      (some body) world).1

login_user-success_iff_example :
    is_success
      (login_user text_eq digest fake_key address json true cfg
        (steady 30 30)
        (some (1 ∷ []))
        (some (2 ∷ []))
        req
        (some (codes "ANN@x", codes "12345678"))
        entered).0
    ≡ may_enter text_eq digest fake_key address json 30
        (codes "ann@x")
        (codes "12345678")
        (user_auth_by_email text_eq (steady 30 30) (codes "ann@x") entered.accounts)
        entered
unfolding normalize_email trim_space accept_operator_invite validate_length hash_password
    accept_invite text_eq equal_fold int_eq
login_user-success_iff_example =
    login_user-success_iff text_eq digest fake_key address json cfg 30 30 (1 ∷ []) (2 ∷ []) req
      (codes "ANN@x") (codes "ann@x") (codes "12345678") entered refl refl refl

abbrev stored : Text
stored = hash_text salt (replicate 32 8)

signed_in :
    (login_user text_eq digest fake_key address json true cfg
      (steady 30 30)
      (some (1 ∷ []))
      (some (2 ∷ []))
      req
      (some (codes "ANN@x", codes "12345678"))
      entered).0
    ≡ success 200 (record { user_id = pos 7; email = codes "ann@x" })
unfolding accept_operator_invite accept accept_invite accept_row accept_for validate_length
    hash_password equal_fold trim_space text_eq normalize_email verify_password parse_encoded split
    scan_params scan_int has_prefix atoi itoa int_eq is_positive decode encode login_user sign_in
    check_password open_session user_auth_by_email touch_login create_session login_email_locked
    clear_throttle hex_encode
signed_in = refl

not_changed :
    (change_password digest fake_key true cfg
      (steady 50 50)
      (some salt)
      req
      (some (codes "12345678", codes "new password"))
      entered)
    ≡ (error 500 internal, [], entered)
unfolding accept_operator_invite accept accept_invite accept_row accept_for validate_length
    hash_password equal_fold trim_space text_eq normalize_email verify_password parse_encoded split
    scan_params scan_int has_prefix atoi itoa int_eq is_positive decode encode change_password
    change_for replace_hash password_hash_by_id update_password_hash revoke_all
not_changed = refl

login-Verified_example :
    Verified text_eq digest fake_key address json cfg
      (steady 30 30)
      (some (1 ∷ []))
      (some (2 ∷ []))
      req
      (some (codes "ANN@x", codes "12345678"))
      entered
      (record { user_id = pos 7; email = codes "ann@x" })
      (login_user text_eq digest fake_key address json true cfg
        (steady 30 30)
        (some (1 ∷ []))
        (some (2 ∷ []))
        req
        (some (codes "ANN@x", codes "12345678"))
        entered).1
      (login_user text_eq digest fake_key address json true cfg
        (steady 30 30)
        (some (1 ∷ []))
        (some (2 ∷ []))
        req
        (some (codes "ANN@x", codes "12345678"))
        entered).2
login-Verified_example =
    login-Verified text_eq digest fake_key address json cfg (steady 30 30) (some (1 ∷ []))
      (some (2 ∷ [])) req (some (codes "ANN@x", codes "12345678")) entered 200
      (record { user_id = pos 7; email = codes "ann@x" }) signed_in

abbrev account : Account
account = record {
  id = 3;
  linked_user_id = pos 7;
  email = codes "ann@x";
  password_hash = stored;
  status = codes "active";
  invited_by = some (pos 1);
  last_login_at = none;
}

abbrev wrong : ℕ → Attempt
wrong now = record {
  call = steady now now;
  request = req;
  random = none;
  random_csrf = none;
  typed = codes "ann@x";
  password = codes "guess";
}

wrong-IsWrong :
    (now : ℕ) → IsWrong text_eq digest fake_key address json cfg (codes "ann@x") account (wrong now)
unfolding normalize_email trim_space verify_password parse_encoded split itoa encode text_eq
    scan_params has_prefix scan_int atoi int_eq decode
wrong-IsWrong now = record { normal = refl; wrong = refl; answers = refl }

wrong_passwords_lock_example :
    login_user text_eq digest fake_key address json true cfg
      (steady 40 40)
      (some (1 ∷ []))
      (some (2 ∷ []))
      req
      (some (codes "ANN@x", codes "12345678"))
      (attempt text_eq digest fake_key address json cfg (wrong 35) (
        attempts text_eq digest fake_key address json cfg
          (wrong 31 ∷ wrong 32 ∷ wrong 33 ∷ wrong 34 ∷ [])
          entered))
    ≡ (
      error 429 rate_limited,
      [],
      attempt text_eq digest fake_key address json cfg (wrong 35) (
          attempts text_eq digest fake_key address json cfg
            (wrong 31 ∷ wrong 32 ∷ wrong 33 ∷ wrong 34 ∷ [])
            entered),
    )
unfolding accept_operator_invite validate_length trim_space normalize_email hash_password
    accept_invite text_eq equal_fold int_eq is_positive itoa encode
wrong_passwords_lock_example =
    wrong_passwords_lock text_eq digest fake_key address json cfg (codes "ann@x") account
      (wrong 31 ∷ wrong 32 ∷ wrong 33 ∷ wrong 34 ∷ []) (wrong 35)
      (record {
        call = steady 40 40;
        request = req;
        random = some (1 ∷ []);
        random_csrf = some (2 ∷ []);
        typed = codes "ANN@x";
        password = codes "12345678";
      })
      entered (wrong-IsWrong 31, (wrong-IsWrong 32, (wrong-IsWrong 33, (wrong-IsWrong 34, tt))))
      (wrong-IsWrong 35) refl refl refl refl refl (omega arith)
