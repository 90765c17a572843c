-- ===== src/Login/SignIn.antt =====
-- LoginUser and authLoginFail of api/myhandlers/auth_session_handlers.go.
use go_lab.Prelude.{
  ℕ, ℤ, Text, codes, is_empty, Bool, true, false, not, Option, none, some, List, [], ◌∷◌, is_some,
  if◌then◌else◌,
}
use go_lab.Strings.{trim_space}
use go_lab.Sql.{Call, Result, ok, err, after}
use go_lab.Http.{validation, unauthorized, internal, rate_limited, Reply, success, error}
use go_lab.Throttle.{login_email_locked, record_login_failure, clear_throttle}
use go_lab.Accounts.{AccountError, user_auth_by_email, touch_login}
use go_lab.Session.{create_session}
use go_lab.Exchange.Tokens.{new_opaque_token}
use go_lab.Password.{PasswordError, verify_password}
use go_lab.Login.{
  World, Config, session_db, put_sessions, Request, SetCookie, set_session, set_csrf, Meta, reason,
  record_event, normalize_email,
}

pub record LoggedIn : Type 0 where
  pub user_id : ℤ
  pub email : Text

-- A reply with its cookies, and the state that is left.
abbrev pub Answer : Type 0 → Type 0
Answer A = Reply A × List SetCookie × World

abbrev pub is_ok_true : Result PasswordError Bool → Bool
is_ok_true (err e) = false
is_ok_true (ok b) = b

-- `authLoginFail`; its event is statement 3.
abbrev login_fail : (Meta → Text) → Call → Request → Option ℤ → Text → Text → World → World
login_fail marshal c r uid email why w =
    record_event (c.driver 3) r (codes "auth_login_failure") uid email (some (marshal (reason why)))
      w

-- `errors.Is(err, sql.ErrNoRows)`
abbrev is_no_rows : AccountError → Bool
is_no_rows AccountError.no_rows = true
is_no_rows _ = false

-- What is read of the account: a user with a hash that is not blank, no such user, or an error.
abbrev credentials : Result AccountError (ℤ × Text) → Option (Option (ℤ × Text))
credentials (err e) = if is_no_rows e then some none else none
credentials (ok (uid, hash)) =
    if is_empty (trim_space hash) then some none else some (some (uid, hash))

module _ (collates : Text → Text → Bool) (hash : Text → Text)
    (id_key : Text → Text → ℕ → ℕ → ℕ → ℕ → Text) (parse_address : Text → Option (Text × Text))
    (marshal : Meta → Text) where
  -- LoginUser from the new session on: its INSERT is statement 2, the event 3.
  unfoldable pub open_session :
      Config
      → Call
      → Option (List ℕ)
      → Option (List ℕ)
      → Request
      → Text
      → ℤ
      → World
      → Answer LoggedIn
  open_session cfg c random random_csrf r email uid w = elim random [
    | none ↦ (error 500 internal, [], w)
    | some bytes ↦
        let raw = new_opaque_token bytes in
        let (result, db) =
          create_session hash (after 2 c) uid raw (trim_space r.client_ip) r.user_agent
            (session_db cfg w) in
        elim result [
          | err _ ↦ (error 500 internal, [], put_sessions db w)
          | ok _ ↦
              let w' =
                record_event (c.driver 3) r (codes "auth_login_success") (some uid) email none
                  (put_sessions db w) in
              elim random_csrf [
                | none ↦ (error 500 internal, set_session raw ∷ [], w')
                | some csrf ↦ (
                  success 200 (record { user_id = uid; email = email }),
                  set_session raw ∷ set_csrf (new_opaque_token csrf) ∷ [],
                  w',
                )
              ]
        ]
  ]

  -- From the check of the password on; the UPDATE of the login time is statement 1.
  unfoldable pub check_password :
      Config
      → Call
      → Option (List ℕ)
      → Option (List ℕ)
      → Request
      → Text
      → Text
      → ℤ × Text
      → World
      → Answer LoggedIn
  unfolding open_session
  check_password cfg c random random_csrf r email password (uid, stored) w =
      if not (is_ok_true (verify_password id_key password stored))
      then (
        error 401 unauthorized,
        [],
        login_fail marshal c r (some uid) email (codes "bad_password")
            (record w { throttle = record_login_failure c.now email w.throttle }),
      )
      else open_session cfg c random random_csrf r email uid (record w {
        throttle = clear_throttle email w.throttle;
        accounts = (touch_login collates (after 1 c) email w.accounts).1;
      })

  -- From the look-up of the account on, which is statement 0.
  unfoldable pub sign_in :
      Config
      → Call
      → Option (List ℕ)
      → Option (List ℕ)
      → Request
      → Text
      → Text
      → World
      → Answer LoggedIn
  unfolding check_password
  sign_in cfg c random random_csrf r email password w =
      if is_some (login_email_locked c.now email w.throttle)
      then (error 429 rate_limited, [], w)
      else elim (credentials (user_auth_by_email collates c email w.accounts)) [
        | none ↦ (error 500 internal, [], w)
        | some none ↦ (
          error 401 unauthorized,
          [],
          login_fail marshal c r none email (codes "unknown_user_or_no_password") w,
        )
        | some (some account) ↦ check_password cfg c random random_csrf r email password account w
      ]

  -- `LoginUser` with the bound body, e-mail and password, and what `rand.Read` gives for the session
  -- and for the CSRF token; the throttle is that of a process without Redis.
  unfoldable pub login_user :
      Bool
      → Config
      → Call
      → Option (List ℕ)
      → Option (List ℕ)
      → Request
      → Option (Text × Text)
      → World
      → Answer LoggedIn
  unfolding sign_in
  login_user has_store cfg c random random_csrf r body w =
      if not has_store then (error 500 internal, [], w) else elim body [
        | none ↦ (error 400 validation, [], w)
        | some (body_email, password) ↦ elim (normalize_email parse_address body_email) [
          | none ↦ (
            error 401 unauthorized,
            [],
            login_fail marshal c r none (codes "") (codes "invalid_email") w,
          )
          | some email ↦ sign_in cfg c random random_csrf r email password w
        ]
      ]
