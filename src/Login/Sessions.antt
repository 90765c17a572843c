-- ===== src/Login/Sessions.antt =====
-- LogoutUser, RefreshSession and GetAuthCSRF of api/myhandlers/auth_session_handlers.go.
use go_lab.Prelude.{
  ℕ, ℤ, Text, codes, is_empty, Bool, not, Option, none, some, List, [], ◌∷◌, if◌then◌else◌,
}
use go_lab.Strings.{trim_space}
use go_lab.Sql.{Call, ok, err}
use go_lab.Http.{unauthorized, internal, success, error}
use go_lab.Session.{revoke_session, validate_session}
use go_lab.Exchange.Tokens.{new_opaque_token}
use go_lab.Login.{
  World, Config, session_db, put_sessions, Request, set_session, set_csrf, clear_session,
  clear_csrf, record_event,
}
use go_lab.Login.SignIn.{Answer}

-- The session cookie, if it is there and not blank.
abbrev pub cookie_of : Option Text → Option Text
cookie_of none = none
cookie_of (some raw) = if is_empty (trim_space raw) then none else some raw

module _ (hash : Text → Text) where
  -- `LogoutUser`: the UPDATE is statement 0, the event 1.
  unfoldable pub logout_user : Bool → Config → Call → Request → World → Answer (Unit {0})
  logout_user has_store cfg c r w =
      if not has_store then (error 500 internal, [], w) else elim (cookie_of r.session_cookie) [
        | none ↦ (success 200 tt, clear_session ∷ clear_csrf ∷ [], w)
        | some raw ↦ (
          success 200 tt,
          clear_session ∷ clear_csrf ∷ [],
          record_event (c.driver 1) r (codes "auth_logout") none (codes "") none
              (put_sessions (revoke_session hash c raw (session_db cfg w)).1 w),
        )
      ]

  -- `RefreshSession`, whose reply is the user: the validation is statements 0 and 1, the event 2.
  unfoldable pub refresh_session :
      Bool → Config → Call → Option (List ℕ) → Request → World → Answer ℤ
  refresh_session has_store cfg c random r w =
      if not has_store then (error 500 internal, [], w) else elim (cookie_of r.session_cookie) [
        | none ↦ (error 401 unauthorized, [], w)
        | some raw ↦
            let (result, db) = validate_session hash c raw (session_db cfg w) in
            elim result [
              | err _ ↦ (error 401 unauthorized, [], put_sessions db w)
              | ok uid ↦
                  let w' =
                    record_event (c.driver 2) r (codes "auth_refresh") (some uid) (codes "") none
                      (put_sessions db w) in
                  elim random [
                    | none ↦ (error 500 internal, set_session raw ∷ [], w')
                    | some bytes ↦ (
                      success 200 uid,
                      set_session raw ∷ set_csrf (new_opaque_token bytes) ∷ [],
                      w',
                    )
                  ]
            ]
      ]

  -- `GetAuthCSRF`
  unfoldable pub auth_csrf :
      Bool → Config → Call → Option (List ℕ) → Request → World → Answer (Unit {0})
  auth_csrf has_store cfg c random r w =
      if not has_store then (error 500 internal, [], w) else elim (cookie_of r.session_cookie) [
        | none ↦ (error 401 unauthorized, [], w)
        | some raw ↦
            let (result, db) = validate_session hash c raw (session_db cfg w) in
            elim result [
              | err _ ↦ (error 401 unauthorized, [], put_sessions db w)
              | ok _ ↦ elim random [
                | none ↦ (error 500 internal, [], put_sessions db w)
                | some bytes ↦
                    (success 200 tt, set_csrf (new_opaque_token bytes) ∷ [], put_sessions db w)
              ]
            ]
      ]
