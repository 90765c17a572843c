-- ===== src/Login/Passwords.antt =====
-- ChangePassword of api/myhandlers/change_password.go.
use go_lab.Prelude.{
  ℕ, ℤ, Text, codes, is_empty, Bool, not, Option, none, some, List, [], ◌∷◌, if◌then◌else◌,
}
use go_lab.Strings.{trim_space}
use go_lab.Sql.{Call, ok, err, after}
use go_lab.Http.{validation, unauthorized, forbidden, not_found, internal, success, error}
use go_lab.Accounts.{AccountError, password_hash_by_id, update_password_hash}
use go_lab.Session.{revoke_all}
use go_lab.Exchange.Handler.{subject_uid}
use go_lab.Password.{validate_length, hash_password, verify_password}
use go_lab.Login.{
  World, Config, session_db, put_sessions, Request, clear_session, clear_csrf, record_event,
}
use go_lab.Login.SignIn.{Answer, is_ok_true}

module _ (hash : Text → Text) (id_key : Text → Text → ℕ → ℕ → ℕ → ℕ → Text) where
  -- From the new hash on: the UPDATE with its count is statements 1 and 2, the revocation of the
  -- sessions 3 and 4, the event 5.
  unfoldable pub replace_hash : Config → Call → Request → ℤ → Text → World → Answer (Unit {0})
  replace_hash cfg c r uid new_hash w =
      let (updated, db) = update_password_hash (after 1 c) uid new_hash w.accounts in
      let w' = record w { accounts = db } in
      elim updated [
        | err _ ↦ (error 500 internal, [], w')
        | ok _ ↦
            let (revoked, sessions) = revoke_all hash (after 3 c) uid (session_db cfg w') in
            elim revoked [
              | err _ ↦ (error 500 internal, [], put_sessions sessions w')
              | ok _ ↦ (
                success 200 tt,
                clear_session ∷ clear_csrf ∷ [],
                record_event (c.driver 5) r (codes "auth_password_changed") (some uid) (codes "")
                    none (put_sessions sessions w'),
              )
            ]
      ]

  -- From the look-up of the hash on, which is statement 0.
  unfoldable pub change_for :
      Config → Call → Option (List ℕ) → Request → ℤ → Text → Text → World → Answer (Unit {0})
  unfolding replace_hash
  change_for cfg c random r uid current new w = elim (password_hash_by_id c uid w.accounts) [
    | err AccountError.no_rows ↦ (error 404 not_found, [], w)
    | err _ ↦ (error 500 internal, [], w)
    | ok stored ↦
        if is_empty (trim_space stored)
        then (error 403 forbidden, [], w)
        else if not (is_ok_true (verify_password id_key current stored))
        then (error 401 unauthorized, [], w)
        else elim (hash_password id_key random new) [
          | err _ ↦ (error 400 validation, [], w)
          | ok new_hash ↦ replace_hash cfg c r uid new_hash w
        ]
  ]

  -- `ChangePassword` with the bound body, the current and the new password, on the bytes that
  -- `rand.Read` gives for the salt.
  unfoldable pub change_password :
      Bool
      → Config
      → Call
      → Option (List ℕ)
      → Request
      → Option (Text × Text)
      → World
      → Answer (Unit {0})
  unfolding change_for
  change_password has_store cfg c random r body w =
      if not has_store
      then (error 500 internal, [], w)
      else elim (subject_uid (trim_space r.auth_subject)) [
        | none ↦ (error 403 forbidden, [], w)
        | some none ↦ (error 401 unauthorized, [], w)
        | some (some uid) ↦ elim body [
          | none ↦ (error 400 validation, [], w)
          | some (current, new) ↦ elim (validate_length new) [
            | err _ ↦ (error 400 validation, [], w)
            | ok _ ↦ change_for cfg c random r uid current new w
          ]
        ]
      ]
