-- ===== src/Login/Invites.antt =====
-- CreateOperatorInvite, AcceptOperatorInvite and RegisterUser of
-- api/myhandlers/auth_session_handlers.go.
use go_lab.Prelude.{
  ℕ, ◌+◌, ℤ, Text, codes, is_empty, Bool, not, Option, none, some, List, if◌then◌else◌,
}
use go_lab.Strings.{trim_space}
use go_lab.Sql.{Call, ok, err}
use go_lab.Http.{
  validation, unauthorized, forbidden, conflict, internal, Reply, success, error, auth_user_id,
}
use go_lab.Accounts.{AccountError}
use go_lab.Accounts.Invites.{InviteResult, create_invite, accept_invite}
use go_lab.Exchange.Tokens.{new_opaque_token}
use go_lab.Password.{validate_length, hash_password}
use go_lab.Login.{World, Config, Request, Meta, invited_as, record_event, normalize_email}

-- `RegisterUser`
abbrev pub register_user : World → Reply (Unit {0}) × World
register_user w = (error 403 forbidden, w)

-- The body of a new invite, bound: a required e-mail, name and role, of limited length.
pub record InviteBody : Type 0 where
  pub email : Text
  pub name : Text
  pub role : Text
  pub linked_user_id : Option ℤ

pub record Invited : Type 0 where
  pub invite_token : Text
  pub email : Text
  pub role : Text
  pub expires_at : ℕ

-- The body of an acceptance, bound: all but the name are required.
pub record AcceptBody : Type 0 where
  pub invite_token : Text
  pub email : Text
  pub password : Text
  pub name : Text

abbrev pub accept_refusal : AccountError → Reply InviteResult
accept_refusal AccountError.invite_not_found = error 401 unauthorized
accept_refusal AccountError.invite_expired = error 401 unauthorized
accept_refusal AccountError.invite_used = error 401 unauthorized
accept_refusal AccountError.email_mismatch = error 401 unauthorized
accept_refusal AccountError.role_not_found = error 400 validation
accept_refusal AccountError.email_exists = error 409 conflict
accept_refusal AccountError.no_rows = error 500 internal
accept_refusal AccountError.nil_db = error 500 internal
accept_refusal AccountError.invalid = error 500 internal
accept_refusal AccountError.driver = error 500 internal

module _ (hash : Text → Text) (parse_address : Text → Option (Text × Text)) where
  -- From the checked body on: the INSERT is statement 0, the event 1.
  unfoldable pub issue_invite :
      (Meta → Text)
      → Config
      → Call
      → Option (List ℕ)
      → Request
      → ℤ
      → Text
      → Text
      → Text
      → Option ℤ
      → World
      → Reply Invited × World
  issue_invite marshal cfg c random r inviter email name role linked w = elim random [
    | none ↦ (error 500 internal, w)
    | some bytes ↦
        let raw = new_opaque_token bytes in
        let expires_at = c.now + cfg.invite_ttl in
        let (result, db) =
          create_invite c (hash raw) email name role linked (some inviter) expires_at (codes "")
            w.accounts in
        let w' = record w { accounts = db } in
        elim result [
          | err _ ↦ (error 500 internal, w')
          | ok _ ↦ (
            success 201 (record {
              invite_token = raw;
              email = email;
              role = role;
              expires_at = expires_at;
            }),
            record_event (c.driver 1) r (codes "auth_operator_invite_created") (some inviter) email
                (some (marshal (invited_as role expires_at))) w',
          )
        ]
  ]

  -- `CreateOperatorInvite`
  unfoldable pub create_operator_invite :
      (Meta → Text)
      → Bool
      → Config
      → Call
      → Option (List ℕ)
      → Request
      → Option InviteBody
      → World
      → Reply Invited × World
  unfolding issue_invite
  create_operator_invite marshal has_store cfg c random r body w =
      if not has_store then (error 500 internal, w) else elim (auth_user_id r.auth_subject) [
        | none ↦ (error 403 forbidden, w)
        | some inviter ↦ elim body [
          | none ↦ (error 400 validation, w)
          | some b ↦ elim (normalize_email parse_address b.email) [
            | none ↦ (error 400 validation, w)
            | some email ↦
                if is_empty (trim_space b.name)
                then (error 400 validation, w)
                else if is_empty (trim_space b.role)
                then (error 400 validation, w)
                else issue_invite marshal cfg c random r inviter email (trim_space b.name)
                    (trim_space b.role) b.linked_user_id w
          ]
        ]
      ]

  module _ (collates : Text → Text → Bool) (id_key : Text → Text → ℕ → ℕ → ℕ → ℕ → Text) where
    -- From the checked body on: the acceptance is statements 0 to 10, the event 11.
    unfoldable pub accept :
        Call → Request → Text → Text → Text → Text → World → Reply InviteResult × World
    accept c r token email stored name w =
        let (result, db) = accept_invite collates c (hash token) email stored name w.accounts in
        let w' = record w { accounts = db } in
        elim result [
          | err e ↦ (accept_refusal e, w')
          | ok res ↦ (
            success 201 res,
            record_event (c.driver 11) r (codes "auth_operator_invite_accepted")
                (some res.linked_user_id) res.email none w',
          )
        ]

    -- `AcceptOperatorInvite`, on the bytes that `rand.Read` gives for the salt.
    unfoldable pub accept_operator_invite :
        Bool
        → Call
        → Option (List ℕ)
        → Request
        → Option AcceptBody
        → World
        → Reply InviteResult × World
    unfolding accept
    accept_operator_invite has_store c random r body w =
        if not has_store then (error 500 internal, w) else elim body [
          | none ↦ (error 400 validation, w)
          | some b ↦ elim (validate_length b.password) [
            | err _ ↦ (error 400 validation, w)
            | ok _ ↦
                if is_empty (trim_space b.invite_token)
                then (error 400 validation, w)
                else elim (normalize_email parse_address b.email) [
                  | none ↦ (error 400 validation, w)
                  | some email ↦ elim (hash_password id_key random b.password) [
                    | err _ ↦ (error 400 validation, w)
                    | ok stored ↦
                        accept c r (trim_space b.invite_token) email stored (trim_space b.name) w
                  ]
                ]
          ]
        ]
