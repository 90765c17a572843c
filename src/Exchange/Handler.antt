-- ===== src/Exchange/Handler.antt =====
-- StartDesktopExchangeCode and ExchangeDesktopCode of api/myhandlers/auth_handlers.go, with the
-- audit events that they append (the error of an event's INSERT is ignored, as in the source).
pub mod Verified
pub mod RoundTrip
use go_lab.Prelude.{
  ℕ, ◌+◌, ◌-◌, ℤ, pos, negsuc, is_positive, Text, codes, text_eq, is_empty, Bool, true, false, ◌&&◌,
  ◌||◌, not, Option, none, some, List, [], ◌∷◌, ◌++◌, length, drop, map, any, ltb, if◌then◌else◌,
}
use go_lab.Strings.{trim_space, has_prefix, to_lower}
use go_lab.Strconv.{atoi, itoa}
use go_lab.Sql.{Call, Outcome, Result, ok, err, after, null_str}
use go_lab.Http.{
  Code, validation, unauthorized, forbidden, internal, Reply, success, error, user_prefix,
}
use go_lab.Audit.{AuthEvent, insert_audit}
use go_lab.Token.{seconds_left, TokenService, mint_desktop_access_token}
use go_lab.Exchange.{
  CodeError, not_found, used, expired, DesktopExchangeCode, Db, create_code, redeem_code,
}
use go_lab.Exchange.Tokens.{
  new_opaque_token, is_valid_opaque_code, is_valid_code_challenge, is_valid_code_verifier,
}

-- The request: the subject that the middleware has set, the client's address and agent.
pub record Caller : Type 0 where
  pub auth_subject : Text
  pub client_ip : Text
  pub user_agent : Text

pub record World : Type 0 where
  pub codes_db : Db
  pub events : List AuthEvent

-- The values of the map that a `json.Marshal` of metadata gets: the reason, and what there is of
-- the session, the callback, the use and the method.
pub data Meta : Type 0 where
  failure : Text → Option Text → Option Text → Meta
  started : Text → Text → Meta
  issued : Text → Text → Meta

-- The parts of a parsed URL that the check on a callback reads.
pub record Url : Type 0 where
  pub scheme : Text
  pub has_user : Bool
  pub fragment : Text
  pub port : Text
  pub hostname : Text

abbrev is_port : Option ℤ → Bool
is_port none = false
is_port (some (negsuc n)) = false
is_port (some (pos n)) = not (ltb n 1 || ltb 65535 n)

-- `isAllowedLoopbackCallbackURI`, on what `url.Parse` has answered.
unfoldable pub is_allowed_callback : Option Url → List Text → Bool
is_allowed_callback none allowed_hosts = false
is_allowed_callback (some u) allowed_hosts =
    if not (text_eq (to_lower u.scheme) (codes "http"))
    then false
    else if u.has_user || not (is_empty (trim_space u.fragment))
    then false
    else if not (is_empty u.port) && not (is_port (atoi u.port))
    then false
    else (let host = to_lower (trim_space u.hostname) in
        if is_empty host
        then false
        else any (λ allowed. text_eq host (to_lower (trim_space allowed))) allowed_hosts)

-- The reply of StartDesktopExchangeCode; the constant fields are left out.
pub record Started : Type 0 where
  pub exchange_code : Text
  pub expires_in : ℤ
  pub session_id : Text
  pub callback_uri : Text

-- The reply of ExchangeDesktopCode; the constant fields are left out.
pub record Exchanged : Type 0 where
  pub access_token : Text
  pub expires_in : ℕ
  pub session_id : Text

-- The uid of "user:<uid>": `none` for another subject, `some none` if the uid is no positive number.
abbrev checked_uid : Option ℤ → Option ℤ
checked_uid none = none
checked_uid (some uid) = if is_positive uid then some uid else none

abbrev pub subject_uid : Text → Option (Option ℤ)
subject_uid sub =
    if not (has_prefix sub user_prefix) then none else some (checked_uid (atoi (drop 5 sub)))

abbrev pub user_subject : ℤ → Text
user_subject uid = user_prefix ++ itoa uid

module _ (marshal : Meta → Text) where
  abbrev pub event_of : Caller → Text → Option ℤ → Text → Meta → AuthEvent
  event_of caller event_type uid subject meta = record {
    event_type = event_type;
    user_id = uid;
    ip = null_str caller.client_ip;
    user_agent = null_str caller.user_agent;
    subject_hint = null_str subject;
    meta_json = some (marshal meta);
  }

  abbrev add_event : Outcome → AuthEvent → World → World
  add_event o event w = record w { events = (insert_audit o w.codes_db.connected event w.events).1 }

  -- `recordDesktopExchangeFailure` and `recordDesktopExchangeStartFailure`
  abbrev pub record_failure :
      Outcome → Caller → Option ℤ → Text → Text → Option Text → World → World
  record_failure o caller uid subject reason session_id w =
      add_event o
        (event_of caller (codes "auth_desktop_exchange_failure") uid subject
          (failure reason session_id none))
        w

  abbrev record_start_failure : Outcome → Caller → ℤ → Text → Text → Option Text → World → World
  record_start_failure o caller uid subject reason uri w =
      add_event o
        (event_of caller (codes "auth_desktop_exchange_start_failure") (some uid) subject
          (failure reason none uri))
        w

  module _ (hash : Text → Text) (parse_url : Text → Option Url) where
    -- `StartDesktopExchangeCode` with the bound body (session, challenge, callback), on the bytes
    -- that `rand.Read` gives. The INSERT is statement 0, the audit event statement 1.
    unfoldable pub start_exchange :
        Bool
        → List Text
        → ℤ
        → Call
        → Caller
        → Option (List ℕ)
        → Option (Text × Text × Text)
        → World
        → Reply Started × World
    start_exchange has_store allowed_hosts code_ttl c caller random body w =
        let sub = trim_space caller.auth_subject in
        if not has_store then (error 500 internal, w) else elim (subject_uid sub) [
          | none ↦ (error 403 forbidden, w)
          | some none ↦ (error 401 unauthorized, w)
          | some (some uid) ↦ elim body [
            | none ↦ (error 400 validation, w)
            | some (body_session, body_challenge, body_uri) ↦
                let session_id = trim_space body_session in
                let challenge = trim_space body_challenge in
                let uri = trim_space body_uri in
                if ltb (length session_id) 3 || ltb 128 (length session_id)
                then (error 400 validation, w)
                else if not (is_valid_code_challenge challenge)
                then (
                  error 400 validation,
                  record_start_failure (c.driver 1) caller uid sub (codes "invalid_code_challenge")
                      none w,
                )
                else if not (is_empty uri)
                    && not (is_allowed_callback (parse_url uri) allowed_hosts)
                then (
                  error 400 validation,
                  record_start_failure (c.driver 1) caller uid sub (codes "invalid_callback_uri")
                      (some uri) w,
                )
                else elim random [
                  | none ↦ (error 500 internal, w)
                  | some bytes ↦
                      let raw_code = new_opaque_token bytes in
                      let (result, db') =
                        create_code hash c uid raw_code challenge session_id uri code_ttl
                          w.codes_db in
                      elim result [
                        | err _ ↦ (error 500 internal, record w { codes_db = db' })
                        | ok _ ↦ (
                          success 200 (record {
                            exchange_code = raw_code;
                            expires_in = code_ttl;
                            session_id = session_id;
                            callback_uri = uri;
                          }),
                          add_event (c.driver 1)
                              (event_of caller (codes "auth_desktop_exchange_start") (some uid) sub
                                (started session_id uri))
                              (record w { codes_db = db' }),
                        )
                      ]
                ]
          ]
        ]

  -- `pkceS256`, SHA-256 in base64url, is a parameter beside the hash of the codes.
  module _ (hash pkce : Text → Text) (mint : ℕ → Text → Text → Option (Text × ℤ)) where
    abbrev pub refusal : CodeError → Text
    refusal CodeError.not_found = codes "code_not_found"
    refusal CodeError.used = codes "code_already_used"
    refusal CodeError.expired = codes "code_expired"
    refusal CodeError.invalid = codes "exchange_internal_error"
    refusal CodeError.nil_db = codes "exchange_internal_error"
    refusal CodeError.driver = codes "exchange_internal_error"

    abbrev pub refusal_reply : CodeError → Reply Exchanged
    refusal_reply CodeError.not_found = error 401 unauthorized
    refusal_reply CodeError.used = error 401 unauthorized
    refusal_reply CodeError.expired = error 401 unauthorized
    refusal_reply CodeError.invalid = error 500 internal
    refusal_reply CodeError.nil_db = error 500 internal
    refusal_reply CodeError.driver = error 500 internal

    -- The part of ExchangeDesktopCode behind a redemption that succeeded; its event is statement 5.
    abbrev pub finish_exchange :
        Call → Caller → Text → DesktopExchangeCode → World → Reply Exchanged × World
    finish_exchange c caller verifier row w =
        let expected = trim_space row.code_challenge in
        let sub = user_subject row.user_id in
        if is_empty expected || not (text_eq expected (pkce verifier))
        then (
          error 401 unauthorized,
          record_failure (c.driver 5) caller (some row.user_id) sub (codes "code_verifier_mismatch")
              (some row.session_id) w,
        )
        else elim (mint c.now sub row.session_id) [
          | none ↦ (error 500 internal, w)
          | some (token, exp) ↦ (
            success 200 (record {
              access_token = token;
              expires_in = seconds_left exp c.now;
              session_id = row.session_id;
            }),
            add_event (c.driver 5)
                (event_of caller (codes "auth_desktop_exchange_success") (some row.user_id) sub
                  (issued row.session_id (codes "desktop_access")))
                w,
          )
        ]

    -- `ExchangeDesktopCode` with the bound body (code, verifier). The redemption is statements 0 to
    -- 4, the audit event statement 5.
    unfoldable pub exchange_code :
        Bool → Bool → Call → Caller → Option (Text × Text) → World → Reply Exchanged × World
    exchange_code has_store has_tokens c caller body w =
        if not has_store
        then (error 500 internal, w)
        else if not has_tokens
        then (error 500 internal, w)
        else elim body [
          | none ↦ (
            error 400 validation,
            record_failure (c.driver 5) caller none (codes "") (codes "invalid_request_body") none
                w,
          )
          | some (body_code, body_verifier) ↦
              let raw_code = trim_space body_code in
              let verifier = trim_space body_verifier in
              if not (is_valid_opaque_code raw_code)
              then (
                error 400 validation,
                record_failure (c.driver 5) caller none (codes "")
                    (codes "invalid_exchange_code_format") none w,
              )
              else if not (is_valid_code_verifier verifier)
              then (
                error 400 validation,
                record_failure (c.driver 5) caller none (codes "") (codes "invalid_code_verifier")
                    none w,
              )
              else (let (result, db') = redeem_code hash c raw_code w.codes_db in
                  let w' = record w { codes_db = db' } in
                  elim result [
                    | err e ↦ (
                      refusal_reply e,
                      record_failure (c.driver 5) caller none (codes "") (refusal e) none w',
                    )
                    | ok row ↦ finish_exchange c caller verifier row w'
                  ])
        ]
