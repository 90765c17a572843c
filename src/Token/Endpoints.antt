-- ===== src/Token/Endpoints.antt =====
-- IssueToken, IssueBootstrapToken and IssueJoinToken of api/myhandlers/auth_handlers.go: the
-- endpoints that mint a token without an exchange code. Replies leave out their constant fields.
pub mod Issued
use go_lab.Prelude.{
  ℕ, ◌+◌, ◌-◌, ℤ, pos, negsuc, is_positive, Text, codes, text_eq, is_empty, Bool, true, false, ◌&&◌,
  ◌||◌, not, Option, none, some, List, [], ◌∷◌, ◌++◌, any, drop, length, ltb, ◌==◌, if◌then◌else◌,
}
use go_lab.Strings.{trim_space, has_prefix, equal_fold}
use go_lab.Strconv.{atoi}
use go_lab.Sql.{Outcome, null_str}
use go_lab.Http.{
  Code, validation, unauthorized, forbidden, internal, Reply, success, error, user_prefix,
}
use go_lab.Audit.{AuthEvent, insert_audit}
use go_lab.Token.{seconds_left, TokenService, Claims, mint_access_token, mint_join_token}

-- The settings of `config.Config` that the endpoints read.
pub record Config : Type 0 where
  pub client_id : Text
  pub client_secret : Text
  pub bootstrap_enabled : Bool
  pub bootstrap_cidrs : List Text
  pub allowed_origins : List Text
  pub join_token_ttl : ℤ

-- A token and the seconds that are left of it.
pub record Issue : Type 0 where
  pub token : Text
  pub expires_in : ℕ

-- `secureStringEq`
abbrev pub secure_string_eq : Text → Text → Bool
secure_string_eq a b = if not (length a == length b) then false else text_eq a b

-- `originAllowed`
abbrev pub origin_allowed : Text → List Text → Bool
origin_allowed origin allowlist = any (λ allowed. equal_fold (trim_space allowed) origin) allowlist

-- `clientIPAllowedForBootstrap`, with `netip.ParseAddr`, and `netip.ParsePrefix` with `Contains`.
abbrev pub client_ip_allowed :
    {Addr : Type 0} → (Text → Option Addr) → (Text → Option (Addr → Bool)) → Text → List Text → Bool
client_ip_allowed parse_addr parse_prefix raw allowed =
    if is_empty (trim_space raw) then false else elim (parse_addr (trim_space raw)) [
      | none ↦ false
      | some addr ↦
          any
            (λ cidr. elim (parse_prefix (trim_space cidr)) [
              | none ↦ false
              | some contains ↦ contains addr
            ])
            allowed
    ]

-- What of a request the endpoints read.
pub record Caller : Type 0 where
  pub auth_subject : Text
  pub origin : Text
  pub client_ip : Text
  pub user_agent : Text

-- The auth audit events; `none` is a store that is nil.
abbrev pub Store : Type 0
Store = Option (Bool × List AuthEvent)

abbrev add_event : Outcome → AuthEvent → Store → Store
add_event o event none = none
add_event o event (some (connected, events)) =
    some (connected, (insert_audit o connected event events).1)

abbrev issued : Option (Text × ℤ) → ℕ → Reply Issue
issued none now = error 500 internal
issued (some (token, exp)) now =
    success 200 (record { token = token; expires_in = seconds_left exp now })

module _ (sign : Text → Claims → Option Text) where
  -- `issueTokenResponse` and `issueBootstrapTokenResponse`
  unfoldable pub issue_for_client : Option TokenService → ℕ → Option Text → Text → Reply Issue
  issue_for_client none now jti client_id = error 500 internal
  issue_for_client (some ts) now jti client_id =
      issued (mint_access_token sign ts now jti (codes "client:" ++ client_id)) now

  -- `IssueToken` with the bound body (grant type, client id, client secret)
  unfoldable pub issue_token :
      Config → Option TokenService → ℕ → Option Text → Option (Text × Text × Text) → Reply Issue
  issue_token cfg ts now jti none = error 400 validation
  issue_token cfg ts now jti (some (grant_type, client_id, client_secret)) =
      if not (text_eq (trim_space grant_type) (codes "client_credentials"))
      then error 400 validation
      else if not (secure_string_eq (trim_space client_id) cfg.client_id)
          || not (secure_string_eq client_secret cfg.client_secret)
      then error 401 unauthorized
      else issue_for_client ts now jti cfg.client_id

  -- `IssueBootstrapToken`
  unfoldable pub issue_bootstrap_token :
      {Addr : Type 0}
      → (Text → Option Addr)
      → (Text → Option (Addr → Bool))
      → Config
      → Option TokenService
      → ℕ
      → Option Text
      → Outcome
      → Caller
      → Store
      → Reply Issue × Store
  issue_bootstrap_token parse_addr parse_prefix cfg ts now jti o caller store =
      let origin = trim_space caller.origin in
      if not cfg.bootstrap_enabled
      then (error 403 forbidden, store)
      else if is_empty origin
      then (error 403 forbidden, store)
      else if not (origin_allowed origin cfg.allowed_origins)
      then (error 403 forbidden, store)
      else if not (
          client_ip_allowed parse_addr parse_prefix (trim_space caller.client_ip)
            cfg.bootstrap_cidrs)
      then (error 403 forbidden, store)
      else (
        issue_for_client ts now jti cfg.client_id,
        add_event o
            (record {
              event_type = codes "auth_bootstrap_used";
              user_id = none;
              ip = null_str caller.client_ip;
              user_agent = null_str caller.user_agent;
              subject_hint = null_str origin;
              meta_json = none;
            })
            store,
      )

  abbrev checked_uid : Option ℤ → Option ℤ
  checked_uid none = none
  checked_uid (some uid) = if is_positive uid then some uid else none

  -- `IssueJoinToken` with the bound session id; `meta` is what `json.Marshal` makes of the
  -- metadata with that session. The reply has the session too.
  unfoldable pub issue_join_token :
      (Text → Text)
      → Config
      → Option TokenService
      → ℕ
      → Option Text
      → Outcome
      → Caller
      → Option Text
      → Store
      → Reply (Issue × Text) × Store
  issue_join_token meta cfg ts now jti o caller body store =
      let sub = trim_space caller.auth_subject in
      if not (has_prefix sub user_prefix)
      then (error 403 forbidden, store)
      else elim (checked_uid (atoi (drop 5 sub))) [
        | none ↦ (error 401 unauthorized, store)
        | some uid ↦ elim body [
          | none ↦ (error 400 validation, store)
          | some raw_session ↦
              let session = trim_space raw_session in
              if ltb (length session) 3 || ltb 128 (length session)
              then (error 400 validation, store)
              else elim ts [
                | none ↦ (error 500 internal, store)
                | some s ↦ elim (mint_join_token sign s now jti sub session cfg.join_token_ttl) [
                  | none ↦ (error 500 internal, store)
                  | some (token, exp) ↦ (
                    success 200
                        (record { token = token; expires_in = seconds_left exp now }, session),
                    add_event o
                        (record {
                          event_type = codes "auth_join_token_issued";
                          user_id = some uid;
                          ip = null_str caller.client_ip;
                          user_agent = null_str caller.user_agent;
                          subject_hint = null_str sub;
                          meta_json = some (meta session);
                        })
                        store,
                  )
                ]
              ]
        ]
      ]
