-- ===== src/Login.antt =====
-- What the handlers of api/myhandlers/auth_session_handlers.go and change_password.go share: the
-- state they work on, the request, the cookies of a reply, audit events, and e-mails.
pub mod SignIn
pub mod Sessions
pub mod Invites
pub mod Passwords
pub mod Verified
pub mod Lockout
pub mod Invited
pub mod Enters
pub mod Journey
pub mod Changed
mod Tests
use go_lab.Prelude.{
  ℕ, ℤ, Text, codes, is_empty, Bool, true, false, ◌&&◌, ◌||◌, not, Option, none, some, List, [],
  ◌∷◌, map, ◌==◌, if◌then◌else◌, any,
}
use go_lab.Strings.{trim_space, to_lower}
use go_lab.Sql.{Call, Outcome, null_str}
use go_lab.Audit.{AuthEvent, insert_audit}
use go_lab.Session.{Session}
use go_lab.Throttle.{Throttle}
use go_lab.Accounts.Granted.{user_of_row}

-- The tables of accounts, users and sessions, the audit events, and the login throttle.
pub record World : Type 0 where
  pub accounts : go_lab.Accounts.Db
  pub sessions : List Session
  pub next_session : ℕ
  pub events : List AuthEvent
  pub throttle : Throttle

-- The times to live of sessions and invites.
pub record Config : Type 0 where
  pub idle_ttl : ℕ
  pub abs_ttl : ℕ
  pub invite_ttl : ℕ

-- The session methods see the same users.
abbrev pub session_db : Config → World → go_lab.Session.Db
session_db cfg w = record {
  connected = w.accounts.connected;
  idle_ttl = cfg.idle_ttl;
  abs_ttl = cfg.abs_ttl;
  users = map user_of_row w.accounts.users;
  sessions = w.sessions;
  next_id = w.next_session;
}

abbrev pub put_sessions : go_lab.Session.Db → World → World
put_sessions db w = record w { sessions = db.sessions; next_session = db.next_id }

-- What the handlers read of `gin.Context`; the session cookie is `none` if there is none.
pub record Request : Type 0 where
  pub auth_subject : Text
  pub client_ip : Text
  pub user_agent : Text
  pub session_cookie : Option Text

-- The cookies that a reply sets or clears, in order; their lifetimes and flags are left out.
pub data SetCookie : Type 0 where
  set_session set_csrf : Text → SetCookie
  clear_session clear_csrf : SetCookie

-- The values of the map that a `json.Marshal` of metadata gets.
pub data Meta : Type 0 where
  reason : Text → Meta
  invited_as : Text → ℕ → Meta

-- `InsertAudit`, whose error the handlers ignore.
abbrev pub record_event : Outcome → Request → Text → Option ℤ → Text → Option Text → World → World
record_event o r event_type uid subject meta w = record w {
  events =
      (insert_audit o w.accounts.connected
        (record {
          event_type = event_type;
          user_id = uid;
          ip = null_str (trim_space r.client_ip);
          user_agent = null_str r.user_agent;
          subject_hint = null_str subject;
          meta_json = meta;
        })
        w.events).1;
}

abbrev checked_address : Option (Text × Text) → Option Text
checked_address none = none
checked_address (some (name, address)) =
    if not (is_empty name) || is_empty (trim_space address)
    then none
    else some (to_lower (trim_space address))

-- `normalizeEmail`; `parse_address` is `mail.ParseAddress` with the name and the address it gives.
unfoldable pub normalize_email : (Text → Option (Text × Text)) → Text → Option Text
normalize_email parse_address s =
    let t = trim_space (to_lower s) in
    if is_empty t then none else checked_address (parse_address t)

-- `emailDomainHint`: what is behind the last "@".
unfoldable pub email_domain_hint : Text → Text
email_domain_hint [] = []
email_domain_hint (c ∷ s) =
    let rest = email_domain_hint s in
    if any (λ d. d == b'@') s then rest else if c == b'@' then s else []
