-- ===== src/Platform.antt =====
-- api/myhandlers/platform_handlers.go but for the ledger, and the probes of myhandlers.go.
pub mod Effective
mod Tests
use go_lab.Prelude.{
  ℕ, ℤ, Text, codes, text_eq, is_empty, Bool, true, false, ◌&&◌, not, Option, none, some, List, [],
  ◌∷◌, ◌++◌, map, reverse, take, any, ltb, ◌==◌, if◌then◌else◌,
}
use go_lab.Strings.{trim_space}
use go_lab.Sql.{Call, Outcome, answered, Result, ok, err, null_str}
use go_lab.Sql.Order.{select_page}
use go_lab.Http.{forbidden, internal, Reply, success, error, Context, auth_user_id, reason_of}
use go_lab.Audit.{AdminEvent, insert_admin_event}
use go_lab.Rbac.Perm
use go_lab.Rbac.{permissions_for_role}

-- `ListPlayersStub` and `ListCharactersStub`: no items, with the permission that each needs; the
-- constant notes are left out.
abbrev pub list_players : Reply (List Text × List Text)
list_players = success 200 ([], Perm.players_read ∷ [])

abbrev pub list_characters : Reply (List Text × List Text)
list_characters = success 200 ([], Perm.characters_read ∷ [])

-- The permissions that are not among those seen, each once.
unfoldable pub collect : List Text → List Text → List Text
collect seen [] = []
collect seen (p ∷ ps) =
    let rest = collect seen ps in
    let rest' = collect (p ∷ seen) ps in if any (text_eq p) seen then rest else p ∷ rest'

unfoldable pub all_permissions : List Text → List Text
all_permissions [] = []
all_permissions (r ∷ roles) = permissions_for_role r ++ all_permissions roles

-- `securityMeRolesData`
pub record MeRoles : Type 0 where
  pub user_id : ℤ
  pub roles : List Text
  pub effective_permissions : List Text

-- `GetSecurityMeRoles`, with the roles that the middleware has set.
unfoldable pub get_me_roles : Context → List Text → Reply MeRoles
get_me_roles ctx roles = elim (auth_user_id ctx.auth_subject) [
  | none ↦ error 403 forbidden
  | some uid ↦ success 200 (record {
    user_id = uid;
    roles = roles;
    effective_permissions = collect [] (all_permissions roles);
  })
]

-- `adminAuditEventRow`, without the id and the time, which the model of the table does not keep.
pub record AuditRow : Type 0 where
  pub actor_user_id : Option ℤ
  pub auth_subject : Text
  pub action : Text
  pub resource_type : Text
  pub resource_id : Option Text
  pub reason : Option Text
  pub request_id : Option Text

abbrev audit_row : AdminEvent → AuditRow
audit_row e = record {
  actor_user_id = e.actor_user_id;
  auth_subject = e.auth_subject;
  action = e.action;
  resource_type = e.resource_type;
  resource_id = e.resource_id;
  reason = e.reason;
  request_id = e.request_id;
}

-- `ListAdminAuditEvents`: the last 100, newest first; ids ascend in the order of the table.
unfoldable pub list_admin_events : Call → List AdminEvent → Reply (List AuditRow × ℕ)
list_admin_events c events =
    if not (answered (c.driver 0))
    then error 500 internal
    else success 200 (map audit_row (take 100 (reverse events)), 100)

-- `PostSupportAck`, with the message of the body, which is empty if the body is not there or does
-- not bind; `marshal` gives the JSON of the map with that message.
unfoldable pub post_support_ack :
    (Text → Text)
    → Bool
    → Call
    → Context
    → Text
    → List AdminEvent
    → Reply (Unit {0}) × List AdminEvent
post_support_ack marshal connected c ctx message events = elim (auth_user_id ctx.auth_subject) [
  | none ↦ (error 403 forbidden, events)
  | some uid ↦
      let text = trim_space message in
      let event : AdminEvent = record {
        actor_user_id = some uid;
        auth_subject = ctx.auth_subject;
        action = codes "support.ack";
        resource_type = codes "support";
        resource_id = none;
        reason = null_str (reason_of ctx);
        request_id = null_str ctx.request_id;
        ip = null_str ctx.client_ip;
        user_agent = null_str ctx.user_agent;
        meta_json = if is_empty text then none else some (marshal text);
      } in
      let (result, events') = insert_admin_event (c.driver 0) connected event events in
      elim result [ err _ ↦ (error 500 internal, events') | ok _ ↦ (success 200 tt, events') ]
]

-- What the readiness probe answers: status 200 for `ready`, with the version if one is expected, and
-- 503 for the others.
pub data Readiness : Type 0 where
  ready : Option ℕ → Readiness
  no_database ping_failed migrations_not_applied check_failed : Readiness
  dirty : ℕ → Readiness
  version_mismatch : ℕ → ℕ → Readiness

-- A row of `schema_migrations`.
pub record Migration : Type 0 where
  pub version : ℕ
  pub dirty : Bool

abbrev check_version : ℕ → List Migration → Readiness
check_version expected [] = migrations_not_applied
check_version expected (m ∷ _) =
    if m.dirty
    then Readiness.dirty m.version
    else if ltb m.version expected
    then version_mismatch m.version expected
    else ready (some m.version)

-- `Ready`: the ping is statement 0, the SELECT 1. An expected version of 0 asks for none.
unfoldable pub readyz : Bool → ℕ → Call → List Migration → Readiness
readyz has_database expected c migrations =
    if not has_database
    then no_database
    else if not (answered (c.driver 0))
    then ping_failed
    else if expected == 0
    then ready none
    else if not (answered (c.driver 1))
    then check_failed
    else check_version expected
        (select_page (λ (m : Migration). m.version) (λ _. true) 1 migrations)
