-- ===== src/Audit.antt =====
-- api/authstore/admin_audit.go, and InsertAudit of api/authstore/store.go: the audit tables, to
-- which rows are only added.
use go_lab.Prelude.{ℤ, Text, Bool, not, Option, List, if◌then◌else◌}
use go_lab.Sql.{Outcome, answered, Result, ok, err, settle}
use go_lab.Sql.Rows.{insert}

pub data AuditError : Type 0 where
  nil_db driver : AuditError

-- A row of `admin_audit_events`.
pub record AdminEvent : Type 0 where
  pub actor_user_id : Option ℤ
  pub auth_subject : Text
  pub action : Text
  pub resource_type : Text
  pub resource_id : Option Text
  pub reason : Option Text
  pub request_id : Option Text
  pub ip : Option Text
  pub user_agent : Option Text
  pub meta_json : Option Text

-- `InsertAdminAuditEvent`, on the row made of its arguments.
unfoldable pub insert_admin_event :
    Outcome → Bool → AdminEvent → List AdminEvent → Result AuditError (Unit {0}) × List AdminEvent
insert_admin_event o connected event events =
    if not connected
    then (err nil_db, events)
    else (if answered o then ok tt else err driver, settle o events (insert event events))

-- A row of `auth_audit_events`.
pub record AuthEvent : Type 0 where
  pub event_type : Text
  pub user_id : Option ℤ
  pub ip : Option Text
  pub user_agent : Option Text
  pub subject_hint : Option Text
  pub meta_json : Option Text

-- `InsertAudit`, on the row made of its arguments.
unfoldable pub insert_audit :
    Outcome → Bool → AuthEvent → List AuthEvent → Result AuditError (Unit {0}) × List AuthEvent
insert_audit o connected event events =
    if not connected
    then (err nil_db, events)
    else (if answered o then ok tt else err driver, settle o events (insert event events))
