-- ===== src/Backup/Handlers.antt =====
-- api/myhandlers/platform_backup_restore_handlers.go: the endpoints that change restore requests.
-- Each calls the store and then, if that succeeded, appends an audit event, whose own error is
-- ignored as in the source.
pub mod Audited
pub mod Pages
mod Tests
use go_lab.Prelude.{
  ℕ, ◌+◌, ℤ, pos, Text, codes, is_empty, Bool, true, false, ◌||◌, Option, none, some, List, [], ◌∷◌,
  ◌++◌, ltb, length, if◌then◌else◌,
}
use go_lab.Strings.{trim_space}
use go_lab.Strconv.{itoa}
use go_lab.Sql.{Call, Outcome, Result, ok, err, after, null_str}
use go_lab.Http.{
  Code, validation, forbidden, conflict, internal, Reply, success, error, Context, auth_user_id,
  id_of, reason_of, trimmed_reason,
}
use go_lab.Audit.{AdminEvent, insert_admin_event}
use go_lab.Backup.{
  BackupError, not_found, invalid_state, cannot_approve, duplicate_slot, already_filled,
  not_requester, nil_db, invalid, driver, Status, pending, rejected, fulfilled, cancelled,
  status_text, Row, Db, create, get, approve, reject, cancel, fulfill,
}

-- What the store holds of this workflow.
pub record World : Type 0 where
  pub requests : Db
  pub events : List AdminEvent

-- The audit event of an action on request `id`.
pub event_of : Context → ℤ → Text → ℕ → Text → Option Text → AdminEvent
event_of ctx uid action id reason meta = record {
  actor_user_id = some uid;
  auth_subject = ctx.auth_subject;
  action = action;
  resource_type = codes "backup_restore_request";
  resource_id = null_str (itoa (pos id));
  reason = null_str reason;
  request_id = null_str ctx.request_id;
  ip = null_str ctx.client_ip;
  user_agent = null_str ctx.user_agent;
  meta_json = meta;
}

-- The table after the store's call, and the event behind it.
abbrev record_event : Outcome → AdminEvent → Db → List AdminEvent → World
record_event o event db events = record {
  requests = db;
  events = (insert_admin_event o db.connected event events).1;
}

-- `json.Marshal(map[string]any{"status_after": status})`; a status holds nothing to escape.
status_meta : Text → Text
status_meta status =
    b'{' ∷ b'"' ∷ codes "status_after" ++ b'"' ∷ b':' ∷ b'"' ∷ status ++ b'"' ∷ b'}' ∷ []

-- `PostBackupRestoreRequest`, with the JSON body as it was bound, or `none` if it was refused.
-- The INSERT and its id are statements 0 and 1, the audit event is statement 2.
pub post_request : Call → Context → Option (Text × Text) → World → Reply (ℕ × Text) × World
post_request c ctx body w = elim (auth_user_id ctx.auth_subject) [
  | none ↦ (error 403 forbidden, w)
  | some uid ↦ elim body [
    | none ↦ (error 400 validation, w)
    | some (body_scope, body_label) ↦
        let scope = trim_space body_scope in
        let label = trim_space body_label in
        let reason = trimmed_reason ctx.action_reason in
        if is_empty scope || ltb 64 (length scope)
        then (error 400 validation, w)
        else if is_empty label || ltb 256 (length label)
        then (error 400 validation, w)
        else if is_empty reason
        then (error 400 validation, w)
        else (let (result, db') = create c uid scope label reason ctx.request_id w.requests in
            elim result [
              | err _ ↦ (error 500 internal, record w { requests = db' })
              | ok id ↦ (
                success 200 (id, status_text pending),
                record_event (c.driver 2)
                    (event_of ctx uid (codes "backup.restore.request") id reason none) db' w.events,
              )
            ])
  ]
]

abbrev status_after : Result BackupError Row → Text
status_after (ok r) = status_text r.status
status_after (err _) = codes ""

-- The answer to an error of Approve, Reject, Cancel and Fulfill.
pub approve_reply : {A : Type 0} → BackupError → Reply A
approve_reply not_found = error 404 Code.not_found
approve_reply invalid_state = error 409 conflict
approve_reply cannot_approve = error 403 forbidden
approve_reply duplicate_slot = error 409 conflict
approve_reply already_filled = error 409 conflict
approve_reply _ = error 500 internal

pub reject_reply : {A : Type 0} → BackupError → Reply A
reject_reply not_found = error 404 Code.not_found
reject_reply cannot_approve = error 403 forbidden
reject_reply invalid_state = error 409 conflict
reject_reply _ = error 500 internal

pub cancel_reply : {A : Type 0} → BackupError → Reply A
cancel_reply not_found = error 404 Code.not_found
cancel_reply not_requester = error 403 forbidden
cancel_reply invalid_state = error 409 conflict
cancel_reply _ = error 500 internal

pub fulfill_reply : {A : Type 0} → BackupError → Reply A
fulfill_reply invalid_state = error 409 conflict
fulfill_reply _ = error 500 internal

-- Statements 0 to 3 are those of Approve, 4 reads the row again, 5 is the audit event.
approved_reply :
    Call → Context → ℤ → ℕ → World → Result BackupError (Unit {0}) × Db → Reply (ℕ × Text) × World
approved_reply c ctx uid id w (err e, db') = (approve_reply e, record w { requests = db' })
approved_reply c ctx uid id w (ok _, db') =
    let status = status_after (get 4 c id db') in
    (
      success 200 (id, status),
      record_event (c.driver 5)
          (event_of ctx uid (codes "backup.restore.approve") id (reason_of ctx)
            (some (status_meta status)))
          db' w.events,
    )

-- The beginning of the four handlers on one request: the user, then the id of the path.
guarded : {A : Type 0} → Option ℤ → Option ℕ → World → (ℤ → ℕ → Reply A × World) → Reply A × World
guarded none i w act = (error 403 forbidden, w)
guarded (some uid) none w act = (error 400 validation, w)
guarded (some uid) (some id) w act = act uid id

-- `PostBackupRestoreApprove`
pub post_approve : Call → Context → World → Reply (ℕ × Text) × World
unfolding guarded approved_reply
post_approve c ctx w =
    guarded (auth_user_id ctx.auth_subject) (id_of ctx) w
      λ uid id. approved_reply c ctx uid id w (approve c id uid w.requests)

-- The end of the other three handlers, whose event is statement 3.
settled_reply :
    (BackupError → Reply (ℕ × Text))
    → Text
    → Text
    → Call
    → Context
    → ℤ
    → ℕ
    → World
    → Result BackupError (Unit {0}) × Db
    → Reply (ℕ × Text) × World
settled_reply reply action status c ctx uid id w (err e, db') =
    (reply e, record w { requests = db' })
settled_reply reply action status c ctx uid id w (ok _, db') = (
  success 200 (id, status),
  record_event (c.driver 3) (event_of ctx uid action id (reason_of ctx) none) db' w.events,
)

-- `PostBackupRestoreReject`
pub post_reject : Call → Context → World → Reply (ℕ × Text) × World
unfolding guarded settled_reply
post_reject c ctx w = guarded (auth_user_id ctx.auth_subject) (id_of ctx) w λ uid id.
    settled_reply reject_reply (codes "backup.restore.reject") (status_text rejected) c ctx uid id w
      (reject c id uid (reason_of ctx) w.requests)

-- `PostBackupRestoreFulfill`
pub post_fulfill : Call → Context → World → Reply (ℕ × Text) × World
unfolding guarded settled_reply
post_fulfill c ctx w = guarded (auth_user_id ctx.auth_subject) (id_of ctx) w λ uid id.
    settled_reply fulfill_reply (codes "backup.restore.fulfill") (status_text fulfilled) c ctx uid
      id w (fulfill c id uid (reason_of ctx) w.requests)

-- `PostBackupRestoreCancel`
pub post_cancel : Call → Context → World → Reply (ℕ × Text) × World
unfolding guarded settled_reply
post_cancel c ctx w = guarded (auth_user_id ctx.auth_subject) (id_of ctx) w λ uid id.
    settled_reply cancel_reply (codes "backup.restore.cancel") (status_text cancelled) c ctx uid id
      w (cancel c id uid w.requests)
