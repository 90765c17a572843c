-- ===== src/Backup.antt =====
-- api/authstore/backup_restore.go: the requests to restore a backup, which two approvers have to
-- let through: rows, errors, and the methods that change the table. A method of the store is a
-- function from the table to its result and the table.
pub mod Listing
pub mod Effects
pub mod Valid
pub mod Invariant
pub mod Traces
pub mod Lifecycle
pub mod Errors
pub mod Decisions
pub mod Phases
pub mod Refinement
pub mod Restored
pub mod Handlers
mod Tests
use go_lab.Prelude.{
  ℕ, ◌+◌, ℤ, is_positive, int_eq, Text, codes, is_empty, Bool, true, false, ◌&&◌, ◌||◌, not, Option,
  none, some, List, ◌==◌, if◌then◌else◌,
}
use go_lab.Sql.{Call, Outcome, answered, applied, Result, ok, err, settle, null_str}
use go_lab.Sql.Rows.{find, update, matching, insert}

-- The constants `BackupRestoreStatus…`; the table holds no other status, since only they are written.
pub data Status : Type 0 where
  pending approved rejected fulfilled cancelled : Status

abbrev pub status_text : Status → Text
status_text pending = codes "pending"
status_text approved = codes "approved"
status_text rejected = codes "rejected"
status_text fulfilled = codes "fulfilled"
status_text cancelled = codes "cancelled"

abbrev pub is_pending : Status → Bool
is_pending pending = true
is_pending _ = false

abbrev pub is_approved : Status → Bool
is_approved approved = true
is_approved _ = false

-- The sentinel errors, and the other errors that the methods return: `driver` is an error of the
-- database, `invalid` one of `errors.New` for bad arguments.
pub data BackupError : Type 0 where
  not_found invalid_state cannot_approve duplicate_slot already_filled : BackupError
  not_requester nil_db invalid driver : BackupError

pub record Row : Type 0 where
  pub id : ℕ
  pub created_at : ℕ
  pub updated_at : ℕ
  pub requested_by : ℤ
  pub scope : Text
  pub restore_point_label : Text
  pub reason : Text
  pub status : Status
  pub rejection_reason : Option Text
  pub approval_1 : Option ℤ
  pub approval_1_at : Option ℕ
  pub approval_2 : Option ℤ
  pub approval_2_at : Option ℕ
  pub fulfilled_at : Option ℕ
  pub fulfilled_note : Option Text
  pub request_id : Option Text

-- The table `backup_restore_requests`, behind a store that may have no database.
pub record Db : Type 0 where
  pub connected : Bool
  pub rows : List Row
  pub next_id : ℕ

abbrev pub has_id : ℕ → Row → Bool
has_id id r = r.id == id

-- A statement that is committed on its own: it takes effect unless it failed.
abbrev pub exec : Outcome → Db → List Row → Db
exec o db rows = record db { rows = settle o db.rows rows }

-- The row that the INSERT of `CreateBackupRestoreRequest` writes.
abbrev pub new_row : Call → ℕ → ℤ → Text → Text → Text → Text → Row
new_row c id requested_by scope label reason req_id = record {
  id = id;
  created_at = c.db_now;
  updated_at = c.db_now;
  requested_by = requested_by;
  scope = scope;
  restore_point_label = label;
  reason = reason;
  status = pending;
  rejection_reason = none;
  approval_1 = none;
  approval_1_at = none;
  approval_2 = none;
  approval_2_at = none;
  fulfilled_at = none;
  fulfilled_note = none;
  request_id = null_str req_id;
}

abbrev pub insert_row : Outcome → Row → Db → Db
insert_row o row db = record db {
  rows = settle o db.rows (insert row db.rows);
  next_id = settle o db.next_id (db.next_id + 1);
}

-- `CreateBackupRestoreRequest`: the INSERT is statement 0, `LastInsertId` is 1.
unfoldable pub create : Call → ℤ → Text → Text → Text → Text → Db → Result BackupError ℕ × Db
create c requested_by scope label reason req_id db =
    let db' =
      insert_row (c.driver 0) (new_row c db.next_id requested_by scope label reason req_id) db in
    if not db.connected
    then (err nil_db, db)
    else if not (is_positive requested_by) || is_empty scope || is_empty label || is_empty reason
    then (err invalid, db)
    else if not (answered (c.driver 0))
    then (err driver, db')
    else if not (answered (c.driver 1))
    then (err driver, db')
    else (ok db.next_id, db')

-- `GetBackupRestoreRequest`, with the SELECT as statement `k` of the call.
unfoldable pub get : ℕ → Call → ℕ → Db → Result BackupError Row
get k c id db =
    if not db.connected
    then err nil_db
    else if not (answered (c.driver k))
    then err driver
    else elim (find (has_id id) db.rows) [ none ↦ err not_found | some r ↦ ok r ]

abbrev pub is_pending_at : ℕ → Row → Bool
is_pending_at id r = has_id id r && is_pending r.status

abbrev set_slot_1 : Call → ℤ → Row → Row
set_slot_1 c approver r = record r {
  updated_at = c.db_now;
  approval_1 = some approver;
  approval_1_at = some c.now;
}

abbrev set_slot_2 : Call → ℤ → Row → Row
set_slot_2 c approver r = record r {
  updated_at = c.db_now;
  status = approved;
  approval_2 = some approver;
  approval_2_at = some c.now;
}

-- The UPDATE of a transaction (statement 2) and its COMMIT (statement 3). An error before the
-- COMMIT rolls back.
abbrev commit_update : Call → (Row → Bool) → (Row → Row) → Db → Result BackupError (Unit {0}) × Db
commit_update c p f db = if not (answered (c.driver 2)) then (err driver, db) else (
  if answered (c.driver 3) then ok tt else err driver,
  exec (c.driver 3) db (update p f db.rows),
)

-- Which approval slot is left, from the two that were read.
abbrev fill_slot_at : Call → ℕ → ℤ → Option ℤ → Option ℤ → Db → Result BackupError (Unit {0}) × Db
fill_slot_at c id approver none slot_2 db =
    commit_update c (is_pending_at id) (set_slot_1 c approver) db
fill_slot_at c id approver (some first) none db =
    if int_eq first approver
    then (err duplicate_slot, db)
    else commit_update c (is_pending_at id) (set_slot_2 c approver) db
fill_slot_at c id approver (some first) (some second) db =
    (if int_eq first approver then err duplicate_slot else err already_filled, db)

abbrev fill_slot : Call → ℕ → ℤ → Row → Db → Result BackupError (Unit {0}) × Db
fill_slot c id approver r db = fill_slot_at c id approver r.approval_1 r.approval_2 db

-- The tests of `ApproveBackupRestoreRequest` on the row that was read.
abbrev approve_row : Call → ℕ → ℤ → Row → Db → Result BackupError (Unit {0}) × Db
approve_row c id approver r db =
    if not (is_pending r.status)
    then (err invalid_state, db)
    else if int_eq r.requested_by approver
    then (err cannot_approve, db)
    else fill_slot c id approver r db

-- `ApproveBackupRestoreRequest`: BEGIN is statement 0, SELECT … FOR UPDATE is 1. The lock keeps
-- the row as it was read until the COMMIT.
unfoldable pub approve : Call → ℕ → ℤ → Db → Result BackupError (Unit {0}) × Db
approve c id approver db =
    if not db.connected
    then (err nil_db, db)
    else if not (is_positive approver)
    then (err invalid, db)
    else if not (answered (c.driver 0))
    then (err driver, db)
    else if not (answered (c.driver 1))
    then (err driver, db)
    else elim (find (has_id id) db.rows) [
      | none ↦ (err not_found, db)
      | some r ↦ approve_row c id approver r db
    ]

abbrev set_rejected : Call → Text → Row → Row
set_rejected c rejection_reason r = record r {
  updated_at = c.db_now;
  status = rejected;
  rejection_reason = some rejection_reason;
}

abbrev pub is_rejectable : ℕ → ℤ → Row → Bool
is_rejectable id actor r = is_pending_at id r && not (int_eq r.requested_by actor)

-- Why an UPDATE of Reject or Cancel matched no row: `RowsAffected` was statement 1, the SELECT is 2.
explain : Call → ℕ → (Row → Bool) → BackupError → Db → Result BackupError (Unit {0})
unfolding get
explain c id test e db = elim (get 2 c id db) [
  | err why ↦ err why
  | ok r ↦ if test r then err e else err invalid_state
]

-- `RejectBackupRestoreRequest`. Every row that the UPDATE matches is changed by it.
unfoldable pub reject : Call → ℕ → ℤ → Text → Db → Result BackupError (Unit {0}) × Db
unfolding explain
reject c id actor rejection_reason db =
    let db' =
      exec (c.driver 0) db
        (update (is_rejectable id actor) (set_rejected c rejection_reason) db.rows) in
    let result : Result BackupError (Unit {0}) =
      if matching (is_rejectable id actor) db.rows == 0
      then explain c id (λ r. int_eq r.requested_by actor) cannot_approve db
      else ok tt in
    if not db.connected
    then (err nil_db, db)
    else if not (is_positive actor)
    then (err invalid, db)
    else if not (answered (c.driver 0))
    then (err driver, db')
    else if not (answered (c.driver 1))
    then (err driver, db')
    else (result, db')

abbrev set_cancelled : Call → Row → Row
set_cancelled c r = record r { updated_at = c.db_now; status = cancelled }

abbrev pub is_cancellable : ℕ → ℤ → Row → Bool
is_cancellable id requester r = is_pending_at id r && int_eq r.requested_by requester

-- `CancelBackupRestoreRequest`
unfoldable pub cancel : Call → ℕ → ℤ → Db → Result BackupError (Unit {0}) × Db
unfolding explain
cancel c id requester db =
    let db' =
      exec (c.driver 0) db (update (is_cancellable id requester) (set_cancelled c) db.rows) in
    let result : Result BackupError (Unit {0}) =
      if matching (is_cancellable id requester) db.rows == 0
      then explain c id (λ r. not (int_eq r.requested_by requester)) not_requester db
      else ok tt in
    if not db.connected
    then (err nil_db, db)
    else if not (answered (c.driver 0))
    then (err driver, db')
    else if not (answered (c.driver 1))
    then (err driver, db')
    else (result, db')

abbrev set_fulfilled : Call → Text → Row → Row
set_fulfilled c note r = record r {
  updated_at = c.db_now;
  status = fulfilled;
  fulfilled_at = some c.db_now;
  fulfilled_note = some note;
}

abbrev pub is_fulfillable : ℕ → Row → Bool
is_fulfillable id r = has_id id r && is_approved r.status

-- `FulfillBackupRestoreRequest`; the actor is not used by the code either.
unfoldable pub fulfill : Call → ℕ → ℤ → Text → Db → Result BackupError (Unit {0}) × Db
fulfill c id actor note db =
    let db' = exec (c.driver 0) db (update (is_fulfillable id) (set_fulfilled c note) db.rows) in
    if not db.connected
    then (err nil_db, db)
    else if not (answered (c.driver 0))
    then (err driver, db')
    else if not (answered (c.driver 1))
    then (err driver, db')
    else if matching (is_fulfillable id) db.rows == 0
    then (err invalid_state, db')
    else (ok tt, db')
