-- ===== src/Backup/Errors.antt =====
-- The table behind an error of the restore workflow.
use go_lab.Prelude.{
  ℕ, ◌≡◌, refl, ◌≢◌, inl, inr, ℤ, Text, Bool, Option, none, some, List, arith, ◌==◌, ap, Bool-cases,
}
use go_lab.Sql.{Call, Outcome, Result, ok, err}
use go_lab.Sql.Rows.{find, update, matching, update-none}
use go_lab.Backup.{
  BackupError, driver, Row, Db, create, approve, reject, cancel, fulfill, has_id, exec,
  fill_slot_at, is_rejectable, set_rejected, is_cancellable, set_cancelled, is_fulfillable,
  set_fulfilled,
}
use go_lab.Backup.Traces.{Request, create_for, approve_by, reject_by, cancel_by, fulfill_by, apply}

abbrev pub error_of : {A : Type 0} → Result BackupError A → Option BackupError
error_of (ok _) = none
error_of (err e) = some e

-- The error that a call returns, if it returns one.
unfoldable pub error : Call → Request → Db → Option BackupError
error c (create_for by scope label reason req_id) db =
    error_of (create c by scope label reason req_id db).0
error c (approve_by id by) db = error_of (approve c id by db).0
error c (reject_by id by why) db = error_of (reject c id by why db).0
error c (cancel_by id by) db = error_of (cancel c id by db).0
error c (fulfill_by id by note) db = error_of (fulfill c id by note db).0

exec-none :
    (o : Outcome) (p : Row → Bool) (f : Row → Row) (db : Db)
    → matching p db.rows ≡ 0
    → exec o db (update p f db.rows) ≡ db
exec-none Outcome.failed p f db h = refl
exec-none Outcome.done p f db h =
    ap (λ (xs : List Row). record db { rows = xs }) (update-none p f db.rows h)
exec-none Outcome.lost p f db h =
    ap (λ (xs : List Row). record db { rows = xs }) (update-none p f db.rows h)

create_error :
    (c : Call) (by : ℤ) (scope label reason req_id : Text) (db : Db) (e : BackupError)
    → e ≢ driver
    → error_of (create c by scope label reason req_id db).0 ≡ some e
    → (create c by scope label reason req_id db).1 ≡ db
unfolding create
create_error c by scope label reason req_id db e ne h = ground arith

reject_error :
    (c : Call) (id : ℕ) (actor : ℤ) (why : Text) (db : Db) (e : BackupError)
    → e ≢ driver
    → error_of (reject c id actor why db).0 ≡ some e
    → (reject c id actor why db).1 ≡ db
unfolding reject
reject_error c id actor why db e ne h =
    let unmatched = exec-none (c.driver 0) (is_rejectable id actor) (set_rejected c why) db in
    elim (Bool-cases (matching (is_rejectable id actor) db.rows == 0)) [
      | inl zero_rows ↦ let same = unmatched (ground arith) in ground arith
      | inr some_row ↦ ground arith
    ]

cancel_error :
    (c : Call) (id : ℕ) (by : ℤ) (db : Db) (e : BackupError)
    → e ≢ driver
    → error_of (cancel c id by db).0 ≡ some e
    → (cancel c id by db).1 ≡ db
unfolding cancel
cancel_error c id by db e ne h =
    let unmatched = exec-none (c.driver 0) (is_cancellable id by) (set_cancelled c) db in
    elim (Bool-cases (matching (is_cancellable id by) db.rows == 0)) [
      | inl zero_rows ↦ let same = unmatched (ground arith) in ground arith
      | inr some_row ↦ ground arith
    ]

fulfill_error :
    (c : Call) (id : ℕ) (actor : ℤ) (note : Text) (db : Db) (e : BackupError)
    → e ≢ driver
    → error_of (fulfill c id actor note db).0 ≡ some e
    → (fulfill c id actor note db).1 ≡ db
unfolding fulfill
fulfill_error c id actor note db e ne h =
    let unmatched = exec-none (c.driver 0) (is_fulfillable id) (set_fulfilled c note) db in
    elim (Bool-cases (matching (is_fulfillable id) db.rows == 0)) [
      | inl zero_rows ↦ let same = unmatched (ground arith) in ground arith
      | inr some_row ↦ ground arith
    ]

fill_slot_error :
    (c : Call) (id : ℕ) (a : ℤ) (o o' : Option ℤ) (db : Db) (e : BackupError)
    → e ≢ driver
    → error_of (fill_slot_at c id a o o' db).0 ≡ some e
    → (fill_slot_at c id a o o' db).1 ≡ db
fill_slot_error c id a none o' db e ne h = ground arith
fill_slot_error c id a (some x) none db e ne h = ground arith
fill_slot_error c id a (some x) (some y) db e ne h = refl

approve_error :
    (c : Call) (id : ℕ) (a : ℤ) (db : Db) (e : BackupError)
    → e ≢ driver
    → error_of (approve c id a db).0 ≡ some e
    → (approve c id a db).1 ≡ db
unfolding approve
approve_error c id a db e ne h = go (find (has_id id) db.rows) refl
  where
    go : (o : Option Row) → find (has_id id) db.rows ≡ o → (approve c id a db).1 ≡ db
    go none q = rw q (ground arith)
    go (some r) q = ground (arith, fill_slot_error c id a r.approval_1 r.approval_2 db e)

-- A store call that returns any error but one of the database has changed nothing, whatever the
-- request and the answers of the driver.
pub error_unchanged :
    (c : Call) (q : Request) (db : Db) (e : BackupError)
    → e ≢ driver
    → error c q db ≡ some e
    → apply c q db ≡ db
unfolding apply error
error_unchanged c (create_for by scope label reason req_id) db e ne h =
    create_error c by scope label reason req_id db e ne h
error_unchanged c (approve_by id by) db e ne h = approve_error c id by db e ne h
error_unchanged c (reject_by id by why) db e ne h = reject_error c id by why db e ne h
error_unchanged c (cancel_by id by) db e ne h = cancel_error c id by db e ne h
error_unchanged c (fulfill_by id by note) db e ne h = fulfill_error c id by note db e ne h
