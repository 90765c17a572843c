-- ===== src/Backup/Effects.antt =====
-- What each method makes of the table: nothing, or its one statement.
use go_lab.Prelude.{
  ℕ, ◌≡◌, refl, ◌≢◌, ◌⊎◌, inl, inr, ℤ, int_eq, int_eq_iff, Text, Bool, false, Option, none, some,
  arith, Bool-cases,
}
use go_lab.Sql.{Call}
use go_lab.Sql.Rows.{find, update}
use go_lab.Backup.{
  pending, Row, Db, create, approve, reject, cancel, fulfill, has_id, exec, insert_row, new_row,
  is_pending_at, set_slot_1, set_slot_2, fill_slot, fill_slot_at, commit_update, is_rejectable,
  set_rejected, is_cancellable, set_cancelled, is_fulfillable, set_fulfilled,
}

pub create-effect :
    (c : Call) (by : ℤ) (scope label reason req_id : Text) (db : Db)
    → ((create c by scope label reason req_id db).1 ≡ db)
      ⊎ ((create c by scope label reason req_id db).1
          ≡ insert_row (c.driver 0) (new_row c db.next_id by scope label reason req_id) db)
unfolding create
create-effect c by scope label reason req_id db = ground arith

pub reject-effect :
    (c : Call) (id : ℕ) (actor : ℤ) (why : Text) (db : Db)
    → ((reject c id actor why db).1 ≡ db)
      ⊎ ((reject c id actor why db).1
          ≡ exec (c.driver 0) db (update (is_rejectable id actor) (set_rejected c why) db.rows))
unfolding reject
reject-effect c id actor why db = ground arith

pub cancel-effect :
    (c : Call) (id : ℕ) (by : ℤ) (db : Db)
    → ((cancel c id by db).1 ≡ db)
      ⊎ ((cancel c id by db).1
          ≡ exec (c.driver 0) db (update (is_cancellable id by) (set_cancelled c) db.rows))
unfolding cancel
cancel-effect c id by db = ground arith

pub fulfill-effect :
    (c : Call) (id : ℕ) (actor : ℤ) (note : Text) (db : Db)
    → ((fulfill c id actor note db).1 ≡ db)
      ⊎ ((fulfill c id actor note db).1
          ≡ exec (c.driver 0) db (update (is_fulfillable id) (set_fulfilled c note) db.rows))
unfolding fulfill
fulfill-effect c id actor note db = ground arith

-- An approval fills the first slot, or the second beside another approver, of a pending request
-- that someone else has made.
pub data Approval (c : Call) (id : ℕ) (a : ℤ) (db db' : Db) : Type 0 where
  unchanged : db' ≡ db → Approval c id a db db'
  first_slot :
      (r : Row)
      → find (has_id id) db.rows ≡ some r
      → r.status ≡ pending
      → a ≢ r.requested_by
      → r.approval_1 ≡ none
      → db' ≡ exec (c.driver 3) db (update (is_pending_at id) (set_slot_1 c a) db.rows)
      → Approval c id a db db'
  second_slot :
      (r : Row) (first : ℤ)
      → find (has_id id) db.rows ≡ some r
      → r.status ≡ pending
      → a ≢ r.requested_by
      → r.approval_1 ≡ some first
      → first ≢ a
      → r.approval_2 ≡ none
      → db' ≡ exec (c.driver 3) db (update (is_pending_at id) (set_slot_2 c a) db.rows)
      → Approval c id a db db'

commit_update-effect :
    (c : Call) (p : Row → Bool) (f : Row → Row) (db : Db)
    → ((commit_update c p f db).1 ≡ db)
      ⊎ ((commit_update c p f db).1 ≡ exec (c.driver 3) db (update p f db.rows))
commit_update-effect c p f db = ground arith

fill_slot-effect :
    (c : Call) (id : ℕ) (a : ℤ) (r : Row) (db : Db)
    → find (has_id id) db.rows ≡ some r
    → r.status ≡ pending
    → a ≢ r.requested_by
    → Approval c id a db (fill_slot c id a r db).1
fill_slot-effect c id a r db e waiting other = go r.approval_1 refl r.approval_2 refl
  where
    go :
        (o : Option ℤ)
        → r.approval_1 ≡ o
        → (o' : Option ℤ) → r.approval_2 ≡ o'
        → Approval c id a db (fill_slot_at c id a o o' db).1
    go none empty o' _ = elim (commit_update-effect c (is_pending_at id) (set_slot_1 c a) db) [
      | inl same ↦ unchanged same
      | inr did ↦ first_slot r e waiting other empty did
    ]
    go (some first) taken none empty = elim (Bool-cases (int_eq first a)) [
      | inl same ↦ unchanged (rw same)
      | inr differ ↦
          rw differ (elim (commit_update-effect c (is_pending_at id) (set_slot_2 c a) db) [
            | inl same ↦ unchanged same
            | inr did ↦
                second_slot r first e waiting other taken (ground (arith, int_eq_iff first a)) empty
                  did
          ])
    ]
    go (some first) taken (some second) _ = unchanged refl

-- Whether the call goes on behind the guards of `ApproveBackupRestoreRequest`.
pub approve-effect :
    (c : Call) (id : ℕ) (a : ℤ) (db : Db) → Approval c id a db (approve c id a db).1
unfolding approve
approve-effect c id a db = go (find (has_id id) db.rows) refl
  where
    go : (o : Option Row) → find (has_id id) db.rows ≡ o → Approval c id a db (approve c id a db).1
    go none e = unchanged (rw e (ground arith))
    go (some r) e =
        let either : ((approve c id a db).1 ≡ db)
            ⊎ (r.status ≡ pending)
              × (int_eq r.requested_by a ≡ false)
              × ((approve c id a db).1 ≡ (fill_slot c id a r db).1) =
          rw e (ground arith) in
        elim either [
          | inl same ↦ unchanged same
          | inr (waiting, differ, did) ↦
              rw did (
                fill_slot-effect c id a r db e waiting
                  (ground (arith, int_eq_iff r.requested_by a)))
        ]
