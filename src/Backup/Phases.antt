-- ===== src/Backup/Phases.antt =====
-- The restore workflow as a small machine, one request at a time, and how each UPDATE moves it.
use go_lab.Prelude.{
  ℕ, ◌≡◌, refl, ◌∙◌, inl, inr, ℤ, is_positive, int_eq, Text, Bool, true, false, ◌&&◌, not, Option,
  none, some, arith, ◌==◌, if◌then◌else◌,
}
use go_lab.Sql.{Call, Outcome, applied}
use go_lab.Sql.Rows.{find, update}
use go_lab.Sql.Keys.{find-update, find-insert, revise}
use go_lab.Backup.{
  Status, pending, approved, rejected, fulfilled, cancelled, Row, Db, create, has_id, exec,
  insert_row, new_row, is_pending_at, is_rejectable, set_rejected, is_cancellable, set_cancelled,
  is_fulfillable, set_fulfilled,
}
use go_lab.Backup.Effects.{create-effect}
use go_lab.Backup.Traces.{Request, create_for, approve_by, reject_by, cancel_by, fulfill_by}

-- A request as its users see it: who has asked and who has approved first, while it is open.
pub data Phase : Type 0 where
  waiting : ℤ → Phase
  seconded : ℤ → ℤ → Phase
  granted restored refused withdrawn : Phase

abbrev phase_of : ℤ → Status → Option ℤ → Phase
phase_of by pending none = waiting by
phase_of by pending (some first) = seconded by first
phase_of by approved _ = granted
phase_of by rejected _ = refused
phase_of by fulfilled _ = restored
phase_of by cancelled _ = withdrawn

abbrev pub phase : Row → Phase
phase r = phase_of r.requested_by r.status r.approval_1

-- What each call means for a request.
abbrev pub approved_by : ℤ → Phase → Phase
approved_by a (waiting by) =
    if is_positive a && not (int_eq by a) then seconded by a else waiting by
approved_by a (seconded by first) =
    if is_positive a && (not (int_eq by a) && not (int_eq first a))
    then granted
    else seconded by first
approved_by a p = p

abbrev rejected_by : ℤ → Phase → Phase
rejected_by a (waiting by) = if is_positive a && not (int_eq by a) then refused else waiting by
rejected_by a (seconded by first) =
    if is_positive a && not (int_eq by a) then refused else seconded by first
rejected_by a p = p

abbrev cancelled_by : ℤ → Phase → Phase
cancelled_by a (waiting by) = if int_eq by a then withdrawn else waiting by
cancelled_by a (seconded by first) = if int_eq by a then withdrawn else seconded by first
cancelled_by a p = p

abbrev fulfilled_now : Phase → Phase
fulfilled_now granted = restored
fulfilled_now p = p

abbrev pub spec : ℕ → Request → Phase → Phase
spec id (create_for by scope label reason req_id) p = p
spec id (approve_by k a) p = if k == id then approved_by a p else p
spec id (reject_by k a why) p = if k == id then rejected_by a p else p
spec id (cancel_by k a) p = if k == id then cancelled_by a p else p
spec id (fulfill_by k a note) p = if k == id then fulfilled_now p else p

-- The table holds the request in that phase.
pub record IsIn (id : ℕ) (p : Phase) (db : Db) : Type 0 where
  pub row : Row
  pub found : find (has_id id) db.rows ≡ some row
  pub at : phase row ≡ p

-- A row after a statement of its own.
abbrev after_exec : Outcome → (Row → Bool) → (Row → Row) → Row → Row
after_exec o p f r = if applied o then revise p f r else r

find-exec :
    (o : Outcome) (db : Db) (p : Row → Bool) (f : Row → Row) (id : ℕ) (r : Row)
    → ((x : Row) → (f x).id ≡ x.id)
    → find (has_id id) db.rows ≡ some r
    → find (has_id id) (exec o db (update p f db.rows)).rows ≡ some (after_exec o p f r)
find-exec Outcome.failed db p f id r same e = e
find-exec Outcome.done db p f id r same e = find-update (λ x. x.id) id p f db.rows same ∙ rw e
find-exec Outcome.lost db p f id r same e = find-update (λ x. x.id) id p f db.rows same ∙ rw e

pub exec-IsIn :
    (o : Outcome) (db : Db) (p : Row → Bool) (f : Row → Row) (id : ℕ) (r : Row) (q : Phase)
    → ((x : Row) → (f x).id ≡ x.id)
    → find (has_id id) db.rows ≡ some r
    → phase (after_exec o p f r) ≡ q
    → IsIn id q (exec o db (update p f db.rows))
exec-IsIn o db p f id r q same e at = record {
  row = after_exec o p f r;
  found = find-exec o db p f id r same e;
  at = at;
}

insert-IsIn :
    (o : Outcome) (db : Db) (new : Row) (id : ℕ) (r : Row)
    → find (has_id id) db.rows ≡ some r
    → IsIn id (phase r) (insert_row o new db)
insert-IsIn Outcome.failed db new id r e = record { row = r; found = e; at = refl }
insert-IsIn Outcome.done db new id r e = record {
  row = r;
  found = find-insert (λ x. x.id) id new db.rows ∙ rw e;
  at = refl;
}
insert-IsIn Outcome.lost db new id r e = record {
  row = r;
  found = find-insert (λ x. x.id) id new db.rows ∙ rw e;
  at = refl;
}

pub create-IsIn :
    (c : Call) (by : ℤ) (scope label reason req_id : Text) (db : Db) (id : ℕ) (r : Row)
    → find (has_id id) db.rows ≡ some r
    → IsIn id (phase r) (create c by scope label reason req_id db).1
create-IsIn c by scope label reason req_id db id r e =
    elim (create-effect c by scope label reason req_id db) [
      | inl same ↦ rw same (record { row = r; found = e; at = refl })
      | inr did ↦
          rw did
            (insert-IsIn (c.driver 0) db (new_row c db.next_id by scope label reason req_id) id r e)
    ]

-- How each UPDATE moves the phase of a row.
pub reject-phase :
    (c : Call) (k : ℕ) (a : ℤ) (why : Text) (id : ℕ) (r : Row)
    → is_positive a ≡ true
    → r.id ≡ id
    → phase (revise (is_rejectable k a) (set_rejected c why) r)
      ≡ spec id (reject_by k a why) (phase r)
reject-phase c k a why id r positive at = go r.status r.approval_1 refl refl
  where
    go :
        (s : Status) (o : Option ℤ)
        → r.status ≡ s
        → r.approval_1 ≡ o
        → phase (revise (is_rejectable k a) (set_rejected c why) r)
          ≡ spec id (reject_by k a why) (phase r)
    go pending none e e' = ground (arith, e, e', at, positive)
    go pending (some first) e e' = ground (arith, e, e', at, positive)
    go approved o e e' = ground (arith, e, at)
    go rejected o e e' = ground (arith, e, at)
    go fulfilled o e e' = ground (arith, e, at)
    go cancelled o e e' = ground (arith, e, at)

pub cancel-phase :
    (c : Call) (k : ℕ) (a : ℤ) (id : ℕ) (r : Row)
    → r.id ≡ id
    → phase (revise (is_cancellable k a) (set_cancelled c) r) ≡ spec id (cancel_by k a) (phase r)
cancel-phase c k a id r at = go r.status r.approval_1 refl refl
  where
    go :
        (s : Status) (o : Option ℤ)
        → r.status ≡ s
        → r.approval_1 ≡ o
        → phase (revise (is_cancellable k a) (set_cancelled c) r)
          ≡ spec id (cancel_by k a) (phase r)
    go pending none e e' = ground (arith, e, e', at)
    go pending (some first) e e' = ground (arith, e, e', at)
    go approved o e e' = ground (arith, e, at)
    go rejected o e e' = ground (arith, e, at)
    go fulfilled o e e' = ground (arith, e, at)
    go cancelled o e e' = ground (arith, e, at)

pub fulfill-phase :
    (c : Call) (k : ℕ) (a : ℤ) (note : Text) (id : ℕ) (r : Row)
    → r.id ≡ id
    → phase (revise (is_fulfillable k) (set_fulfilled c note) r)
      ≡ spec id (fulfill_by k a note) (phase r)
fulfill-phase c k a note id r at = go r.status r.approval_1 refl refl
  where
    go :
        (s : Status) (o : Option ℤ)
        → r.status ≡ s
        → r.approval_1 ≡ o
        → phase (revise (is_fulfillable k) (set_fulfilled c note) r)
          ≡ spec id (fulfill_by k a note) (phase r)
    go pending none e e' = ground (arith, e, e', at)
    go pending (some first) e e' = ground (arith, e, e', at)
    go approved o e e' = ground (arith, e, at)
    go rejected o e e' = ground (arith, e, at)
    go fulfilled o e e' = ground (arith, e, at)
    go cancelled o e e' = ground (arith, e, at)

pub other_row :
    (k id : ℕ) (r : Row) (f : Row → Row)
    → r.id ≡ id
    → (k == id) ≡ false
    → phase (revise (is_pending_at k) f r) ≡ phase r
other_row k id r f at ne = ground (arith, at, ne)
