-- ===== src/Backup/Lifecycle.antt =====
-- How the status of one request moves.
use go_lab.Prelude.{
  ℕ, ◌≡◌, refl, ◌⊎◌, inl, inr, ℤ, Text, Bool, true, false, none, some, List, [], ◌∷◌, arith,
  Bool-cases, ◌∙◌, ap,
}
use go_lab.Sql.{Call, Outcome}
use go_lab.Sql.Rows.{find, find-holds, update}
use go_lab.Sql.Keys.{find-update, find-insert, revise}
use go_lab.Backup.{
  Status, pending, approved, rejected, fulfilled, cancelled, Row, Db, create, approve, reject,
  cancel, fulfill, has_id, exec, insert_row, is_pending_at, set_slot_1, set_slot_2, is_rejectable,
  set_rejected, is_cancellable, set_cancelled, is_fulfillable, set_fulfilled,
}
use mathlib.Core.Path.{subst}
use go_lab.Backup.Effects.{
  create-effect, reject-effect, cancel-effect, fulfill-effect, Approval, unchanged, first_slot,
  second_slot, approve-effect,
}
use go_lab.Backup.Traces.{
  Request, create_for, approve_by, reject_by, cancel_by, fulfill_by, apply, run,
}

-- The diagram of the workflow, with the moves that leave the status.
infix 40 ◌⟶◌
pub data ◌⟶◌ : Status → Status → Type 0 where
  stay : {s : Status} → s ⟶ s
  grant : pending ⟶ approved
  decline : pending ⟶ rejected
  withdraw : pending ⟶ cancelled
  restore : approved ⟶ fulfilled

-- How one row may change in one call: the status moves along the diagram, and only the columns
-- of the move change.
abbrev pub is_final : Status → Bool
is_final rejected = true
is_final fulfilled = true
is_final cancelled = true
is_final _ = false

pub record Moves (r s : Row) : Type 0 where
  pub status_moves : r.status ⟶ s.status
  pub same_id : s.id ≡ r.id
  pub same_requester : s.requested_by ≡ r.requested_by
  pub same_scope : s.scope ≡ r.scope
  pub same_label : s.restore_point_label ≡ r.restore_point_label
  pub same_reason : s.reason ≡ r.reason
  pub keeps_approval_1 : (r.approval_1 ≡ none) ⊎ (s.approval_1 ≡ r.approval_1)
  pub final_fixed : (is_final r.status ≡ false) ⊎ (s ≡ r)

Moves-refl : (r : Row) → Moves r r
Moves-refl r = record {
  status_moves = stay;
  same_id = refl;
  same_requester = refl;
  same_scope = refl;
  same_label = refl;
  same_reason = refl;
  keeps_approval_1 = inr refl;
  final_fixed = inr refl;
}

-- The table holds a row that `r` has moved to.
pub record Holds (id : ℕ) (r : Row) (db : Db) : Type 0 where
  pub row : Row
  pub found : find (has_id id) db.rows ≡ some row
  pub moves : Moves r row

Holds-same : (id : ℕ) (r : Row) (db : Db) → find (has_id id) db.rows ≡ some r → Holds id r db
Holds-same id r db e = record { row = r; found = e; moves = Moves-refl r }

updated :
    (db : Db) (p : Row → Bool) (f : Row → Row) (id : ℕ) (r : Row)
    → ((x : Row) → (f x).id ≡ x.id)
    → find (has_id id) db.rows ≡ some r
    → (p r ≡ true → Moves r (f r))
    → Holds id r (record db { rows = update p f db.rows })
updated db p f id r same e m = record {
  row = revise p f r;
  found = find-update (λ x. x.id) id p f db.rows same ∙ rw e;
  moves = elim (Bool-cases (p r)) [ inl h ↦ rw h (m h) | inr h ↦ rw h (Moves-refl r) ];
}

-- An UPDATE moves the row that the search finds.
exec-Holds :
    (o : Outcome) (db : Db) (p : Row → Bool) (f : Row → Row) (id : ℕ) (r : Row)
    → ((x : Row) → (f x).id ≡ x.id)
    → find (has_id id) db.rows ≡ some r
    → (p r ≡ true → Moves r (f r))
    → Holds id r (exec o db (update p f db.rows))
exec-Holds Outcome.failed db p f id r same e m = Holds-same id r db e
exec-Holds Outcome.done db p f id r same e m = updated db p f id r same e m
exec-Holds Outcome.lost db p f id r same e m = updated db p f id r same e m

insert_row-Holds :
    (o : Outcome) (db : Db) (row : Row) (id : ℕ) (r : Row)
    → find (has_id id) db.rows ≡ some r
    → Holds id r (insert_row o row db)
insert_row-Holds Outcome.failed db row id r e = Holds-same id r db e
insert_row-Holds Outcome.done db row id r e = record {
  row = r;
  found = find-insert (λ x. x.id) id row db.rows ∙ rw e;
  moves = Moves-refl r;
}
insert_row-Holds Outcome.lost db row id r e = record {
  row = r;
  found = find-insert (λ x. x.id) id row db.rows ∙ rw e;
  moves = Moves-refl r;
}

-- How each UPDATE moves a row that it matches.
slot_1-Moves :
    (c : Call) (id : ℕ) (a : ℤ) (r : Row)
    → r.approval_1 ≡ none
    → is_pending_at id r ≡ true
    → Moves r (set_slot_1 c a r)
slot_1-Moves c id a r empty h = record {
  status_moves = stay;
  same_id = refl;
  same_requester = refl;
  same_scope = refl;
  same_label = refl;
  same_reason = refl;
  keeps_approval_1 = inl empty;
  final_fixed = inl (ground arith);
}

move :
    (r : Row) (s : Status) (t : Row)
    → r.status ≡ s
    → s ⟶ t.status
    → t ≡ record r {
      updated_at = t.updated_at;
      status = t.status;
      rejection_reason = t.rejection_reason;
      approval_2 = t.approval_2;
      approval_2_at = t.approval_2_at;
      fulfilled_at = t.fulfilled_at;
      fulfilled_note = t.fulfilled_note;
    }
    → is_final s ≡ false
    → Moves r t
move r s t at edge shape open_still = record {
  status_moves = rw at edge;
  same_id = ground arith;
  same_requester = ground arith;
  same_scope = ground arith;
  same_label = ground arith;
  same_reason = ground arith;
  keeps_approval_1 = inr (ground arith);
  final_fixed = inl (rw at open_still);
}

create-Holds :
    (c : Call) (by : ℤ) (scope label reason req_id : Text) (db : Db) (id : ℕ) (r : Row)
    → find (has_id id) db.rows ≡ some r
    → Holds id r (create c by scope label reason req_id db).1
create-Holds c by scope label reason req_id db id r e =
    elim (create-effect c by scope label reason req_id db) [
      | inl same ↦ rw same (Holds-same id r db e)
      | inr did ↦ rw did (insert_row-Holds (c.driver 0) db _ id r e)
    ]

approve-Holds :
    (c : Call) (id' : ℕ) (a : ℤ) (db : Db) (id : ℕ) (r : Row)
    → find (has_id id) db.rows ≡ some r
    → Holds id r (approve c id' a db).1
approve-Holds c id' a db id r e = go (approve-effect c id' a db)
  where
    same_row : (x : Row) → find (has_id id') db.rows ≡ some x → is_pending_at id' r ≡ true → x ≡ r
    same_row x e' h =
        let at : id ≡ id' = ground (arith, find-holds (has_id id) db.rows e) in
        let again : find (has_id id') db.rows ≡ some r =
          subst (λ k. find (has_id k) db.rows ≡ some r) at e in
        cc

    go : Approval c id' a db (approve c id' a db).1 → Holds id r (approve c id' a db).1
    go (unchanged same) = rw same (Holds-same id r db e)
    go (first_slot x found waiting other empty did) = rw did (
        exec-Holds (c.driver 3) db (is_pending_at id') (set_slot_1 c a) id r (λ y. refl) e
          (λ h. slot_1-Moves c id' a r (rw (← same_row x found h) empty) h))
    go (second_slot x first found waiting other taken ne empty did) = rw did (
        exec-Holds (c.driver 3) db (is_pending_at id') (set_slot_2 c a) id r (λ y. refl) e
          (λ h. move r pending (set_slot_2 c a r) (ground arith) grant refl refl))

reject-Holds :
    (c : Call) (id' : ℕ) (actor : ℤ) (why : Text) (db : Db) (id : ℕ) (r : Row)
    → find (has_id id) db.rows ≡ some r
    → Holds id r (reject c id' actor why db).1
reject-Holds c id' actor why db id r e = elim (reject-effect c id' actor why db) [
  | inl same ↦ rw same (Holds-same id r db e)
  | inr did ↦ rw did (
      exec-Holds (c.driver 0) db (is_rejectable id' actor) (set_rejected c why) id r (λ y. refl) e
        (λ h. move r pending (set_rejected c why r) (ground arith) decline refl refl))
]

cancel-Holds :
    (c : Call) (id' : ℕ) (by : ℤ) (db : Db) (id : ℕ) (r : Row)
    → find (has_id id) db.rows ≡ some r
    → Holds id r (cancel c id' by db).1
cancel-Holds c id' by db id r e = elim (cancel-effect c id' by db) [
  | inl same ↦ rw same (Holds-same id r db e)
  | inr did ↦ rw did (
      exec-Holds (c.driver 0) db (is_cancellable id' by) (set_cancelled c) id r (λ y. refl) e
        (λ h. move r pending (set_cancelled c r) (ground arith) withdraw refl refl))
]

fulfill-Holds :
    (c : Call) (id' : ℕ) (actor : ℤ) (note : Text) (db : Db) (id : ℕ) (r : Row)
    → find (has_id id) db.rows ≡ some r
    → Holds id r (fulfill c id' actor note db).1
fulfill-Holds c id' actor note db id r e = elim (fulfill-effect c id' actor note db) [
  | inl same ↦ rw same (Holds-same id r db e)
  | inr did ↦ rw did (
      exec-Holds (c.driver 0) db (is_fulfillable id') (set_fulfilled c note) id r (λ y. refl) e
        (λ h. move r approved (set_fulfilled c note r) (ground arith) restore refl refl))
]

-- One store call, whatever it is and however the driver answers, keeps every row in the table and
-- moves its status at most one step along the workflow diagram; it changes neither what was asked
-- and by whom, nor a first approval that is set, nor anything of a row in a final status.
pub apply-Holds :
    (c : Call) (q : Request) (db : Db) (id : ℕ) (r : Row)
    → find (has_id id) db.rows ≡ some r
    → Holds id r (apply c q db)
unfolding apply
apply-Holds c (create_for by scope label reason req_id) db id r e =
    create-Holds c by scope label reason req_id db id r e
apply-Holds c (approve_by id' by) db id r e = approve-Holds c id' by db id r e
apply-Holds c (reject_by id' by why) db id r e = reject-Holds c id' by why db id r e
apply-Holds c (cancel_by id' by) db id r e = cancel-Holds c id' by db id r e
apply-Holds c (fulfill_by id' by note) db id r e = fulfill-Holds c id' by note db id r e

-- A rejected, fulfilled or cancelled request stays exactly as it is, whatever calls follow and
-- however the driver answers.
pub run_final :
    (calls : List (Call × Request)) (db : Db) (id : ℕ) (r : Row)
    → find (has_id id) db.rows ≡ some r
    → is_final r.status ≡ true
    → find (has_id id) (run calls db).rows ≡ some r
unfolding run
run_final [] db id r e f = e
run_final ((c, q) ∷ calls) db id r e f =
    let h = apply-Holds c q db id r e in
    let same : h.row ≡ r = elim h.moves.final_fixed [
      | inl not_final ↦ absurd (cc)
      | inr same_row ↦ same_row
    ] in
    run_final calls (apply c q db) id r (h.found ∙ ap some same) f
