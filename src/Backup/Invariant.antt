-- ===== src/Backup/Invariant.antt =====
-- The invariant of the table of restore requests under each method.
use go_lab.Prelude.{
  ℕ, ◌≡◌, refl, sym, ◌≢◌, inl, inr, ℤ, int_eq, int_eq_iff, Text, Bool, true, Option, none, some,
  arith, All, All-intro, All-map, Bool-cases,
}
use mathlib.Core.Path.{subst}
use go_lab.Sql.{Call}
use go_lab.Sql.Rows.{find, find-All}
use go_lab.Sql.Keys.{find-Unique}
use go_lab.Backup.{
  pending, Row, Db, approve, reject, cancel, fulfill, has_id, is_pending_at, fill_slot,
  fill_slot_at, commit_update, set_slot_1, set_slot_2, is_rejectable, set_rejected, is_cancellable,
  set_cancelled, is_fulfillable, set_fulfilled,
}
use go_lab.Backup.Valid.{IsValid, RowValid, update-IsValid}

slot_1-RowValid :
    (c : Call) (a : ℤ) (r : Row)
    → r.approval_1 ≡ none
    → a ≢ r.requested_by
    → RowValid r
    → RowValid (set_slot_1 c a r)
slot_1-RowValid c a r empty other v = record {
  slot_1_other = λ x e. ground arith;
  slot_2_other = λ x e. v.slot_2_other x e;
  distinct = λ x y e h. absurd (ground (arith, v.in_order));
  in_order = λ e. refl;
  granted_iff = v.granted_iff;
  stamped_1 = refl;
  stamped_2 = v.stamped_2;
  fulfilled_iff = v.fulfilled_iff;
  rejected_iff = v.rejected_iff;
}

slot_2-RowValid :
    (c : Call) (a b : ℤ) (r : Row)
    → r.approval_1 ≡ some a
    → a ≢ b
    → b ≢ r.requested_by
    → r.status ≡ pending
    → RowValid r
    → RowValid (set_slot_2 c b r)
slot_2-RowValid c a b r first ne other waiting v = record {
  slot_1_other = λ x e. v.slot_1_other x e;
  slot_2_other = λ x e. ground arith;
  distinct = λ x y e h. ground arith;
  in_order = λ e. rw first;
  granted_iff = refl;
  stamped_1 = v.stamped_1;
  stamped_2 = refl;
  fulfilled_iff = ground arith;
  rejected_iff = ground arith;
}

is_pending_at-pending : (id : ℕ) (x : Row) → is_pending_at id x ≡ true → x.status ≡ pending
is_pending_at-pending id x h = ground arith

-- An approval: the row that was locked is the only one that the UPDATE can change.
commit_update-Keeps :
    (c : Call) (p : Row → Bool) (f : Row → Row) (db : Db)
    → ((x : Row) → (f x).id ≡ x.id)
    → All (λ x. p x ≡ true → RowValid x → RowValid (f x)) db.rows
    → IsValid db
    → IsValid (commit_update c p f db).1
commit_update-Keeps c p f db same keep v =
    let v' = update-IsValid (c.driver 3) db p f same keep v in ground arith

-- The premise of the UPDATE from the row that SELECT … FOR UPDATE returned.
locked :
    (id : ℕ) (r : Row) (f : Row → Row) (db : Db)
    → IsValid db
    → find (has_id id) db.rows ≡ some r
    → (r.status ≡ pending → RowValid r → RowValid (f r))
    → All (λ x. is_pending_at id x ≡ true → RowValid x → RowValid (f x)) db.rows
locked id r f db v e step =
    All-map (λ x. x.id ≡ id → x ≡ r) (λ x. is_pending_at id x ≡ true → RowValid x → RowValid (f x))
      db.rows
      (λ x only p xv.
        let q : x ≡ r = only (ground arith) in
        subst (λ y. RowValid (f y)) (sym q)
          (step (rw q at (is_pending_at-pending id x p)) (rw q at xv)))
      (find-Unique (λ x. x.id) id r db.rows v.ids_unique e)

fill_slot-Keeps :
    (c : Call) (id : ℕ) (a : ℤ) (r : Row) (db : Db)
    → IsValid db
    → find (has_id id) db.rows ≡ some r
    → a ≢ r.requested_by
    → IsValid (fill_slot c id a r db).1
fill_slot-Keeps c id a r db v e other = go r.approval_1 refl r.approval_2
  where
    rv : RowValid r
    rv = find-All RowValid (has_id id) db.rows v.rows_valid e

    go :
        (o : Option ℤ)
        → r.approval_1 ≡ o
        → (o' : Option ℤ) → IsValid (fill_slot_at c id a o o' db).1
    go none empty o' =
        commit_update-Keeps c (is_pending_at id) (set_slot_1 c a) db (λ x. refl)
          (locked id r (set_slot_1 c a) db v e (λ _ x. slot_1-RowValid c a r empty other x)) v
    go (some first) taken none = elim (Bool-cases (int_eq first a)) [
      | inl same ↦ rw same v
      | inr differ ↦ rw differ (
          commit_update-Keeps c (is_pending_at id) (set_slot_2 c a) db (λ x. refl)
            (locked id r (set_slot_2 c a) db v e (λ waiting x.
              slot_2-RowValid c first a r taken (ground (arith, int_eq_iff first a)) other waiting
                x))
            v)
    ]
    go (some first) taken (some second) = v

-- An approval never breaks the rule of two approvers, whatever the driver answers.
pub approve-IsValid :
    (c : Call) (id : ℕ) (a : ℤ) (db : Db) → IsValid db → IsValid (approve c id a db).1
unfolding approve
approve-IsValid c id a db v = go (find (has_id id) db.rows) refl
  where
    go : (o : Option Row) → find (has_id id) db.rows ≡ o → IsValid (approve c id a db).1
    go none e = rw e (ground arith)
    go (some r) e = elim (Bool-cases (int_eq r.requested_by a)) [
      | inl same ↦ rw (e, same) (ground arith)
      | inr differ ↦
          let v' = fill_slot-Keeps c id a r db v e (ground (arith, int_eq_iff r.requested_by a)) in
          rw (e, differ) (ground arith)
    ]

-- The UPDATEs of the other methods keep each row valid.
rejected-RowValid :
    (c : Call) (id : ℕ) (actor : ℤ) (why : Text) (x : Row)
    → is_rejectable id actor x ≡ true
    → RowValid x
    → RowValid (set_rejected c why x)
rejected-RowValid c id actor why x h v = record {
  slot_1_other = v.slot_1_other;
  slot_2_other = v.slot_2_other;
  distinct = v.distinct;
  in_order = v.in_order;
  granted_iff = ground arith;
  stamped_1 = v.stamped_1;
  stamped_2 = v.stamped_2;
  fulfilled_iff = ground arith;
  rejected_iff = refl;
}

cancelled-RowValid :
    (c : Call) (id : ℕ) (by : ℤ) (x : Row)
    → is_cancellable id by x ≡ true
    → RowValid x
    → RowValid (set_cancelled c x)
cancelled-RowValid c id by x h v = record {
  slot_1_other = v.slot_1_other;
  slot_2_other = v.slot_2_other;
  distinct = v.distinct;
  in_order = v.in_order;
  granted_iff = ground arith;
  stamped_1 = v.stamped_1;
  stamped_2 = v.stamped_2;
  fulfilled_iff = ground arith;
  rejected_iff = ground arith;
}

fulfilled-RowValid :
    (c : Call) (id : ℕ) (note : Text) (x : Row)
    → is_fulfillable id x ≡ true
    → RowValid x
    → RowValid (set_fulfilled c note x)
fulfilled-RowValid c id note x h v = record {
  slot_1_other = v.slot_1_other;
  slot_2_other = v.slot_2_other;
  distinct = v.distinct;
  in_order = v.in_order;
  granted_iff = ground arith;
  stamped_1 = v.stamped_1;
  stamped_2 = v.stamped_2;
  fulfilled_iff = refl;
  rejected_iff = ground arith;
}

-- A rejection keeps the invariant.
pub reject-IsValid :
    (c : Call) (id : ℕ) (actor : ℤ) (why : Text) (db : Db)
    → IsValid db
    → IsValid (reject c id actor why db).1
unfolding reject
reject-IsValid c id actor why db v =
    let v' =
      update-IsValid (c.driver 0) db (is_rejectable id actor) (set_rejected c why) (λ x. refl)
        (All-intro _ db.rows (rejected-RowValid c id actor why)) v in
    ground arith

-- A cancellation keeps the invariant.
pub cancel-IsValid :
    (c : Call) (id : ℕ) (by : ℤ) (db : Db) → IsValid db → IsValid (cancel c id by db).1
unfolding cancel
cancel-IsValid c id by db v =
    let v' =
      update-IsValid (c.driver 0) db (is_cancellable id by) (set_cancelled c) (λ x. refl)
        (All-intro _ db.rows (cancelled-RowValid c id by)) v in
    ground arith

-- A fulfilment keeps the invariant.
pub fulfill-IsValid :
    (c : Call) (id : ℕ) (actor : ℤ) (note : Text) (db : Db)
    → IsValid db
    → IsValid (fulfill c id actor note db).1
unfolding fulfill
fulfill-IsValid c id actor note db v =
    let v' =
      update-IsValid (c.driver 0) db (is_fulfillable id) (set_fulfilled c note) (λ x. refl)
        (All-intro _ db.rows (fulfilled-RowValid c id note)) v in
    ground arith
