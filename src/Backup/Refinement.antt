-- ===== src/Backup/Refinement.antt =====
-- Each call of the store against the machine of a restore request.
use go_lab.Prelude.{
  ℕ, ◌≡◌, refl, sym, inl, inr, ℤ, is_positive, int_eq, Text, true, false, ◌&&◌, not, Option, none,
  some, arith, Bool-cases, ◌==◌,
}
use go_lab.Sql.{Outcome, steady}
use go_lab.Sql.Rows.{find, find-holds, find-All, update}
use go_lab.Backup.{
  Status, pending, approved, rejected, fulfilled, cancelled, Row, Db, approve, reject, cancel,
  fulfill, has_id, exec, is_pending_at, set_slot_1, set_slot_2, is_rejectable, set_rejected,
  is_cancellable, set_cancelled, is_fulfillable, set_fulfilled,
}
use go_lab.Backup.Effects.{Approval, unchanged, first_slot, second_slot, approve-effect}
use go_lab.Backup.Valid.{RowValid, IsValid}
use go_lab.Backup.Traces.{Request, create_for, approve_by, reject_by, cancel_by, fulfill_by, apply}
use go_lab.Backup.Phases.{
  IsIn, Phase, approved_by, cancel-phase, create-IsIn, exec-IsIn, fulfill-phase, other_row, phase,
  reject-phase, spec,
}

module _ (now db_now : ℕ) (id : ℕ) (db : Db) (r : Row) (up : db.connected ≡ true)
    (e : find (has_id id) db.rows ≡ some r) where
  here : r.id ≡ id
  here = ground (arith, find-holds (has_id id) db.rows e)

  still : {p : Phase} {db' : Db} → db' ≡ db → phase r ≡ p → IsIn id p db'
  still same q = rw same (record { row = r; found = e; at = q })

  reject-IsIn :
      (k : ℕ) (a : ℤ) (why : Text)
      → IsIn id (spec id (reject_by k a why) (phase r)) (reject (steady now db_now) k a why db).1
  unfolding reject
  reject-IsIn k a why = elim (Bool-cases (is_positive a)) [
    | inl positive ↦
        let did : (reject (steady now db_now) k a why db).1
            ≡ exec Outcome.done db
                (update (is_rejectable k a) (set_rejected (steady now db_now) why) db.rows) =
          ground (arith, up, positive) in
        rw did (
          exec-IsIn Outcome.done db (is_rejectable k a) (set_rejected (steady now db_now) why) id r
            (spec id (reject_by k a why) (phase r)) (λ x. refl) e
            (reject-phase (steady now db_now) k a why id r positive here))
    | inr negative ↦ still (ground (arith, up, negative)) (refused_none a negative)
  ]
    where
      refused_none :
          (a : ℤ) → is_positive a ≡ false → phase r ≡ spec id (reject_by k a why) (phase r)
      refused_none a negative = ground (arith, negative)

  cancel-IsIn :
      (k : ℕ) (a : ℤ)
      → IsIn id (spec id (cancel_by k a) (phase r)) (cancel (steady now db_now) k a db).1
  unfolding cancel
  cancel-IsIn k a =
      let did : (cancel (steady now db_now) k a db).1
          ≡ exec Outcome.done db
              (update (is_cancellable k a) (set_cancelled (steady now db_now)) db.rows) =
        ground (arith, up) in
      rw did (
        exec-IsIn Outcome.done db (is_cancellable k a) (set_cancelled (steady now db_now)) id r
          (spec id (cancel_by k a) (phase r)) (λ x. refl) e
          (cancel-phase (steady now db_now) k a id r here))

  fulfill-IsIn :
      (k : ℕ) (a : ℤ) (note : Text)
      → IsIn id
          (spec id (fulfill_by k a note) (phase r))
          (fulfill (steady now db_now) k a note db).1
  unfolding fulfill
  fulfill-IsIn k a note =
      let did : (fulfill (steady now db_now) k a note db).1
          ≡ exec Outcome.done db
              (update (is_fulfillable k) (set_fulfilled (steady now db_now) note) db.rows) =
        ground (arith, up) in
      rw did (
        exec-IsIn Outcome.done db (is_fulfillable k) (set_fulfilled (steady now db_now) note) id r
          (spec id (fulfill_by k a note) (phase r)) (λ x. refl) e
          (fulfill-phase (steady now db_now) k a note id r here))

  approve-other :
      (k : ℕ) (a : ℤ) → (k == id) ≡ false → IsIn id (phase r) (approve (steady now db_now) k a db).1
  approve-other k a ne = go (approve-effect (steady now db_now) k a db)
    where
      go :
          Approval (steady now db_now) k a db (approve (steady now db_now) k a db).1
          → IsIn id (phase r) (approve (steady now db_now) k a db).1
      go (unchanged same) = still same refl
      go (first_slot x _ _ _ _ did) = rw did (
          exec-IsIn Outcome.done db (is_pending_at k) (set_slot_1 (steady now db_now) a) id r
            (phase r) (λ y. refl) e (other_row k id r (set_slot_1 (steady now db_now) a) here ne))
      go (second_slot x first _ _ _ _ _ _ did) = rw did (
          exec-IsIn Outcome.done db (is_pending_at k) (set_slot_2 (steady now db_now) a) id r
            (phase r) (λ y. refl) e (other_row k id r (set_slot_2 (steady now db_now) a) here ne))

  approve-own :
      (a : ℤ)
      → RowValid r
      → IsIn id (approved_by a (phase r)) (approve (steady now db_now) id a db).1
  unfolding approve
  approve-own a v = go r.status r.approval_1 r.approval_2 refl refl refl
    where
      after : Db
      after = (approve (steady now db_now) id a db).1

      go :
          (s : Status) (o o' : Option ℤ)
          → r.status ≡ s
          → r.approval_1 ≡ o
          → r.approval_2 ≡ o'
          → IsIn id (approved_by a (phase r)) after
      go pending none o' q q1 q2 =
          elim (Bool-cases (is_positive a && not (int_eq r.requested_by a))) [
            | inl allowed ↦
                let did : after
                    ≡ exec Outcome.done db
                        (update (is_pending_at id) (set_slot_1 (steady now db_now) a) db.rows) =
                  ground (arith, up, e, q, q1, allowed) in
                rw did (
                  exec-IsIn Outcome.done db (is_pending_at id) (set_slot_1 (steady now db_now) a) id
                    r (approved_by a (phase r)) (λ y. refl) e
                    (ground (arith, q, q1, allowed, here)))
            | inr barred ↦
                still (ground (arith, up, e, q, q1, barred)) (ground (arith, q, q1, barred))
          ]
      go pending (some first) none q q1 q2 =
          elim (Bool-cases
            (is_positive a && (not (int_eq r.requested_by a) && not (int_eq first a)))) [
              | inl allowed ↦
                  let did : after
                      ≡ exec Outcome.done db
                          (update (is_pending_at id) (set_slot_2 (steady now db_now) a) db.rows) =
                    ground (arith, up, e, q, q1, q2, allowed) in
                  rw did (
                    exec-IsIn Outcome.done db (is_pending_at id) (set_slot_2 (steady now db_now) a)
                      id r (approved_by a (phase r)) (λ y. refl) e
                      (ground (arith, q, q1, allowed, here)))
              | inr barred ↦
                  still (ground (arith, up, e, q, q1, q2, barred)) (ground (arith, q, q1, barred))
            ]
      go pending (some first) (some second) q q1 q2 = absurd (ground (arith, q, q2, v.granted_iff))
      go approved o o' q q1 q2 = still (ground (arith, up, e, q)) (ground (arith, q))
      go rejected o o' q q1 q2 = still (ground (arith, up, e, q)) (ground (arith, q))
      go fulfilled o o' q q1 q2 = still (ground (arith, up, e, q)) (ground (arith, q))
      go cancelled o o' q q1 q2 = still (ground (arith, up, e, q)) (ground (arith, q))

  approve-IsIn :
      (k : ℕ) (a : ℤ)
      → RowValid r
      → IsIn id (spec id (approve_by k a) (phase r)) (approve (steady now db_now) k a db).1
  approve-IsIn k a v = elim (Bool-cases (k == id)) [
    | inl same ↦
        let at : k ≡ id = ground (arith, same) in
        let self : (id == id) ≡ true = ground arith in rw (at, self) (approve-own a v)
    | inr ne ↦ rw ne (approve-other k a ne)
  ]

-- With a connected database that answers and a valid table, a call of the store leaves a request
-- that is in the table in exactly the phase that the abstract machine gives for that call and the
-- phase before.
pub apply-refines :
    (now db_now : ℕ) (q : Request) (id : ℕ) (db : Db) (p : Phase)
    → db.connected ≡ true
    → IsValid db
    → IsIn id p db
    → IsIn id (spec id q p) (apply (steady now db_now) q db)
unfolding apply
apply-refines now db_now q id db p up v held = rw (sym held.at) (go q)
  where
    rv : RowValid held.row
    rv = find-All RowValid (has_id id) db.rows v.rows_valid held.found

    go : (q : Request) → IsIn id (spec id q (phase held.row)) (apply (steady now db_now) q db)
    go (create_for by scope label reason req_id) =
        create-IsIn (steady now db_now) by scope label reason req_id db id held.row held.found
    go (approve_by k a) = approve-IsIn now db_now id db held.row up held.found k a rv
    go (reject_by k a why) = reject-IsIn now db_now id db held.row up held.found k a why
    go (cancel_by k a) = cancel-IsIn now db_now id db held.row up held.found k a
    go (fulfill_by k a note) = fulfill-IsIn now db_now id db held.row up held.found k a note
