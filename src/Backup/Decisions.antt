-- ===== src/Backup/Decisions.antt =====
-- What the methods of the restore workflow answer when the database answers.
use go_lab.Prelude.{
  ℕ, ◌≡◌, ◌≢◌, ◌⊎◌, inl, inr, ◌↔◌, ℤ, int_eq_iff, is_positive, Text, true, none, some, arith,
  Option-cases,
}
use go_lab.Sql.{ok, err, steady}
use go_lab.Sql.Rows.{find, find-All, find-holds}
use go_lab.Sql.Keys.{matching-key}
use go_lab.Backup.{
  not_found, invalid_state, cannot_approve, not_requester, pending, approved, Row, Db, approve,
  reject, cancel, fulfill, has_id, get, explain, approve_row, is_rejectable, is_cancellable,
  is_fulfillable,
}
use go_lab.Backup.Valid.{IsValid, RowValid}

module _ (now db_now : ℕ) (id : ℕ) (db : Db) (up : db.connected ≡ true) where
  -- With a connected database that answers, a positive user id and a valid table, an approval of a
  -- request that is found succeeds exactly when it is pending, the approver is not its requester,
  -- and is not its first approver.
  pub approve-ok_iff :
      (a : ℤ) (r : Row)
      → IsValid db
      → is_positive a ≡ true
      → find (has_id id) db.rows ≡ some r
      → ((approve (steady now db_now) id a db).0 ≡ ok tt)
        ↔ ((r.status ≡ pending) × (a ≢ r.requested_by) × (r.approval_1 ≢ some a))
  unfolding approve
  approve-ok_iff a r v p e =
      let rv : RowValid r = find-All RowValid (has_id id) db.rows v.rows_valid e in
      rw (up, p, e) (decide rv (Option-cases r.approval_1) (Option-cases r.approval_2))
    where
      decide :
          RowValid r
          → (r.approval_1 ≡ none) ⊎ ((x : ℤ) × (r.approval_1 ≡ some x))
          → (r.approval_2 ≡ none) ⊎ ((x : ℤ) × (r.approval_2 ≡ some x))
          → ((approve_row (steady now db_now) id a r db).0 ≡ ok tt)
            ↔ ((r.status ≡ pending) × (a ≢ r.requested_by) × (r.approval_1 ≢ some a))
      decide rv (inl h) (inl h') = ground (arith, int_eq_iff r.requested_by a, rv.granted_iff)
      decide rv (inl h) (inr (y, h')) =
          ground (arith, int_eq_iff r.requested_by a, rv.granted_iff, rv.in_order)
      decide rv (inr (x, h)) (inl h') =
          ground (arith, int_eq_iff r.requested_by a, int_eq_iff x a, rv.granted_iff)
      decide rv (inr (x, h)) (inr (y, h')) =
          ground (arith, int_eq_iff r.requested_by a, int_eq_iff x a, rv.granted_iff)

  -- With a connected database that answers, a positive user id and a valid table, a rejection of a
  -- request that is found succeeds exactly when it is pending and the actor is not its requester;
  -- it answers "cannot approve" exactly for the requester, and "invalid state" exactly for another
  -- actor and a request that is not pending.
  pub reject_answers :
      (actor : ℤ) (why : Text) (r : Row)
      → IsValid db
      → is_positive actor ≡ true
      → find (has_id id) db.rows ≡ some r
      → let answer = (reject (steady now db_now) id actor why db).0 in
        ((answer ≡ ok tt) ↔ ((r.status ≡ pending) × (actor ≢ r.requested_by)))
        × ((answer ≡ err cannot_approve) ↔ (actor ≡ r.requested_by))
        × ((answer ≡ err invalid_state) ↔ ((r.status ≢ pending) × (actor ≢ r.requested_by)))
  unfolding reject explain get
  reject_answers actor why r v p e =
      let count =
        matching-key (λ x. x.id) id (is_rejectable id actor) db.rows (λ x h. ground arith)
          v.ids_unique in
      let at = find-holds (has_id id) db.rows e in
      rw (count, up, p, e) (ground (arith, int_eq_iff r.requested_by actor))

  -- With a connected database that answers and a valid table, a cancellation of a request that is
  -- found succeeds exactly when it is pending and the caller is its requester; it answers "not
  -- requester" exactly for another caller, and "invalid state" exactly for the requester of a
  -- request that is not pending.
  pub cancel_answers :
      (by : ℤ) (r : Row)
      → IsValid db
      → find (has_id id) db.rows ≡ some r
      → let answer = (cancel (steady now db_now) id by db).0 in
        ((answer ≡ ok tt) ↔ ((r.status ≡ pending) × (by ≡ r.requested_by)))
        × ((answer ≡ err not_requester) ↔ (by ≢ r.requested_by))
        × ((answer ≡ err invalid_state) ↔ ((r.status ≢ pending) × (by ≡ r.requested_by)))
  unfolding cancel explain get
  cancel_answers by r v e =
      let count =
        matching-key (λ x. x.id) id (is_cancellable id by) db.rows (λ x h. ground arith)
          v.ids_unique in
      let at = find-holds (has_id id) db.rows e in
      rw (count, up, e) (ground (arith, int_eq_iff r.requested_by by))

  -- A fulfilment goes through exactly when the request is approved.
  pub fulfill_answers :
      (actor : ℤ) (note : Text) (r : Row)
      → IsValid db
      → find (has_id id) db.rows ≡ some r
      → let answer = (fulfill (steady now db_now) id actor note db).0 in
        ((answer ≡ ok tt) ↔ (r.status ≡ approved))
        × ((answer ≡ err invalid_state) ↔ (r.status ≢ approved))
  unfolding fulfill
  fulfill_answers actor note r v e =
      let count =
        matching-key (λ x. x.id) id (is_fulfillable id) db.rows (λ x h. ground arith)
          v.ids_unique in
      let at = find-holds (has_id id) db.rows e in rw (count, up, e) (ground arith)

  -- With a connected database that answers, a positive user id and a valid table, on an id that
  -- the table does not hold approval, rejection and cancellation answer that it is not found, but
  -- fulfilment answers that the state is invalid.
  pub missing_answers :
      (a : ℤ) (why : Text)
      → IsValid db
      → is_positive a ≡ true
      → find (has_id id) db.rows ≡ none
      → ((approve (steady now db_now) id a db).0 ≡ err not_found)
        × ((reject (steady now db_now) id a why db).0 ≡ err not_found)
        × ((cancel (steady now db_now) id a db).0 ≡ err not_found)
        × ((fulfill (steady now db_now) id a why db).0 ≡ err invalid_state)
  unfolding approve reject cancel fulfill explain get
  missing_answers a why v p e =
      let u = v.ids_unique in
      let count_1 =
        matching-key (λ x. x.id) id (is_rejectable id a) db.rows (λ x h. ground arith) u in
      let count_2 =
        matching-key (λ x. x.id) id (is_cancellable id a) db.rows (λ x h. ground arith) u in
      let count_3 =
        matching-key (λ x. x.id) id (is_fulfillable id) db.rows (λ x h. ground arith) u in
      rw (count_1, count_2, count_3, up, p, e) (ground arith)
