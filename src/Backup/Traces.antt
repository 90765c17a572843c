-- ===== src/Backup/Traces.antt =====
-- The restore workflow over any sequence of calls, each with any answers of the driver.
use go_lab.Prelude.{
  ℕ, ◌≡◌, ◌≢◌, ◌⊎◌, inl, inr, ℤ, Text, true, none, some, List, [], ◌∷◌, arith, Option-cases,
}
use go_lab.Sql.{Call}
use go_lab.Sql.Rows.{find, find-All}
use go_lab.Backup.{Row, Db, create, approve, reject, cancel, fulfill, has_id}
use go_lab.Backup.Valid.{RowValid, IsValid, is_granted, create-IsValid}
use go_lab.Backup.Invariant.{approve-IsValid, reject-IsValid, cancel-IsValid, fulfill-IsValid}

-- The calls of the store that change the table.
pub data Request : Type 0 where
  create_for : ℤ → Text → Text → Text → Text → Request
  approve_by : ℕ → ℤ → Request
  reject_by : ℕ → ℤ → Text → Request
  cancel_by : ℕ → ℤ → Request
  fulfill_by : ℕ → ℤ → Text → Request

unfoldable pub apply : Call → Request → Db → Db
apply c (create_for by scope label reason req_id) db = (create c by scope label reason req_id db).1
apply c (approve_by id by) db = (approve c id by db).1
apply c (reject_by id by why) db = (reject c id by why db).1
apply c (cancel_by id by) db = (cancel c id by db).1
apply c (fulfill_by id by note) db = (fulfill c id by note db).1

unfoldable pub run : List (Call × Request) → Db → Db
run [] db = db
run ((c, q) ∷ calls) db = run calls (apply c q db)

-- The table as the migration creates it.
abbrev pub empty_table : Db
empty_table = record { connected = true; rows = []; next_id = 1 }

pub empty_table-IsValid : IsValid empty_table
empty_table-IsValid = record { rows_valid = tt; ids_below = tt; ids_unique = tt }

pub apply-IsValid : (c : Call) (q : Request) (db : Db) → IsValid db → IsValid (apply c q db)
unfolding apply
apply-IsValid c (create_for by scope label reason req_id) db v =
    create-IsValid c by scope label reason req_id db v
apply-IsValid c (approve_by id by) db v = approve-IsValid c id by db v
apply-IsValid c (reject_by id by why) db v = reject-IsValid c id by why db v
apply-IsValid c (cancel_by id by) db v = cancel-IsValid c id by db v
apply-IsValid c (fulfill_by id by note) db v = fulfill-IsValid c id by note db v

-- Any calls, with any driver errors, keep the invariant of the table.
pub run-IsValid : (calls : List (Call × Request)) (db : Db) → IsValid db → IsValid (run calls db)
unfolding run
run-IsValid [] db v = v
run-IsValid ((c, q) ∷ calls) db v = run-IsValid calls (apply c q db) (apply-IsValid c q db v)

-- Two different users, neither of them the requester, have approved the row.
abbrev pub TwoApprovers : Row → Type 0
TwoApprovers r =
    (a : ℤ) × (b : ℤ) × (r.approval_1 ≡ some a)
    × (r.approval_2 ≡ some b)
    × (a ≢ b)
    × (a ≢ r.requested_by)
    × (b ≢ r.requested_by)

RowValid-TwoApprovers : (r : Row) → RowValid r → is_granted r.status ≡ true → TwoApprovers r
RowValid-TwoApprovers r v g = go (Option-cases r.approval_1) (Option-cases r.approval_2)
  where
    go :
        (r.approval_1 ≡ none) ⊎ ((a : ℤ) × (r.approval_1 ≡ some a))
        → (r.approval_2 ≡ none) ⊎ ((b : ℤ) × (r.approval_2 ≡ some b))
        → TwoApprovers r
    go (inl e) (inl e') = absurd (ground (arith, v.granted_iff))
    go (inr (a, e)) (inl e') = absurd (ground (arith, v.granted_iff))
    go (inl e) (inr (b, e')) = absurd (ground (arith, v.in_order))
    go (inr (a, e)) (inr (b, e')) =
        (a, b, e, e', v.distinct a b e e', v.slot_1_other a e, v.slot_2_other b e')

-- After any sequence of store calls from an empty table, with any driver failures, a request that
-- is approved or fulfilled carries the approvals of two different users, neither of them its
-- requester.
pub granted-TwoApprovers :
    (calls : List (Call × Request)) (id : ℕ) (r : Row)
    → find (has_id id) (run calls empty_table).rows ≡ some r
    → is_granted r.status ≡ true
    → TwoApprovers r
granted-TwoApprovers calls id r e g =
    let v = run-IsValid calls empty_table empty_table-IsValid in
    RowValid-TwoApprovers r (find-All RowValid (has_id id) _ v.rows_valid e) g
