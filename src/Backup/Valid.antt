-- ===== src/Backup/Valid.antt =====
-- The invariant of the table of restore requests, under an UPDATE and an INSERT.
use go_lab.Prelude.{
  ℕ, ◌+◌, ◌<◌, ◌≡◌, refl, ◌≢◌, ℤ, Text, Bool, true, false, some, arith, All, All-intro, All-map,
  is_some,
}
use go_lab.Sql.{Call, Outcome}
use go_lab.Sql.Rows.{update, insert, All-update, All-insert}
use go_lab.Sql.Keys.{Unique, Unique-update, Unique-insert}
use go_lab.Backup.{
  Status, approved, rejected, fulfilled, Row, Db, create, exec, new_row, insert_row,
}

-- Both approvals are in.
abbrev pub is_granted : Status → Bool
is_granted approved = true
is_granted fulfilled = true
is_granted _ = false

abbrev is_fulfilled : Status → Bool
is_fulfilled fulfilled = true
is_fulfilled _ = false

abbrev is_rejected : Status → Bool
is_rejected rejected = true
is_rejected _ = false

pub record RowValid (r : Row) : Type 0 where
  pub slot_1_other : (a : ℤ) → r.approval_1 ≡ some a → a ≢ r.requested_by
  pub slot_2_other : (b : ℤ) → r.approval_2 ≡ some b → b ≢ r.requested_by
  pub distinct : (a b : ℤ) → r.approval_1 ≡ some a → r.approval_2 ≡ some b → a ≢ b
  pub in_order : is_some r.approval_2 ≡ true → is_some r.approval_1 ≡ true
  pub granted_iff : is_some r.approval_2 ≡ is_granted r.status
  pub stamped_1 : is_some r.approval_1_at ≡ is_some r.approval_1
  pub stamped_2 : is_some r.approval_2_at ≡ is_some r.approval_2
  pub fulfilled_iff : is_some r.fulfilled_at ≡ is_fulfilled r.status
  pub rejected_iff : is_some r.rejection_reason ≡ is_rejected r.status

pub record IsValid (db : Db) : Type 0 where
  pub rows_valid : All RowValid db.rows
  pub ids_below : All (λ r. r.id < db.next_id) db.rows
  pub ids_unique : Unique (λ r. r.id) db.rows

changed-IsValid :
    (db : Db) (p : Row → Bool) (f : Row → Row)
    → ((x : Row) → (f x).id ≡ x.id)
    → All (λ x. p x ≡ true → RowValid x → RowValid (f x)) db.rows
    → IsValid db
    → IsValid (record db { rows = update p f db.rows })
changed-IsValid db p f same keep v = record {
  rows_valid = All-update RowValid p f db.rows keep v.rows_valid;
  ids_below =
      All-update (λ r. r.id < db.next_id) p f db.rows
        (All-intro (λ x. p x ≡ true → x.id < db.next_id → (f x).id < db.next_id) db.rows
          (λ x _ h. rw (same x) h))
        v.ids_below;
  ids_unique = Unique-update (λ r. r.id) p f db.rows same v.ids_unique;
}

inserted-IsValid :
    (row : Row) (db : Db)
    → row.id ≡ db.next_id
    → RowValid row
    → IsValid db
    → IsValid (record db { rows = insert row db.rows; next_id = db.next_id + 1 })
inserted-IsValid row db at rv v = record {
  rows_valid = All-insert RowValid row db.rows rv v.rows_valid;
  ids_below =
      All-insert (λ r. r.id < db.next_id + 1) row db.rows (omega arith)
        (All-map (λ r. r.id < db.next_id) (λ r. r.id < db.next_id + 1) db.rows (λ x h. omega arith)
          v.ids_below);
  ids_unique = Unique-insert (λ r. r.id) row db.rows (rw at v.ids_below) v.ids_unique;
}

-- An UPDATE that keeps the ids and the validity of the rows that it changes keeps the invariant.
pub update-IsValid :
    (o : Outcome) (db : Db) (p : Row → Bool) (f : Row → Row)
    → ((x : Row) → (f x).id ≡ x.id)
    → All (λ x. p x ≡ true → RowValid x → RowValid (f x)) db.rows
    → IsValid db
    → IsValid (exec o db (update p f db.rows))
update-IsValid Outcome.failed db p f same keep v = v
update-IsValid Outcome.done db p f same keep v = changed-IsValid db p f same keep v
update-IsValid Outcome.lost db p f same keep v = changed-IsValid db p f same keep v

pub new_row-RowValid :
    (c : Call) (id : ℕ) (by : ℤ) (scope label reason req_id : Text)
    → RowValid (new_row c id by scope label reason req_id)
new_row-RowValid c id by scope label reason req_id = record {
  slot_1_other = λ a e. absurd (cc);
  slot_2_other = λ b e. absurd (cc);
  distinct = λ a b e h. absurd (cc);
  in_order = λ e. e;
  granted_iff = refl;
  stamped_1 = refl;
  stamped_2 = refl;
  fulfilled_iff = refl;
  rejected_iff = refl;
}

insert_row-IsValid :
    (o : Outcome) (row : Row) (db : Db)
    → row.id ≡ db.next_id
    → RowValid row
    → IsValid db
    → IsValid (insert_row o row db)
insert_row-IsValid Outcome.failed row db at rv v = v
insert_row-IsValid Outcome.done row db at rv v = inserted-IsValid row db at rv v
insert_row-IsValid Outcome.lost row db at rv v = inserted-IsValid row db at rv v

-- A new row has no approval, and the next id.
pub create-IsValid :
    (c : Call) (by : ℤ) (scope label reason req_id : Text) (db : Db)
    → IsValid db
    → IsValid (create c by scope label reason req_id db).1
unfolding create
create-IsValid c by scope label reason req_id db v =
    let row = new_row c db.next_id by scope label reason req_id in
    let v' =
      insert_row-IsValid (c.driver 0) row db refl
        (new_row-RowValid c db.next_id by scope label reason req_id) v in
    ground arith

-- The row that was locked is the only one that the UPDATE of an approval can change.
