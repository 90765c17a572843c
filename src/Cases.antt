-- ===== src/Cases.antt =====
-- api/authstore/operator_cases.go: operator cases with their notes and their actions.
pub mod Valid
pub mod History
pub mod Answers
pub mod Listing
pub mod Handlers
mod Tests
use go_lab.Prelude.{
  ℕ, ◌+◌, ℤ, is_positive, int_eq, Text, codes, text_eq, is_empty, Bool, true, false, ◌&&◌, ◌||◌,
  not, Option, none, some, List, is_some, ltb, ◌==◌, if◌then◌else◌,
}
use go_lab.Strings.{trim_space}
use go_lab.Sql.{Call, Outcome, answered, Result, ok, err, settle, null_str}
use go_lab.Sql.Rows.{find, update, matching, insert}

-- `no_rows` is `sql.ErrNoRows`, `invalid` one of `errors.New` for bad arguments.
pub data CaseError : Type 0 where
  no_rows invalid_status invalid_priority nil_db invalid driver : CaseError

unfoldable pub is_valid_status : Text → Bool
is_valid_status v =
    text_eq v (codes "open")
    || text_eq v (codes "in_progress")
    || text_eq v (codes "resolved")
    || text_eq v (codes "closed")

unfoldable pub is_valid_priority : Text → Bool
is_valid_priority v =
    text_eq v (codes "low")
    || text_eq v (codes "normal")
    || text_eq v (codes "high")
    || text_eq v (codes "urgent")

-- `OperatorCaseRow`
pub record CaseRow : Type 0 where
  pub id : ℕ
  pub created_at : ℕ
  pub updated_at : ℕ
  pub status : Text
  pub priority : Text
  pub subject_user_id : ℤ
  pub subject_character_ref : Option Text
  pub title : Text
  pub description : Option Text
  pub created_by : ℤ
  pub assigned_to : Option ℤ

-- `OperatorCaseNoteRow`
pub record NoteRow : Type 0 where
  pub id : ℕ
  pub case_id : ℕ
  pub created_at : ℕ
  pub body : Text
  pub created_by : ℤ

-- `OperatorCaseActionRow`
pub record ActionRow : Type 0 where
  pub id : ℕ
  pub case_id : ℕ
  pub created_at : ℕ
  pub action_kind : Text
  pub payload_json : Option Text
  pub reason : Option Text
  pub actor_user_id : ℤ

pub record CaseDb : Type 0 where
  pub connected : Bool
  pub cases : List CaseRow
  pub notes : List NoteRow
  pub actions : List ActionRow
  pub next_case : ℕ
  pub next_note : ℕ
  pub next_action : ℕ

abbrev pub has_id : ℕ → CaseRow → Bool
has_id id r = r.id == id

-- The trimmed text, if that is not empty.
abbrev pub trimmed : Option Text → Option Text
trimmed none = none
trimmed (some v) = null_str (trim_space v)

abbrev unless_blank : Text → Option Text
unless_blank v = if is_empty (trim_space v) then none else some v

abbrev priority_or_normal : Text → Text
priority_or_normal p = if is_empty p then codes "normal" else p

abbrev pub new_case : Call → ℕ → ℤ → Option Text → Text → Text → Text → ℤ → CaseRow
new_case c id subject cref title description priority created_by = record {
  id = id;
  created_at = c.db_now;
  updated_at = c.db_now;
  status = codes "open";
  priority = priority;
  subject_user_id = subject;
  subject_character_ref = trimmed cref;
  title = title;
  description = unless_blank description;
  created_by = created_by;
  assigned_to = none;
}

abbrev pub insert_case : Outcome → CaseRow → CaseDb → CaseDb
insert_case o r db = record db {
  cases = settle o db.cases (insert r db.cases);
  next_case = settle o db.next_case (db.next_case + 1);
}

-- The id that an INSERT gave, from `LastInsertId`, which is the statement behind it.
abbrev pub inserted : Call → ℕ → Result CaseError ℕ
inserted c id =
    if not (answered (c.driver 0))
    then err driver
    else if answered (c.driver 1)
    then ok id
    else err driver

-- `CreateOperatorCase`
unfoldable pub create_case :
    Call → ℤ → Option Text → Text → Text → Text → ℤ → CaseDb → Result CaseError ℕ × CaseDb
create_case c subject cref title description priority created_by db =
    let title' = trim_space title in
    let priority' = priority_or_normal priority in
    if not db.connected
    then (err nil_db, db)
    else if not (is_positive subject) || is_empty title' || not (is_positive created_by)
    then (err invalid, db)
    else if not (is_valid_priority priority')
    then (err invalid_priority, db)
    else (
      inserted c db.next_case,
      insert_case (c.driver 0)
          (new_case c db.next_case subject cref title' description priority' created_by) db,
    )

-- `GetOperatorCase`
unfoldable pub get_case : Call → ℕ → CaseDb → Result CaseError CaseRow
get_case c id db =
    if not db.connected
    then err nil_db
    else if not (answered (c.driver 0))
    then err driver
    else elim (find (has_id id) db.cases) [ none ↦ err no_rows | some r ↦ ok r ]

-- What `UpdateOperatorCase` is to set; an assignee that is not positive clears it.
pub record Patch : Type 0 where
  pub status : Option Text
  pub priority : Option Text
  pub assigned_to : Option ℤ

abbrev or_else : Option Text → Text → Text
or_else none old = old
or_else (some v) old = v

abbrev assignee : Option ℤ → Option ℤ → Option ℤ
assignee none old = old
assignee (some a) old = if is_positive a then some a else none

-- The SET clauses on a row.
abbrev pub patched : Patch → CaseRow → CaseRow
patched p r = record r {
  status = or_else (trimmed p.status) r.status;
  priority = or_else (trimmed p.priority) r.priority;
  assigned_to = assignee p.assigned_to r.assigned_to;
}

abbrev same_user : Option ℤ → Option ℤ → Bool
same_user none none = true
same_user none (some _) = false
same_user (some _) none = false
same_user (some a) (some b) = int_eq a b

-- MySQL counts a row as affected, and sets `updated_at`, where a column's value changes.
abbrev pub changes : Patch → CaseRow → Bool
changes p r = not (
    text_eq (patched p r).status r.status
    && (text_eq (patched p r).priority r.priority
        && same_user (patched p r).assigned_to r.assigned_to))

abbrev pub is_changed : ℕ → Patch → CaseRow → Bool
is_changed id p r = r.id == id && changes p r

abbrev pub set_patched : Call → Patch → CaseRow → CaseRow
set_patched c p r = record (patched p r) { updated_at = c.db_now }

abbrev bad_text : (Text → Bool) → Option Text → Bool
bad_text is_valid none = false
bad_text is_valid (some v) = not (is_valid v)

abbrev pub is_blank_patch : Patch → Bool
is_blank_patch p =
    not (is_some (trimmed p.status) || is_some (trimmed p.priority) || is_some p.assigned_to)

abbrev pub update_cases : Call → ℕ → Patch → CaseDb → CaseDb
update_cases c id p db = record db {
  cases = settle (c.driver 0) db.cases (update (is_changed id p) (set_patched c p) db.cases);
}

-- `UpdateOperatorCase`
unfoldable pub update_case : Call → ℕ → Patch → CaseDb → Result CaseError (Unit {0}) × CaseDb
update_case c id p db =
    if not db.connected
    then (err nil_db, db)
    else if ltb id 1
    then (err invalid, db)
    else if bad_text is_valid_status (trimmed p.status)
    then (err invalid_status, db)
    else if bad_text is_valid_priority (trimmed p.priority)
    then (err invalid_priority, db)
    else if is_blank_patch p
    then (err invalid, db)
    else (
      if not (answered (c.driver 0))
          then err driver
          else if matching (is_changed id p) db.cases == 0
          then err no_rows
          else ok tt,
      update_cases c id p db,
    )

abbrev pub insert_note : Outcome → NoteRow → CaseDb → CaseDb
insert_note o r db = record db {
  notes = settle o db.notes (insert r db.notes);
  next_note = settle o db.next_note (db.next_note + 1);
}

abbrev pub new_note : Call → ℕ → ℕ → Text → ℤ → NoteRow
new_note c id case_id body created_by = record {
  id = id;
  case_id = case_id;
  created_at = c.db_now;
  body = body;
  created_by = created_by;
}

-- `InsertOperatorCaseNote`
unfoldable pub add_note : Call → ℕ → Text → ℤ → CaseDb → Result CaseError ℕ × CaseDb
add_note c case_id body created_by db =
    let body' = trim_space body in
    if not db.connected
    then (err nil_db, db)
    else if ltb case_id 1 || is_empty body' || not (is_positive created_by)
    then (err invalid, db)
    else (
      inserted c db.next_note,
      insert_note (c.driver 0) (new_note c db.next_note case_id body' created_by) db,
    )

abbrev pub insert_action : Outcome → ActionRow → CaseDb → CaseDb
insert_action o r db = record db {
  actions = settle o db.actions (insert r db.actions);
  next_action = settle o db.next_action (db.next_action + 1);
}

abbrev pub new_action : Call → ℕ → ℕ → Text → Option Text → Text → ℤ → ActionRow
new_action c id case_id kind payload reason actor = record {
  id = id;
  case_id = case_id;
  created_at = c.db_now;
  action_kind = trim_space kind;
  payload_json = payload;
  reason = null_str reason;
  actor_user_id = actor;
}

-- `InsertOperatorCaseAction` on the payload's JSON, which is not empty, or `none` for no payload; its
-- marshalling, which fails for no payload that the handlers make, has succeeded.
unfoldable pub add_action :
    Call → ℕ → Text → Option Text → Text → ℤ → CaseDb → Result CaseError ℕ × CaseDb
add_action c case_id kind payload reason actor db =
    if not db.connected
    then (err nil_db, db)
    else if ltb case_id 1 || is_empty (trim_space kind) || not (is_positive actor)
    then (err invalid, db)
    else (
      inserted c db.next_action,
      insert_action (c.driver 0) (new_action c db.next_action case_id kind payload reason actor) db,
    )
