-- ===== src/Cases/Handlers.antt =====
-- api/myhandlers/cases_handlers.go: the endpoints on operator cases. The error of an audit event's
-- INSERT is ignored, as in the source.
pub mod Recorded
pub mod Pages
mod Tests
use go_lab.Prelude.{
  ℕ, ◌+◌, ℤ, pos, negsuc, int_eq, is_positive, Text, codes, text_eq, is_empty, map, Bool, true,
  false, ◌&&◌, ◌||◌, not, Option, none, some, List, is_some, any, ltb, if◌then◌else◌,
}
use go_lab.Strings.{trim_space, lower_byte}
use go_lab.Strconv.{itoa}
use go_lab.Sql.{Call, Outcome, answered, Result, ok, err, after, null_str}
use go_lab.Http.{
  Code, validation, not_found, forbidden, internal, Reply, success, error, Context, auth_user_id,
  id_of, reason_of,
}
use go_lab.Audit.{AdminEvent, insert_admin_event}
use go_lab.Session.{User}
use go_lab.Cases.{
  CaseError, no_rows, invalid_status, invalid_priority, nil_db, invalid, driver, CaseRow, CaseDb,
  Patch, create_case, get_case, update_case, add_note, add_action,
}

pub record World : Type 0 where
  pub cases : CaseDb
  pub users : List User
  pub events : List AdminEvent

-- The maps that go through `json.Marshal`: of a sanction (type, subject, expiry), a recovery
-- request (character, subject), an appeal (outcome, notes), and the audit metadata of a case or note.
pub data Payload : Type 0 where
  sanction : Text → ℤ → Option Text → Payload
  recovery : Text → ℤ → Payload
  appeal : Text → Text → Payload
  case_meta note_meta : ℕ → Payload

abbrev has_user : ℤ → User → Bool
has_user uid u = int_eq u.id uid && not (is_some u.deleted_at)

-- The bound body of PostOperatorCase.
pub record CaseBody : Type 0 where
  pub subject : ℤ
  pub character_ref : Option Text
  pub title : Text
  pub description : Text
  pub priority : Text

abbrev case_event : Context → ℤ → Text → ℕ → Option Text → AdminEvent
case_event ctx uid action id meta = record {
  actor_user_id = some uid;
  auth_subject = ctx.auth_subject;
  action = action;
  resource_type = codes "operator_case";
  resource_id = null_str (itoa (pos id));
  reason = null_str (reason_of ctx);
  request_id = null_str ctx.request_id;
  ip = null_str ctx.client_ip;
  user_agent = null_str ctx.user_agent;
  meta_json = meta;
}

abbrev with_event : Outcome → AdminEvent → World → World
with_event o event w = record w {
  events = (insert_admin_event o w.cases.connected event w.events).1;
}

abbrev create_reply : {A : Type 0} → CaseError → Reply A
create_reply invalid_priority = error 400 validation
create_reply _ = error 500 internal

abbrev pub load_reply : {A : Type 0} → CaseError → Reply A
load_reply no_rows = error 404 not_found
load_reply _ = error 500 internal

abbrev update_reply : {A : Type 0} → CaseError → Reply A
update_reply no_rows = error 404 not_found
update_reply _ = error 400 validation

abbrev chosen_priority : Text → Text
chosen_priority p = if is_empty p then codes "normal" else p

-- The part of PostOperatorCase behind the check of the subject.
abbrev create_checked : Call → Context → ℤ → CaseBody → World → Reply (ℕ × Text) × World
create_checked c ctx uid body w =
    let (result, db') =
      create_case (after 1 c) body.subject body.character_ref (trim_space body.title)
        (trim_space body.description) (chosen_priority (trim_space body.priority)) uid w.cases in
    elim result [
      | err e ↦ (create_reply e, record w { cases = db' })
      | ok id ↦ (
        success 201 (id, codes "open"),
        with_event (c.driver 3) (case_event ctx uid (codes "case.created") id none)
            (record w { cases = db' }),
      )
    ]

-- `PostOperatorCase`: the SELECT of the subject is statement 0, the INSERT with its id 1 and 2, the
-- audit event 3.
unfoldable pub post_case : Call → Context → Option CaseBody → World → Reply (ℕ × Text) × World
post_case c ctx body w = elim (auth_user_id ctx.auth_subject) [
  | none ↦ (error 403 forbidden, w)
  | some uid ↦ elim body [
    | none ↦ (error 400 validation, w)
    | some b ↦
        if not (answered (c.driver 0))
        then (error 500 internal, w)
        else if not (any (has_user b.subject) w.users)
        then (error 400 validation, w)
        else create_checked c ctx uid b w
  ]
]

-- `GetOperatorCase`
unfoldable pub show_case : Call → Context → World → Reply CaseRow
show_case c ctx w = elim (id_of ctx) [
  | none ↦ error 400 validation
  | some id ↦ elim (get_case c id w.cases) [ err e ↦ load_reply e | ok row ↦ success 200 row ]
]

abbrev row_of : Result CaseError CaseRow → Option CaseRow
row_of (err e) = none
row_of (ok r) = some r

module _ (marshal : Payload → Text) where
  -- The part of PatchOperatorCase behind the update.
  abbrev patch_done :
      Call
      → Context
      → ℤ
      → ℕ
      → Result CaseError (Unit {0}) × CaseDb
      → World
      → Reply (Option CaseRow) × World
  patch_done c ctx uid id (err e, db') w = (update_reply e, record w { cases = db' })
  patch_done c ctx uid id (ok _, db') w = (
    success 200 (row_of (get_case (after 2 c) id db')),
    with_event (c.driver 1)
        (case_event ctx uid (codes "case.updated") id (some (marshal (case_meta id))))
        (record w { cases = db' }),
  )

  -- `PatchOperatorCase`: the UPDATE is statement 0, the audit event 1, the SELECT 2, whose error
  -- leaves a zero row in the answer (`none`).
  unfoldable pub patch_case : Call → Context → Option Patch → World → Reply (Option CaseRow) × World
  patch_case c ctx body w = elim (auth_user_id ctx.auth_subject) [
    | none ↦ (error 403 forbidden, w)
    | some uid ↦ elim (id_of ctx) [
      | none ↦ (error 400 validation, w)
      | some id ↦ elim body [
        | none ↦ (error 400 validation, w)
        | some p ↦ patch_done c ctx uid id (update_case c id p w.cases) w
      ]
    ]
  ]

  abbrev note_done :
      Call → Context → ℤ → ℕ → Result CaseError ℕ × CaseDb → World → Reply (ℕ × ℕ) × World
  note_done c ctx uid id (err e, db') w = (error 500 internal, record w { cases = db' })
  note_done c ctx uid id (ok note, db') w = (
    success 201 (note, id),
    with_event (c.driver 3)
        (case_event ctx uid (codes "case.note_added") id (some (marshal (note_meta note))))
        (record w { cases = db' }),
  )

  -- `PostOperatorCaseNote`: the SELECT is statement 0, the INSERT with its id 1 and 2, the event 3.
  unfoldable pub post_note : Call → Context → Option Text → World → Reply (ℕ × ℕ) × World
  post_note c ctx body w = elim (auth_user_id ctx.auth_subject) [
    | none ↦ (error 403 forbidden, w)
    | some uid ↦ elim (id_of ctx) [
      | none ↦ (error 400 validation, w)
      | some id ↦ elim body [
        | none ↦ (error 400 validation, w)
        | some text ↦ elim (get_case c id w.cases) [
          | err e ↦ (load_reply e, w)
          | ok _ ↦ note_done c ctx uid id (add_note (after 1 c) id text uid w.cases) w
        ]
      ]
    ]
  ]

  abbrev action_done :
      Call
      → Context
      → ℤ
      → ℕ
      → Text
      → Text
      → Payload
      → Result CaseError ℕ × CaseDb
      → World
      → Reply Text × World
  action_done c ctx uid id kind event payload (err e, db') w =
      (error 500 internal, record w { cases = db' })
  action_done c ctx uid id kind event payload (ok _, db') w = (
    success 200 kind,
    with_event (c.driver 3) (case_event ctx uid event id (some (marshal payload)))
        (record w { cases = db' }),
  )

  -- What the three action endpoints share: they load the case (statement 0), make the payload from
  -- it (`none` is a 400), insert the action (1 and 2) and then the audit event (3).
  abbrev record_action :
      Call → Context → ℤ → ℕ → Text → Text → (CaseRow → Option Payload) → World → Reply Text × World
  record_action c ctx uid id kind event payload_of w = elim (get_case c id w.cases) [
    | err e ↦ (load_reply e, w)
    | ok row ↦ elim (payload_of row) [
      | none ↦ (error 400 validation, w)
      | some payload ↦
          action_done c ctx uid id kind event payload
            (add_action (after 1 c) id kind (null_str (marshal payload)) (reason_of ctx) uid
              w.cases)
            w
    ]
  ]

  -- The user, the case's id and the body, in the order in which they are checked.
  abbrev with_case :
      {B : Type 0}
      → Context
      → Option B
      → World
      → (ℤ → ℕ → B → Reply Text × World)
      → Reply Text × World
  with_case ctx body w then_do = elim (auth_user_id ctx.auth_subject) [
    | none ↦ (error 403 forbidden, w)
    | some uid ↦ elim (id_of ctx) [
      | none ↦ (error 400 validation, w)
      | some id ↦ elim body [ none ↦ (error 400 validation, w) | some b ↦ then_do uid id b ]
    ]
  ]

  -- `time.Parse` of RFC 3339, printed again in UTC.
  module _ (to_utc : Text → Option Text) where
    abbrev expiry_of : Option Text → Option (Option Text)
    expiry_of none = some none
    expiry_of (some v) =
        if is_empty (trim_space v)
        then some none
        else elim (to_utc (trim_space v)) [ none ↦ none | some t ↦ some (some t) ]

    abbrev sanction_payload : Text → Option Text → CaseRow → Option Payload
    sanction_payload type expires_at row = elim (expiry_of expires_at) [
      | none ↦ none
      | some expiry ↦ some (sanction (trim_space type) row.subject_user_id expiry)
    ]

    -- `PostOperatorCaseSanction`
    unfoldable pub post_sanction :
        Call → Context → Option (Text × Option Text) → World → Reply Text × World
    post_sanction c ctx body w = with_case ctx body w (λ uid id (type, expires_at).
        record_action c ctx uid id (codes "sanction") (codes "case.sanction_recorded")
          (sanction_payload type expires_at) w)

  abbrev character_of : Text → Option Text → Text
  character_of given none = given
  character_of given (some old) = if is_empty given then old else given

  -- `PostOperatorCaseRecoveryRequest`
  unfoldable pub post_recovery : Call → Context → Option Text → World → Reply Text × World
  post_recovery c ctx body w = with_case ctx body w (λ uid id character.
      record_action c ctx uid id (codes "recovery_request") (codes "case.recovery_requested")
        (λ row. some (
          recovery (character_of (trim_space character) row.subject_character_ref)
            row.subject_user_id))
        w)

  abbrev is_outcome : Text → Bool
  is_outcome outcome = text_eq outcome (codes "upheld") || text_eq outcome (codes "overturned")

  -- `PostOperatorCaseAppealResolve`
  unfoldable pub post_appeal : Call → Context → Option (Text × Text) → World → Reply Text × World
  post_appeal c ctx body w = with_case ctx body w (λ uid id (raw_outcome, notes).
      let outcome = map lower_byte (trim_space raw_outcome) in
      if not (is_outcome outcome)
      then (error 400 validation, w)
      else record_action c ctx uid id (codes "appeal_resolve") (codes "case.appeal_resolved")
          (λ row. some (appeal outcome (trim_space notes))) w)
