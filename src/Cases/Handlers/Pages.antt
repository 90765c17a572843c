-- ===== src/Cases/Handlers/Pages.antt =====
-- The list endpoints of api/myhandlers/cases_handlers.go.
use go_lab.Prelude.{ℕ, ℤ, pos, Text, Bool, none, some, List}
use go_lab.Strings.{trim_space}
use go_lab.Sql.{Call, Result, ok, err, after}
use go_lab.Http.{validation, internal, Reply, success, error, Context, id_of}
use go_lab.Http.Query.{page_size, positive_param}
use go_lab.Cases.{CaseRow, NoteRow, ActionRow, get_case}
use go_lab.Cases.Listing.{list_cases, list_notes, list_actions}
use go_lab.Cases.Handlers.{World, load_reply}

-- The query parameters of the list of cases.
pub record CaseParams : Type 0 where
  pub limit : Text
  pub status : Text
  pub subject : Text
  pub before_id : Text

abbrev listed : {E A : Type 0} → Result E A → Reply A
listed (err _) = error 500 internal
listed (ok rows) = success 200 rows

abbrev with_limit : {E A : Type 0} → ℤ → Result E A → Reply (A × ℤ)
with_limit n (err _) = error 500 internal
with_limit n (ok rows) = success 200 (rows, n)

-- `ListOperatorCases`
unfoldable pub get_cases :
    (Text → Text → Bool) → Call → CaseParams → World → Reply (List CaseRow × ℤ)
get_cases collates c p w = elim (page_size p.limit) [
  | none ↦ error 400 validation
  | some limit ↦ elim (positive_param p.subject) [
    | none ↦ error 400 validation
    | some subject ↦ elim (positive_param p.before_id) [
      | none ↦ error 400 validation
      | some before ↦ with_limit limit (
          list_cases collates c
            (record {
              limit = limit;
              status = trim_space p.status;
              subject_user_id = subject;
              before_id = before;
            })
            w.cases)
    ]
  ]
]

-- What the two lists of a case share: the case is statement 0.
abbrev of_case : {A : Type 0} → Call → Context → World → (ℕ → Reply A) → Reply A
of_case c ctx w list = elim (id_of ctx) [
  | none ↦ error 400 validation
  | some id ↦ elim (get_case c id w.cases) [ err e ↦ load_reply e | ok _ ↦ list id ]
]

-- `ListOperatorCaseNotes`; the list is statement 1.
unfoldable pub get_notes : Call → Context → World → Reply (List NoteRow)
get_notes c ctx w = of_case c ctx w (λ id. listed (list_notes (after 1 c) id w.cases))

-- `ListOperatorCaseActions`
unfoldable pub get_actions : Call → Context → World → Reply (List ActionRow)
get_actions c ctx w = of_case c ctx w (λ id. listed (list_actions (after 1 c) id (pos 100) w.cases))
