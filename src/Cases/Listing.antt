-- ===== src/Cases/Listing.antt =====
-- The lists of api/authstore/operator_cases.go: pages of the newest cases and actions of a case, and
-- all notes of a case.
use go_lab.Prelude.{
  ℕ, ◌≤◌, ◌≡◌, ◌⊎◌, ℤ, pos, int_eq, ltb_ℤ, Text, is_empty, Bool, true, ◌&&◌, not, Option, none,
  some, List, reverse, arith, All, length, ◌==◌, if◌then◌else◌,
}
use go_lab.Sql.{Call, answered, Result, ok, err}
use go_lab.Sql.Rows.{find}
use go_lab.Sql.Order.{
  select_page, Descending, select_page_lem, select_page_complete, page_limit, page_limit_bounds,
}
use go_lab.Cases.{CaseError, nil_db, driver, CaseRow, NoteRow, ActionRow, CaseDb, has_id}
use go_lab.Cases.Valid.{IsValid}

-- `ListOperatorCasesQuery`
pub record Query : Type 0 where
  pub limit : ℤ
  pub status : Text
  pub subject_user_id : Option ℤ
  pub before_id : Option ℤ

abbrev is_subject : Option ℤ → ℤ → Bool
is_subject none subject = true
is_subject (some wanted) subject = int_eq subject wanted

abbrev is_before : Option ℤ → ℕ → Bool
is_before none id = true
is_before (some bound) id = ltb_ℤ (pos id) bound

-- `collates` is the database's `=` on texts, which depends on the column's collation.
module _ (collates : Text → Text → Bool) where
  abbrev pub is_wanted : Query → CaseRow → Bool
  is_wanted q r =
      (if is_empty q.status then true else collates r.status q.status)
      && (is_subject q.subject_user_id r.subject_user_id && is_before q.before_id r.id)

  -- `ListOperatorCases`
  unfoldable pub list_cases : Call → Query → CaseDb → Result CaseError (List CaseRow)
  list_cases c q db =
      if not db.connected
      then err nil_db
      else if not (answered (c.driver 0))
      then err driver
      else ok (select_page (λ r. r.id) (is_wanted q) (page_limit 50 200 q.limit) db.cases)

  -- Of a valid table, a page that is returned holds at most 200 cases, newest first, and only such
  -- as the query wants; a case that it wants and that is not on the page is not newer than any of a
  -- full page.
  pub list_cases_page :
      (c : Call) (q : Query) (db : CaseDb) (page : List CaseRow) (id : ℕ) (r : CaseRow)
      → IsValid db
      → list_cases c q db ≡ ok page
      → find (has_id id) db.cases ≡ some r
      → is_wanted q r ≡ true
      → All (λ x. is_wanted q x ≡ true) page
        × Descending (λ x. x.id) page
        × (length page ≤ 200)
        × ((find (has_id id) page ≡ some r)
            ⊎ (length page ≡ page_limit 50 200 q.limit) × All (λ x. id ≤ x.id) page)
  unfolding list_cases
  list_cases_page c q db page id r v h e wanted =
      let n = page_limit 50 200 q.limit in
      let rows = select_page (λ x. x.id) (is_wanted q) n db.cases in
      let same : rows ≡ page = ground arith in
      let laws = select_page_lem (λ x. x.id) (is_wanted q) n db.cases in
      let bound = page_limit_bounds 50 200 q.limit (omega arith) (omega arith) in
      rw (← same) (
        laws.0,
        laws.1,
        omega (arith, laws.2, bound.1),
        select_page_complete (λ x. x.id) (is_wanted q) n id db.cases r v.ids_unique e wanted,
      )

-- `ListOperatorCaseNotes`, oldest first: the page of all rows, from its end.
unfoldable pub list_notes : Call → ℕ → CaseDb → Result CaseError (List NoteRow)
list_notes c case_id db =
    if not db.connected
    then err nil_db
    else if not (answered (c.driver 0))
    then err driver
    else ok
        (reverse (select_page (λ n. n.id) (λ n. n.case_id == case_id) (length db.notes) db.notes))

-- `ListOperatorCaseActions`
unfoldable pub list_actions : Call → ℕ → ℤ → CaseDb → Result CaseError (List ActionRow)
list_actions c case_id limit db =
    if not db.connected
    then err nil_db
    else if not (answered (c.driver 0))
    then err driver
    else ok
        (select_page (λ a. a.id) (λ a. a.case_id == case_id) (page_limit 100 200 limit) db.actions)
