-- ===== src/Cases/Tests.antt =====
-- Cases on concrete tables.
use go_lab.Prelude.{
  ◌≤◌, ◌≡◌, refl, ◌⊎◌, pos, int_eq, ltb_ℤ, is_positive, codes, text_eq, true, false, none, some,
  List, [], ◌∷◌, All, if◌then◌else◌,
}
use go_lab.Strings.{trim_space}
use go_lab.Sql.{Call, steady, ok, err}
use go_lab.Sql.Rows.{find}
use go_lab.Sql.Keys.{Unique}
use go_lab.Sql.Order.{Descending, page_limit, select_page}
use go_lab.Cases.{
  CaseError, no_rows, CaseRow, CaseDb, Patch, has_id, new_case, changes, set_patched, update_case,
  create_case, is_valid_status, is_valid_priority,
}
use go_lab.Cases.Valid.{
  Step, create_for, update_by, note_on, act_on, run, empty_tables, CaseValid, IsValid, run-IsValid,
  run-CaseValid, empty_tables-IsValid,
}
use go_lab.Cases.History.{Keeps, run-Keeps}
use go_lab.Cases.Answers.{update_case-found}
use go_lab.Cases.Listing.{Query, is_wanted, list_cases, list_cases_page}

abbrev close : Patch
close = record { status = some (codes " closed "); priority = none; assigned_to = none }

-- A case is made and closed, with a note and an action.
abbrev calls : List (Call × Step)
calls =
    (steady 1 1, create_for (pos 7) none (codes "lost item") (codes "") (codes "high") (pos 3))
    ∷ (steady 2 2, note_on 1 (codes "asked") (pos 3))
    ∷ (steady 3 3, update_by 1 close)
    ∷ (steady 4 4, act_on 1 (codes "sanction") none (codes "") (pos 3))
    ∷ []

run-CaseValid_example :
    All CaseValid (run calls empty_tables).cases × Unique (λ r. r.id) (run calls empty_tables).cases
run-CaseValid_example = run-CaseValid calls

abbrev lost_item : CaseRow
lost_item =
    new_case (steady 1 1) 1 (pos 7) none (codes "lost item") (codes "") (codes "high") (pos 3)

abbrev opened : CaseDb
opened = record empty_tables { cases = lost_item ∷ []; next_case = 2 }

created :
    create_case
      (steady 1 1)
      (pos 7)
      none
      (codes "lost item")
      (codes "")
      (codes "high")
      (pos 3)
      empty_tables
    ≡ (ok 1, opened)
unfolding create_case is_positive is_valid_priority text_eq trim_space
created = refl

opened-IsValid : IsValid opened
unfolding run go_lab.Cases.Valid.apply create_case is_positive is_valid_priority text_eq trim_space
opened-IsValid =
    run-IsValid
      ((steady 1 1, create_for (pos 7) none (codes "lost item") (codes "") (codes "high") (pos 3))
        ∷ [])
      empty_tables empty_tables-IsValid

run-Keeps_example : Keeps 1 lost_item opened (run calls opened)
run-Keeps_example = run-Keeps calls 1 lost_item opened refl

known : go_lab.Cases.bad_text is_valid_status (go_lab.Cases.trimmed close.status) ≡ false
unfolding is_valid_status text_eq trim_space
known = refl

not_blank : go_lab.Cases.is_blank_patch close ≡ false
unfolding trim_space
not_blank = refl

update_case-found_example :
    ((update_case (steady 5 5) 1 close opened).0
      ≡ (if changes close lost_item then ok tt else err no_rows))
    × (find (has_id 1) (update_case (steady 5 5) 1 close opened).1.cases
        ≡ some (
            if changes close lost_item
            then set_patched (steady 5 5) close lost_item
            else lost_item))
update_case-found_example =
    update_case-found (steady 5 5) 1 close opened lost_item opened-IsValid refl refl refl known refl
      not_blank refl

-- The same status again: the UPDATE changes no row.
reopen_answers :
    (update_case (steady 5 5) 1 (record close { status = some (codes "open") }) opened).0
    ≡ err no_rows
unfolding update_case is_valid_status text_eq trim_space
reopen_answers = refl

abbrev query : Query
query = record {
  limit = pos 10;
  status = codes "open";
  subject_user_id = some (pos 7);
  before_id = some (pos 9);
}

listed : list_cases text_eq (steady 6 6) query opened ≡ ok (lost_item ∷ [])
unfolding list_cases select_page page_limit text_eq int_eq ltb_ℤ
listed = refl

wanted : is_wanted text_eq query lost_item ≡ true
unfolding text_eq int_eq ltb_ℤ
wanted = refl

list_cases_page_run :
    All (λ x. is_wanted text_eq query x ≡ true) (lost_item ∷ [])
    × Descending (λ x. x.id) (lost_item ∷ [])
    × (1 ≤ 200)
    × ((find (has_id 1) (lost_item ∷ []) ≡ some lost_item)
        ⊎ (1 ≡ page_limit 50 200 (pos 10)) × All (λ x. 1 ≤ x.id) (lost_item ∷ []))
list_cases_page_run =
    list_cases_page text_eq (steady 6 6) query opened (lost_item ∷ []) 1 lost_item opened-IsValid
      listed refl wanted
