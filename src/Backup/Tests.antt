-- ===== src/Backup/Tests.antt =====
-- The restore workflow on concrete requests, and the theorems at them.
use go_lab.Prelude.{
  text_eq, ◌≤◌, ◌⊎◌, All, ℕ, ◌≡◌, refl, ◌≢◌, ◌↔◌, pos, int_eq, is_positive, codes, true, none, some,
  List, [], ◌∷◌, arith,
}
use go_lab.Sql.{Call, ok, err, steady}
use go_lab.Sql.Rows.{find}
use go_lab.Backup.{
  not_found, invalid_state, cannot_approve, not_requester, pending, approved, fulfilled, Row, Db,
  create, approve, reject, cancel, fulfill, has_id, new_row,
}
use go_lab.Backup.Traces.{
  Request, create_for, approve_by, reject_by, cancel_by, fulfill_by, apply, run, empty_table,
  TwoApprovers, granted-TwoApprovers,
}
use go_lab.Backup.Phases.{waiting, IsIn}
use go_lab.Backup.Restored.{spec_run, steadily, restore_calls, run-refines, two_approvers_restore}
use go_lab.Backup.Valid.{IsValid, new_row-RowValid}
use go_lab.Backup.Lifecycle.{Holds, apply-Holds, run_final}
use go_lab.Backup.Listing.{list_requests, list_requests_page}
use go_lab.Sql.Order.{select_page, page_limit, Descending}
use go_lab.Backup.Errors.{error, error_unchanged}
use go_lab.Backup.Decisions.{approve-ok_iff, reject_answers, cancel_answers, missing_answers}

abbrev at : ℕ → Call
at t = steady t t

abbrev ask : Request
ask = create_for (pos 7) (codes "db") (codes "nightly") (codes "data loss") (codes "r1")

-- User 7 asks, users 8 and 9 approve, and user 8 fulfils.
abbrev restored : List (Call × Request)
restored =
    (at 1, ask)
    ∷ (at 2, approve_by 1 (pos 8))
    ∷ (at 3, approve_by 1 (pos 9))
    ∷ (at 4, fulfill_by 1 (pos 8) (codes "done"))
    ∷ []

-- The row that such a run leaves.
abbrev restored_row : Row
restored_row = record {
  id = 1;
  created_at = 1;
  updated_at = 4;
  requested_by = pos 7;
  scope = codes "db";
  restore_point_label = codes "nightly";
  reason = codes "data loss";
  status = fulfilled;
  rejection_reason = none;
  approval_1 = some (pos 8);
  approval_1_at = some 2;
  approval_2 = some (pos 9);
  approval_2_at = some 3;
  fulfilled_at = some 4;
  fulfilled_note = some (codes "done");
  request_id = some (codes "r1");
}

run-restored : find (has_id 1) (run restored empty_table).rows ≡ some restored_row
unfolding run apply create approve fulfill is_positive int_eq
run-restored = refl

granted-TwoApprovers_example : TwoApprovers restored_row
granted-TwoApprovers_example = granted-TwoApprovers restored 1 restored_row run-restored refl

apply-Holds_example :
    Holds 1 restored_row (apply (at 5) (cancel_by 1 (pos 7)) (run restored empty_table))
apply-Holds_example =
    apply-Holds (at 5) (cancel_by 1 (pos 7)) (run restored empty_table) 1 restored_row run-restored

abbrev more : List (Call × Request)
more = (at 6, reject_by 1 (pos 8) (codes "late")) ∷ (at 7, ask) ∷ (at 8, approve_by 2 (pos 9)) ∷ []

run_final_run : find (has_id 1) (run more (run restored empty_table)).rows ≡ some restored_row
run_final_run = run_final more (run restored empty_table) 1 restored_row run-restored refl

-- One request of user 7, as it was asked.
abbrev asked_row : Row
asked_row = new_row (at 1) 1 (pos 7) (codes "db") (codes "nightly") (codes "data loss") (codes "r1")

abbrev asked : Db
asked = record { connected = true; rows = asked_row ∷ []; next_id = 2 }

own_approval : error (at 2) (approve_by 1 (pos 7)) asked ≡ some cannot_approve
unfolding error approve is_positive int_eq
own_approval = refl

error_unchanged_example : apply (at 2) (approve_by 1 (pos 7)) asked ≡ asked
error_unchanged_example =
    error_unchanged (at 2) (approve_by 1 (pos 7)) asked cannot_approve (λ e. cc) own_approval

asked-IsValid : IsValid asked
asked-IsValid = record {
  rows_valid = (
    new_row-RowValid (at 1) 1 (pos 7) (codes "db") (codes "nightly") (codes "data loss")
        (codes "r1"),
    tt,
  );
  ids_below = omega arith;
  ids_unique = (tt, tt);
}

abbrev user_8_positive : is_positive (pos 8) ≡ true
unfolding is_positive
user_8_positive = refl

approve-ok_iff_example :
    ((approve (steady 2 2) 1 (pos 8) asked).0 ≡ ok tt)
    ↔ ((asked_row.status ≡ pending) × (pos 8 ≢ pos 7) × (asked_row.approval_1 ≢ some (pos 8)))
approve-ok_iff_example =
    approve-ok_iff 2 2 1 asked refl (pos 8) asked_row asked-IsValid user_8_positive refl

reject_answers_run :
    let answer = (reject (steady 2 2) 1 (pos 8) (codes "no") asked).0 in
    ((answer ≡ ok tt) ↔ ((asked_row.status ≡ pending) × (pos 8 ≢ pos 7)))
    × ((answer ≡ err cannot_approve) ↔ (pos 8 ≡ pos 7))
    × ((answer ≡ err invalid_state) ↔ ((asked_row.status ≢ pending) × (pos 8 ≢ pos 7)))
reject_answers_run =
    reject_answers 2 2 1 asked refl (pos 8) (codes "no") asked_row asked-IsValid user_8_positive
      refl

cancel_answers_run :
    let answer = (cancel (steady 2 2) 1 (pos 8) asked).0 in
    ((answer ≡ ok tt) ↔ ((asked_row.status ≡ pending) × (pos 8 ≡ pos 7)))
    × ((answer ≡ err not_requester) ↔ (pos 8 ≢ pos 7))
    × ((answer ≡ err invalid_state) ↔ ((asked_row.status ≢ pending) × (pos 8 ≡ pos 7)))
cancel_answers_run = cancel_answers 2 2 1 asked refl (pos 8) asked_row asked-IsValid refl

missing_answers_example :
    ((approve (steady 2 2) 5 (pos 8) asked).0 ≡ err not_found)
    × ((reject (steady 2 2) 5 (pos 8) (codes "no") asked).0 ≡ err not_found)
    × ((cancel (steady 2 2) 5 (pos 8) asked).0 ≡ err not_found)
    × ((fulfill (steady 2 2) 5 (pos 8) (codes "no") asked).0 ≡ err invalid_state)
missing_answers_example =
    missing_answers 2 2 5 asked refl (pos 8) (codes "no") asked-IsValid user_8_positive refl

listed : list_requests text_eq (at 3) (pos 10) (codes "pending") asked ≡ ok (asked_row ∷ [])
unfolding list_requests select_page page_limit text_eq
listed = refl

pending_passes : go_lab.Backup.Listing.passes text_eq (codes "pending") asked_row ≡ true
unfolding text_eq
pending_passes = refl

list_requests_page_run :
    All (λ x. go_lab.Backup.Listing.passes text_eq (codes "pending") x ≡ true) (asked_row ∷ [])
    × Descending (λ x. x.id) (asked_row ∷ [])
    × (1 ≤ 200)
    × ((find (has_id 1) (asked_row ∷ []) ≡ some asked_row)
        ⊎ (1 ≡ page_limit 50 200 (pos 10)) × All (λ x. 1 ≤ x.id) (asked_row ∷ []))
list_requests_page_run =
    list_requests_page text_eq (at 3) (pos 10) (codes "pending") asked (asked_row ∷ []) 1 asked_row
      asked-IsValid listed refl pending_passes

asked-IsIn : IsIn 1 (waiting (pos 7)) asked
asked-IsIn = record { row = asked_row; found = refl; at = refl }

abbrev elsewhere : List Request
elsewhere = ask ∷ approve_by 2 (pos 9) ∷ cancel_by 2 (pos 7) ∷ []

run-refines_example :
    IsIn 1
      (spec_run 1 (approve_by 1 (pos 8) ∷ cancel_by 1 (pos 7) ∷ []) (waiting (pos 7)))
      (run (steadily 5 5 (approve_by 1 (pos 8) ∷ cancel_by 1 (pos 7) ∷ [])) asked)
run-refines_example =
    run-refines 5 5 (approve_by 1 (pos 8) ∷ cancel_by 1 (pos 7) ∷ []) 1 asked (waiting (pos 7)) refl
      asked-IsValid asked-IsIn

two_approvers_restore_example :
    (r : Row) × (find
        (has_id 1)
        (run
          (steadily 5 5
            (restore_calls 1 (pos 8) (pos 9) (pos 9) (codes "ok") elsewhere elsewhere []))
          asked).rows
      ≡ some r)
    × (r.status ≡ fulfilled)
unfolding is_positive
two_approvers_restore_example =
    two_approvers_restore 5 5 1 (pos 7) (pos 8) (pos 9) (pos 9) (codes "ok") elsewhere elsewhere []
      asked refl asked-IsValid asked-IsIn refl refl (λ e. ground (arith, e))
      (λ e. ground (arith, e)) (λ e. ground (arith, e)) (tt, (refl, (refl, tt)))
      (tt, (refl, (refl, tt))) tt
