-- ===== src/Cases/Answers.antt =====
-- What UpdateOperatorCase answers, and what it leaves.
use go_lab.Prelude.{
  ℕ, ◌≡◌, refl, ◌∙◌, true, false, some, arith, ltb, ◌==◌, if◌then◌else◌, Bool-cases, inl, inr,
}
use go_lab.Sql.{Call, Outcome, ok, err}
use go_lab.Sql.Rows.{find, update, matching, find-holds}
use go_lab.Sql.Keys.{find-update, matching-key}
use go_lab.Cases.{
  no_rows, CaseRow, CaseDb, Patch, has_id, is_valid_status, is_valid_priority, bad_text, trimmed,
  is_blank_patch, changes, is_changed, set_patched, update_case,
}
use go_lab.Cases.Valid.{IsValid}

-- With a connected database that answers and a valid table, an update of a case that is found, with
-- a patch that is not blank and whose status and priority are known, succeeds if the patch changes
-- the case, and then the case is the patched one; if it changes nothing, the answer is that there
-- is no such row.
pub update_case-found :
    (c : Call) (id : ℕ) (p : Patch) (db : CaseDb) (r : CaseRow)
    → IsValid db
    → db.connected ≡ true
    → c.driver 0 ≡ Outcome.done
    → ltb id 1 ≡ false
    → bad_text is_valid_status (trimmed p.status) ≡ false
    → bad_text is_valid_priority (trimmed p.priority) ≡ false
    → is_blank_patch p ≡ false
    → find (has_id id) db.cases ≡ some r
    → ((update_case c id p db).0 ≡ (if changes p r then ok tt else err no_rows))
      × (find (has_id id) (update_case c id p db).1.cases
          ≡ some (if changes p r then set_patched c p r else r))
unfolding update_case
update_case-found c id p db r v a d l s t b e =
    let count =
      matching-key (λ x. x.id) id (is_changed id p) db.cases (λ x h. ground arith) v.ids_unique in
    let at : (r.id == id) ≡ true = find-holds (has_id id) db.cases e in
    let later =
      find-update (λ x. x.id) id (is_changed id p) (set_patched c p) db.cases (λ x. refl) in
    elim (Bool-cases (changes p r)) [
      | inl yes_changed ↦
          let it : is_changed id p r ≡ true = rw (at, yes_changed) refl in
          let one : matching (is_changed id p) db.cases ≡ 1 = count ∙ rw (e, it) refl in
          let row : find (has_id id) (update (is_changed id p) (set_patched c p) db.cases)
              ≡ some (set_patched c p r) =
            later ∙ rw (e, it) refl in
          rw yes_changed (ground arith, ground arith)
      | inr unchanged ↦
          let it : is_changed id p r ≡ false = rw (at, unchanged) refl in
          let nothing : matching (is_changed id p) db.cases ≡ 0 = count ∙ rw (e, it) refl in
          let row : find (has_id id) (update (is_changed id p) (set_patched c p) db.cases)
              ≡ some r =
            later ∙ rw (e, it) refl in
          rw unchanged (ground arith, ground arith)
    ]
