-- ===== src/Cases/History.antt =====
-- Notes, actions and what a case is about, over sequences of calls.
use go_lab.Prelude.{
  ℕ, ◌≡◌, refl, ap, ◌∙◌, ◌⊎◌, inl, inr, some, List, [], ◌∷◌, ◌++◌, arith, Bool-cases,
}
use mathlib.Core.List.{append_assoc}
use go_lab.Strings.{trim_space}
use go_lab.Sql.{Call, Outcome, settle}
use go_lab.Sql.Rows.{find, update, insert}
use go_lab.Sql.Keys.{find-update, find-insert, revise}
use go_lab.Cases.{
  CaseRow, NoteRow, ActionRow, CaseDb, Patch, has_id, create_case, update_case, add_note,
  add_action, insert_case, update_cases, is_changed, set_patched, insert_note, insert_action,
  new_case, new_note, new_action, priority_or_normal,
}
use go_lab.Cases.Valid.{Step, create_for, update_by, note_on, act_on, apply, run}

-- `ys` is `xs` with more behind it.
abbrev pub Extends : {A : Type 0} → List A → List A → Type 0
Extends {A} xs ys = (more : List A) × (ys ≡ xs ++ more)

module _ {A : Type 0} where
  Extends-refl : (xs : List A) → Extends xs xs
  Extends-refl xs = ([], append_nil xs)
    where
      append_nil : (xs : List A) → xs ≡ xs ++ []
      append_nil [] = refl
      append_nil (x ∷ xs) = ap (◌∷◌ x) (append_nil xs)

  Extends-trans : (xs ys zs : List A) → Extends xs ys → Extends ys zs → Extends xs zs
  Extends-trans xs ys zs (m, e) (n, f) = (m ++ n, f ∙ rw e (append_assoc xs m n))

  insert-Extends : (a : A) (xs : List A) → Extends xs (insert a xs)
  insert-Extends a xs = (a ∷ [], go xs)
    where
      go : (xs : List A) → insert a xs ≡ xs ++ (a ∷ [])
      go [] = refl
      go (x ∷ xs) = ap (◌∷◌ x) (go xs)

  settle-Extends : (o : Outcome) (a : A) (xs : List A) → Extends xs (settle o xs (insert a xs))
  settle-Extends Outcome.failed a xs = Extends-refl xs
  settle-Extends Outcome.done a xs = insert-Extends a xs
  settle-Extends Outcome.lost a xs = insert-Extends a xs

-- All but the status, the priority, the assignee and the time of the last change.
pub record SameCase (r r' : CaseRow) : Type 0 where
  pub same_id : r'.id ≡ r.id
  pub same_created_at : r'.created_at ≡ r.created_at
  pub same_subject : r'.subject_user_id ≡ r.subject_user_id
  pub same_character : r'.subject_character_ref ≡ r.subject_character_ref
  pub same_title : r'.title ≡ r.title
  pub same_description : r'.description ≡ r.description
  pub same_author : r'.created_by ≡ r.created_by

SameCase-refl : (r : CaseRow) → SameCase r r
SameCase-refl r = record {
  same_id = refl;
  same_created_at = refl;
  same_subject = refl;
  same_character = refl;
  same_title = refl;
  same_description = refl;
  same_author = refl;
}

SameCase-trans : {r s t : CaseRow} → SameCase r s → SameCase s t → SameCase r t
SameCase-trans a b = record {
  same_id = b.same_id ∙ a.same_id;
  same_created_at = b.same_created_at ∙ a.same_created_at;
  same_subject = b.same_subject ∙ a.same_subject;
  same_character = b.same_character ∙ a.same_character;
  same_title = b.same_title ∙ a.same_title;
  same_description = b.same_description ∙ a.same_description;
  same_author = b.same_author ∙ a.same_author;
}

-- The table still has the case, with what it is about.
pub record Keeps (id : ℕ) (r : CaseRow) (db db' : CaseDb) : Type 0 where
  pub row : CaseRow
  pub found : find (has_id id) db'.cases ≡ some row
  pub same : SameCase r row
  pub notes_kept : Extends db.notes db'.notes
  pub actions_kept : Extends db.actions db'.actions

Keeps-refl :
    (id : ℕ) (r : CaseRow) (db : CaseDb) → find (has_id id) db.cases ≡ some r → Keeps id r db db
Keeps-refl id r db e = record {
  row = r;
  found = e;
  same = SameCase-refl r;
  notes_kept = Extends-refl db.notes;
  actions_kept = Extends-refl db.actions;
}

insert_case-Keeps :
    (o : Outcome) (new : CaseRow) (id : ℕ) (r : CaseRow) (db : CaseDb)
    → find (has_id id) db.cases ≡ some r
    → Keeps id r db (insert_case o new db)
insert_case-Keeps o new id r db e = record {
  row = r;
  found = go o;
  same = SameCase-refl r;
  notes_kept = Extends-refl db.notes;
  actions_kept = Extends-refl db.actions;
}
  where
    more : find (has_id id) (insert new db.cases) ≡ some r
    more = find-insert (λ x. x.id) id new db.cases ∙ rw e refl

    go : (o : Outcome) → find (has_id id) (settle o db.cases (insert new db.cases)) ≡ some r
    go Outcome.failed = e
    go Outcome.done = more
    go Outcome.lost = more

revise-SameCase :
    (c : Call) (id : ℕ) (p : Patch) (r : CaseRow)
    → SameCase r (revise (is_changed id p) (set_patched c p) r)
revise-SameCase c id p r = elim (Bool-cases (is_changed id p r)) [
  | inl yes_changed ↦ rw yes_changed (record {
    same_id = refl;
    same_created_at = refl;
    same_subject = refl;
    same_character = refl;
    same_title = refl;
    same_description = refl;
    same_author = refl;
  })
  | inr unchanged ↦ rw unchanged (SameCase-refl r)
]

update_cases-Keeps :
    (c : Call) (k : ℕ) (p : Patch) (id : ℕ) (r : CaseRow) (db : CaseDb)
    → find (has_id id) db.cases ≡ some r
    → Keeps id r db (update_cases c k p db)
update_cases-Keeps c k p id r db e = go (c.driver 0)
  where
    rows : List CaseRow
    rows = update (is_changed k p) (set_patched c p) db.cases

    changed : Keeps id r db (record db { cases = rows })
    changed = record {
      row = revise (is_changed k p) (set_patched c p) r;
      found =
          find-update (λ x. x.id) id (is_changed k p) (set_patched c p) db.cases (λ x. refl)
          ∙ rw e refl;
      same = revise-SameCase c k p r;
      notes_kept = Extends-refl db.notes;
      actions_kept = Extends-refl db.actions;
    }

    go : (o : Outcome) → Keeps id r db (record db { cases = settle o db.cases rows })
    go Outcome.failed = Keeps-refl id r db e
    go Outcome.done = changed
    go Outcome.lost = changed

insert_note-Keeps :
    (o : Outcome) (n : NoteRow) (id : ℕ) (r : CaseRow) (db : CaseDb)
    → find (has_id id) db.cases ≡ some r
    → Keeps id r db (insert_note o n db)
insert_note-Keeps o n id r db e = record {
  row = r;
  found = e;
  same = SameCase-refl r;
  notes_kept = settle-Extends o n db.notes;
  actions_kept = Extends-refl db.actions;
}

insert_action-Keeps :
    (o : Outcome) (a : ActionRow) (id : ℕ) (r : CaseRow) (db : CaseDb)
    → find (has_id id) db.cases ≡ some r
    → Keeps id r db (insert_action o a db)
insert_action-Keeps o a id r db e = record {
  row = r;
  found = e;
  same = SameCase-refl r;
  notes_kept = Extends-refl db.notes;
  actions_kept = settle-Extends o a db.actions;
}

apply-Keeps :
    (c : Call) (q : Step) (id : ℕ) (r : CaseRow) (db : CaseDb)
    → find (has_id id) db.cases ≡ some r
    → Keeps id r db (apply c q db)
unfolding apply create_case update_case add_note add_action
apply-Keeps c (create_for subject cref title description priority by) id r db e =
    let new =
      new_case c db.next_case subject cref (trim_space title) description
        (priority_or_normal priority) by in
    let after = (create_case c subject cref title description priority by db).1 in
    let either : (after ≡ db) ⊎ (after ≡ insert_case (c.driver 0) new db) = ground arith in
    elim either [
      | inl same ↦ rw same (Keeps-refl id r db e)
      | inr did ↦ rw did (insert_case-Keeps (c.driver 0) new id r db e)
    ]
apply-Keeps c (update_by k p) id r db e =
    let after = (update_case c k p db).1 in
    let either : (after ≡ db) ⊎ (after ≡ update_cases c k p db) = ground arith in
    elim either [
      | inl same ↦ rw same (Keeps-refl id r db e)
      | inr did ↦ rw did (update_cases-Keeps c k p id r db e)
    ]
apply-Keeps c (note_on k body by) id r db e =
    let new = new_note c db.next_note k (trim_space body) by in
    let after = (add_note c k body by db).1 in
    let either : (after ≡ db) ⊎ (after ≡ insert_note (c.driver 0) new db) = ground arith in
    elim either [
      | inl same ↦ rw same (Keeps-refl id r db e)
      | inr did ↦ rw did (insert_note-Keeps (c.driver 0) new id r db e)
    ]
apply-Keeps c (act_on k kind payload reason by) id r db e =
    let new = new_action c db.next_action k kind payload reason by in
    let after = (add_action c k kind payload reason by db).1 in
    let either : (after ≡ db) ⊎ (after ≡ insert_action (c.driver 0) new db) = ground arith in
    elim either [
      | inl same ↦ rw same (Keeps-refl id r db e)
      | inr did ↦ rw did (insert_action-Keeps (c.driver 0) new id r db e)
    ]

-- Whatever calls follow and however the driver answers, a case that is found stays in the table
-- with its subject, character, title, description, author and time of creation, and all notes and
-- actions stay, in their order, in front of those that are added.
pub run-Keeps :
    (calls : List (Call × Step)) (id : ℕ) (r : CaseRow) (db : CaseDb)
    → find (has_id id) db.cases ≡ some r
    → Keeps id r db (run calls db)
unfolding run
run-Keeps [] id r db e = Keeps-refl id r db e
run-Keeps ((c, q) ∷ calls) id r db e =
    let one = apply-Keeps c q id r db e in
    let rest = run-Keeps calls id one.row (apply c q db) one.found in
    record {
      row = rest.row;
      found = rest.found;
      same = SameCase-trans one.same rest.same;
      notes_kept =
          Extends-trans db.notes (apply c q db).notes (run calls (apply c q db)).notes
            one.notes_kept rest.notes_kept;
      actions_kept =
          Extends-trans db.actions (apply c q db).actions (run calls (apply c q db)).actions
            one.actions_kept rest.actions_kept;
    }
