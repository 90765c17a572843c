-- ===== src/Cases/Valid.antt =====
-- The invariant of the tables of cases.
use go_lab.Prelude.{
  ℕ, ◌+◌, ◌<◌, ◌≡◌, refl, ◌⊎◌, inl, inr, ℤ, is_positive, Text, text_eq, is_empty, true, false,
  Option, none, some, List, [], ◌∷◌, arith, All, All-map, All-intro,
}
use go_lab.Strings.{trim_space}
use go_lab.Sql.{Call, Outcome, settle}
use go_lab.Sql.Rows.{update, insert, All-update, All-insert}
use go_lab.Sql.Keys.{Unique, Unique-update, Unique-insert}
use go_lab.Cases.{
  is_valid_status, is_valid_priority, CaseRow, CaseDb, Patch, create_case, update_case, add_note,
  add_action, insert_case, new_case, update_cases, is_changed, bad_text, or_else,
  priority_or_normal, set_patched, trimmed,
}

-- The calls of the store that change the tables.
pub data Step : Type 0 where
  create_for : ℤ → Option Text → Text → Text → Text → ℤ → Step
  update_by : ℕ → Patch → Step
  note_on : ℕ → Text → ℤ → Step
  act_on : ℕ → Text → Option Text → Text → ℤ → Step

unfoldable pub apply : Call → Step → CaseDb → CaseDb
apply c (create_for subject cref title description priority by) db =
    (create_case c subject cref title description priority by db).1
apply c (update_by id p) db = (update_case c id p db).1
apply c (note_on id body by) db = (add_note c id body by db).1
apply c (act_on id kind payload reason by) db = (add_action c id kind payload reason by db).1

unfoldable pub run : List (Call × Step) → CaseDb → CaseDb
run [] db = db
run ((c, q) ∷ calls) db = run calls (apply c q db)

abbrev pub empty_tables : CaseDb
empty_tables = record {
  connected = true;
  cases = [];
  notes = [];
  actions = [];
  next_case = 1;
  next_note = 1;
  next_action = 1;
}

-- A known status, a known priority, a title, and users for its subject and its author.
pub record CaseValid (r : CaseRow) : Type 0 where
  pub known_status : is_valid_status r.status ≡ true
  pub known_priority : is_valid_priority r.priority ≡ true
  pub titled : is_empty r.title ≡ false
  pub subject_positive : is_positive r.subject_user_id ≡ true
  pub author_positive : is_positive r.created_by ≡ true

pub record IsValid (db : CaseDb) : Type 0 where
  pub cases_valid : All CaseValid db.cases
  pub ids_below : All (λ r. r.id < db.next_case) db.cases
  pub ids_unique : Unique (λ r. r.id) db.cases

pub empty_tables-IsValid : IsValid empty_tables
empty_tables-IsValid = record { cases_valid = tt; ids_below = tt; ids_unique = tt }

insert_case-IsValid :
    (o : Outcome) (r : CaseRow) (db : CaseDb)
    → r.id ≡ db.next_case
    → CaseValid r
    → IsValid db
    → IsValid (insert_case o r db)
insert_case-IsValid o r db at rv v = go o
  where
    rows : IsValid (record db { cases = insert r db.cases; next_case = db.next_case + 1 })
    rows = record {
      cases_valid = All-insert CaseValid r db.cases rv v.cases_valid;
      ids_below =
          All-insert (λ x. x.id < db.next_case + 1) r db.cases (omega (arith, at))
            (All-map (λ x. x.id < db.next_case) (λ x. x.id < db.next_case + 1) db.cases
              (λ x h. omega arith) v.ids_below);
      ids_unique = Unique-insert (λ x. x.id) r db.cases (rw at v.ids_below) v.ids_unique;
    }

    go : (o : Outcome) → IsValid (insert_case o r db)
    go Outcome.failed = v
    go Outcome.done = rows
    go Outcome.lost = rows

create_case-IsValid :
    (c : Call) (subject : ℤ) (cref : Option Text) (title description priority : Text) (by : ℤ)
    (db : CaseDb)
    → IsValid db
    → IsValid (create_case c subject cref title description priority by db).1
unfolding create_case is_valid_status text_eq
create_case-IsValid c subject cref title description priority by db v =
    let new =
      new_case c db.next_case subject cref (trim_space title) description
        (priority_or_normal priority) by in
    let after = (create_case c subject cref title description priority by db).1 in
    let either : (after ≡ db)
        ⊎ ((after ≡ insert_case (c.driver 0) new db)
            × (is_positive subject ≡ true)
            × (is_empty (trim_space title) ≡ false)
            × (is_positive by ≡ true)
            × (is_valid_priority (priority_or_normal priority) ≡ true)) =
      ground arith in
    elim either [
      | inl same ↦ rw same v
      | inr (did, s, t, b, p) ↦ rw did (
          insert_case-IsValid (c.driver 0) new db refl
            (record {
              known_status = refl;
              known_priority = p;
              titled = t;
              subject_positive = s;
              author_positive = b;
            })
            v)
    ]

patched-CaseValid :
    (c : Call) (p : Patch) (r : CaseRow)
    → bad_text is_valid_status (trimmed p.status) ≡ false
    → bad_text is_valid_priority (trimmed p.priority) ≡ false
    → CaseValid r
    → CaseValid (set_patched c p r)
patched-CaseValid c p r s t v = record {
  known_status = chosen (trimmed p.status) s;
  known_priority = chosen' (trimmed p.priority) t;
  titled = v.titled;
  subject_positive = v.subject_positive;
  author_positive = v.author_positive;
}
  where
    chosen :
        (o : Option Text)
        → bad_text is_valid_status o ≡ false
        → is_valid_status (or_else o r.status) ≡ true
    chosen none e = v.known_status
    chosen (some x) e = ground arith

    chosen' :
        (o : Option Text)
        → bad_text is_valid_priority o ≡ false
        → is_valid_priority (or_else o r.priority) ≡ true
    chosen' none e = v.known_priority
    chosen' (some x) e = ground arith

update_cases-IsValid :
    (c : Call) (id : ℕ) (p : Patch) (db : CaseDb)
    → bad_text is_valid_status (trimmed p.status) ≡ false
    → bad_text is_valid_priority (trimmed p.priority) ≡ false
    → IsValid db
    → IsValid (update_cases c id p db)
update_cases-IsValid c id p db s t v = go (c.driver 0)
  where
    rows : IsValid (record db { cases = update (is_changed id p) (set_patched c p) db.cases })
    rows = record {
      cases_valid =
          All-update CaseValid (is_changed id p) (set_patched c p) db.cases
            (All-intro (λ x. is_changed id p x ≡ true → CaseValid x → CaseValid (set_patched c p x))
              db.cases (λ x _ h. patched-CaseValid c p x s t h))
            v.cases_valid;
      ids_below =
          All-update (λ x. x.id < db.next_case) (is_changed id p) (set_patched c p) db.cases
            (All-intro
              (λ x.
                is_changed id p x ≡ true
                → x.id < db.next_case
                → (set_patched c p x).id < db.next_case)
              db.cases (λ x _ h. h))
            v.ids_below;
      ids_unique =
          Unique-update (λ x. x.id) (is_changed id p) (set_patched c p) db.cases (λ x. refl)
            v.ids_unique;
    }

    go :
        (o : Outcome)
        → IsValid (record db {
          cases = settle o db.cases (update (is_changed id p) (set_patched c p) db.cases);
        })
    go Outcome.failed = v
    go Outcome.done = rows
    go Outcome.lost = rows

same_cases-IsValid :
    (db db' : CaseDb)
    → db'.cases ≡ db.cases
    → db'.next_case ≡ db.next_case
    → IsValid db
    → IsValid db'
same_cases-IsValid db db' e n v = record {
  cases_valid = rw e v.cases_valid;
  ids_below = rw (e, n) v.ids_below;
  ids_unique = rw e v.ids_unique;
}

update_case-IsValid :
    (c : Call) (id : ℕ) (p : Patch) (db : CaseDb) → IsValid db → IsValid (update_case c id p db).1
unfolding update_case
update_case-IsValid c id p db v =
    let after = (update_case c id p db).1 in
    let either : (after ≡ db)
        ⊎ ((after ≡ update_cases c id p db)
            × (bad_text is_valid_status (trimmed p.status) ≡ false)
            × (bad_text is_valid_priority (trimmed p.priority) ≡ false)) =
      ground arith in
    elim either [
      | inl same ↦ rw same v
      | inr (did, s, t) ↦ rw did (update_cases-IsValid c id p db s t v)
    ]

pub apply-IsValid : (c : Call) (q : Step) (db : CaseDb) → IsValid db → IsValid (apply c q db)
unfolding apply add_note add_action
apply-IsValid c (create_for subject cref title description priority by) db v =
    create_case-IsValid c subject cref title description priority by db v
apply-IsValid c (update_by id p) db v = update_case-IsValid c id p db v
apply-IsValid c (note_on id body by) db v =
    same_cases-IsValid db (add_note c id body by db).1 (ground arith) (ground arith) v
apply-IsValid c (act_on id kind payload reason by) db v =
    same_cases-IsValid db (add_action c id kind payload reason by db).1 (ground arith)
      (ground arith) v

pub run-IsValid : (calls : List (Call × Step)) (db : CaseDb) → IsValid db → IsValid (run calls db)
unfolding run
run-IsValid [] db v = v
run-IsValid ((c, q) ∷ calls) db v = run-IsValid calls (apply c q db) (apply-IsValid c q db v)

-- From empty tables, after any calls of the store and whatever the driver answers, every case has a
-- known status and priority, a title, and positive ids for its subject and its author, and no two
-- cases share an id.
pub run-CaseValid :
    (calls : List (Call × Step))
    → All CaseValid (run calls empty_tables).cases
      × Unique (λ r. r.id) (run calls empty_tables).cases
run-CaseValid calls =
    let v = run-IsValid calls empty_tables empty_tables-IsValid in (v.cases_valid, v.ids_unique)
