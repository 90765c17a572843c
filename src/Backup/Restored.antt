-- ===== src/Backup/Restored.antt =====
-- Sequences of calls of the store and of the machine.
use go_lab.Prelude.{
  ℕ, ◌≡◌, refl, ◌≢◌, ◌∙◌, ap, inl, inr, ℤ, is_positive, int_eq_iff, Text, true, false, Option, none,
  some, List, [], ◌∷◌, ◌++◌, arith, All, ◌==◌,
}
use go_lab.Sql.{Call, steady}
use go_lab.Sql.Rows.{find}
use go_lab.Backup.{
  Status, pending, approved, rejected, fulfilled, cancelled, Row, Db, approve, has_id,
}
use go_lab.Backup.Effects.{
  create-effect, reject-effect, cancel-effect, fulfill-effect, Approval, unchanged, first_slot,
  second_slot, approve-effect,
}
use go_lab.Backup.Valid.{IsValid}
use go_lab.Backup.Traces.{
  Request, create_for, approve_by, reject_by, cancel_by, fulfill_by, apply, run, apply-IsValid,
}
use go_lab.Backup.Refinement.{apply-refines}
use go_lab.Backup.Phases.{Phase, waiting, seconded, granted, restored, phase, spec, IsIn}

-- The machine over any calls.
unfoldable pub spec_run : ℕ → List Request → Phase → Phase
spec_run id [] p = p
spec_run id (q ∷ qs) p = spec_run id qs (spec id q p)

-- The calls with a database that answers, at given times.
abbrev pub steadily : ℕ → ℕ → List Request → List (Call × Request)
steadily now db_now [] = []
steadily now db_now (q ∷ qs) = (steady now db_now, q) ∷ steadily now db_now qs

apply-connected : (c : Call) (q : Request) (db : Db) → (apply c q db).connected ≡ db.connected
unfolding apply
apply-connected c (create_for by scope label reason req_id) db =
    elim (create-effect c by scope label reason req_id db) [
      | inl same ↦ rw same refl
      | inr did ↦ rw did refl
    ]
apply-connected c (approve_by k a) db = go (approve-effect c k a db)
  where
    go : Approval c k a db (approve c k a db).1 → (approve c k a db).1.connected ≡ db.connected
    go (unchanged same) = rw same refl
    go (first_slot x _ _ _ _ did) = rw did refl
    go (second_slot x first _ _ _ _ _ _ did) = rw did refl
apply-connected c (reject_by k a why) db = elim (reject-effect c k a why db) [
  | inl same ↦ rw same refl
  | inr did ↦ rw did refl
]
apply-connected c (cancel_by k a) db = elim (cancel-effect c k a db) [
  | inl same ↦ rw same refl
  | inr did ↦ rw did refl
]
apply-connected c (fulfill_by k a note) db = elim (fulfill-effect c k a note db) [
  | inl same ↦ rw same refl
  | inr did ↦ rw did refl
]

-- With a connected database that answers and a valid table, any calls of the store leave a request
-- that is in the table in exactly the phase that the abstract machine reaches by these calls.
pub run-refines :
    (now db_now : ℕ) (qs : List Request) (id : ℕ) (db : Db) (p : Phase)
    → db.connected ≡ true
    → IsValid db
    → IsIn id p db
    → IsIn id (spec_run id qs p) (run (steadily now db_now qs) db)
unfolding run spec_run
run-refines now db_now [] id db p up v held = held
run-refines now db_now (q ∷ qs) id db p up v held =
    run-refines now db_now qs id (apply (steady now db_now) q db) (spec id q p)
      (apply-connected (steady now db_now) q db ∙ up) (apply-IsValid (steady now db_now) q db v)
      (apply-refines now db_now q id db p up v held)

-- A call on another request, or a new request.
abbrev pub Elsewhere : ℕ → Request → Type 0
Elsewhere id (create_for by scope label reason req_id) = Unit
Elsewhere id (approve_by k a) = (k == id) ≡ false
Elsewhere id (reject_by k a why) = (k == id) ≡ false
Elsewhere id (cancel_by k a) = (k == id) ≡ false
Elsewhere id (fulfill_by k a note) = (k == id) ≡ false

spec-Elsewhere : (id : ℕ) (q : Request) (p : Phase) → Elsewhere id q → spec id q p ≡ p
spec-Elsewhere id (create_for by scope label reason req_id) p h = refl
spec-Elsewhere id (approve_by k a) p h = rw h refl
spec-Elsewhere id (reject_by k a why) p h = rw h refl
spec-Elsewhere id (cancel_by k a) p h = rw h refl
spec-Elsewhere id (fulfill_by k a note) p h = rw h refl

spec_run-Elsewhere :
    (id : ℕ) (qs rest : List Request) (p : Phase)
    → All (Elsewhere id) qs
    → spec_run id (qs ++ rest) p ≡ spec_run id rest p
unfolding spec_run
spec_run-Elsewhere id [] rest p h = refl
spec_run-Elsewhere id (q ∷ qs) rest p (h, hs) =
    ap (spec_run id (qs ++ rest)) (spec-Elsewhere id q p h) ∙ spec_run-Elsewhere id qs rest p hs

-- Two approvals and a fulfilment, with other calls before and between them.
abbrev pub restore_calls :
    ℕ → ℤ → ℤ → ℤ → Text → List Request → List Request → List Request → List Request
restore_calls id a b actor note before between behind =
    before
    ++ (approve_by id a
        ∷ (between ++ (approve_by id b ∷ (behind ++ (fulfill_by id actor note ∷ [])))))

-- With a connected database that answers and a valid table, a request that waits for approvals is
-- fulfilled by the approvals of two different users with positive ids, neither of them its requester,
-- and a fulfilment, whatever new requests and calls on other requests come before and between.
pub two_approvers_restore :
    (now db_now : ℕ) (id : ℕ) (by a b actor : ℤ) (note : Text)
    (before between behind : List Request) (db : Db)
    → db.connected ≡ true
    → IsValid db
    → IsIn id (waiting by) db
    → is_positive a ≡ true
    → is_positive b ≡ true
    → a ≢ by
    → b ≢ by
    → a ≢ b
    → All (Elsewhere id) before
    → All (Elsewhere id) between
    → All (Elsewhere id) behind
    → (r : Row) × (find
          (has_id id)
          (run
            (steadily now db_now (restore_calls id a b actor note before between behind))
            db).rows
        ≡ some r)
      × (r.status ≡ fulfilled)
unfolding spec_run
two_approvers_restore now db_now id by a b actor note before between behind db up v held pa pb ab bb
      ne h1 h2 h3 =
    let calls = restore_calls id a b actor note before between behind in
    let done = run-refines now db_now calls id db (waiting by) up v held in
    let self : (id == id) ≡ true = ground arith in
    let first : spec id (approve_by id a) (waiting by) ≡ seconded by a =
      ground (arith, self, pa, int_eq_iff by a, ab) in
    let second : spec id (approve_by id b) (seconded by a) ≡ granted =
      ground (arith, self, pb, int_eq_iff by b, int_eq_iff a b, bb, ne) in
    let third : spec id (fulfill_by id actor note) granted ≡ restored = ground (arith, self) in
    let fourth = behind ++ (fulfill_by id actor note ∷ []) in
    let reached : spec_run id calls (waiting by) ≡ restored =
      spec_run-Elsewhere id before (approve_by id a ∷ (between ++ (approve_by id b ∷ fourth)))
        (waiting by) h1
      ∙ ap (spec_run id (between ++ (approve_by id b ∷ fourth))) first
      ∙ spec_run-Elsewhere id between (approve_by id b ∷ fourth) (seconded by a) h2
      ∙ ap (spec_run id fourth) second
      ∙ spec_run-Elsewhere id behind (fulfill_by id actor note ∷ []) granted h3
      ∙ third in
    (done.row, done.found, is_restored done.row (done.at ∙ reached))
  where
    is_restored : (r : Row) → phase r ≡ restored → r.status ≡ fulfilled
    is_restored r h = go r.status r.approval_1 refl refl
      where
        go : (s : Status) (o : Option ℤ) → r.status ≡ s → r.approval_1 ≡ o → r.status ≡ fulfilled
        go pending none e e' = absurd (ground (arith, e, e', h))
        go pending (some x) e e' = absurd (ground (arith, e, e', h))
        go approved o e e' = absurd (ground (arith, e, h))
        go rejected o e e' = absurd (ground (arith, e, h))
        go fulfilled o e e' = e
        go cancelled o e e' = absurd (ground (arith, e, h))
