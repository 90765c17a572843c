-- ===== src/Cases/Handlers/Recorded.antt =====
-- What the action endpoints on cases leave when they succeed.
use go_lab.Prelude.{
  ℕ, ◌≡◌, refl, ◌∙◌, if◌then◌else◌, not, ℤ, Text, codes, map, true, Option, none, some, arith,
}
use go_lab.Strings.{trim_space, lower_byte}
use go_lab.Sql.{Call, Result, ok, err, null_str}
use go_lab.Sql.Rows.{find, insert}
use go_lab.Http.{validation, Reply, success, error, Context, auth_user_id, id_of, reason_of}
use go_lab.Audit.{insert_admin_event}
use go_lab.Cases.{CaseError, CaseRow, CaseDb, has_id, get_case, add_action, new_action}
use go_lab.Cases.Handlers.{
  World, Payload, recovery, appeal, case_event, record_action, with_case, sanction_payload,
  character_of, is_outcome, post_sanction, post_recovery, post_appeal,
}

module _ (marshal : Payload → Text) where
  -- The user and the case of the request, the case as it stands in the table, and the payload made
  -- from it; one action is added, by that user on that case, and then one event.
  pub record Acted (c : Call) (ctx : Context) (kind event : Text)
      (payload_of : CaseRow → Option Payload) (w w' : World) : Type 0 where
    pub uid : ℤ
    pub id : ℕ
    pub row : CaseRow
    pub payload : Payload
    pub by_user : auth_user_id ctx.auth_subject ≡ some uid
    pub on_case : id_of ctx ≡ some id
    pub found : find (has_id id) w.cases.cases ≡ some row
    pub made : payload_of row ≡ some payload
    pub added :
        w'.cases.actions
        ≡ insert
            (new_action c w.cases.next_action id kind
              (null_str (marshal payload))
              (reason_of ctx)
              uid)
            w.cases.actions
    pub same_cases : w'.cases.cases ≡ w.cases.cases
    pub audited :
        w'.events
        ≡ (insert_admin_event
            (c.driver 3)
            w'.cases.connected
            (case_event ctx uid event id (some (marshal payload)))
            w.events).1

  get_case-found :
      (c : Call) (id : ℕ) (db : CaseDb) (r : CaseRow)
      → get_case c id db ≡ ok r
      → find (has_id id) db.cases ≡ some r
  unfolding get_case
  get_case-found c id db r h = go (find (has_id id) db.cases) refl
    where
      go : (o : Option CaseRow) → find (has_id id) db.cases ≡ o → o ≡ some r
      go none e = absurd (ground (arith, h))
      go (some x) e = ground (arith, h)

  record_action-Acted :
      (c : Call) (ctx : Context) (uid : ℤ) (id : ℕ) (kind event : Text)
      (payload_of : CaseRow → Option Payload) (w : World) (n : ℕ) (t : Text)
      → auth_user_id ctx.auth_subject ≡ some uid
      → id_of ctx ≡ some id
      → (record_action marshal c ctx uid id kind event payload_of w).0 ≡ success n t
      → Acted c ctx kind event payload_of w
          (record_action marshal c ctx uid id kind event payload_of w).1
  unfolding add_action
  record_action-Acted c ctx uid id kind event payload_of w n t u i h =
      go (get_case c id w.cases) refl
    where
      done : Reply Text × World
      done = record_action marshal c ctx uid id kind event payload_of w

      after_payload :
          (r : CaseRow)
          → get_case c id w.cases ≡ ok r
          → (p : Option Payload) → payload_of r ≡ p
          → Acted c ctx kind event payload_of w done.1
      after_payload r e none m = absurd (ground (arith, h))
      after_payload r e (some payload) m = record {
        uid = uid;
        id = id;
        row = r;
        payload = payload;
        by_user = u;
        on_case = i;
        found = get_case-found c id w.cases r e;
        made = m;
        added = ground (arith, h, e, m);
        same_cases = ground (arith, h, e, m);
        audited = ground (arith, h, e, m);
      }

      go :
          (result : Result CaseError CaseRow)
          → get_case c id w.cases ≡ result
          → Acted c ctx kind event payload_of w done.1
      go (err x) e = absurd (ground (arith, h))
      go (ok r) e = after_payload r e (payload_of r) refl

  with_case-reached :
      {B : Type 0} (ctx : Context) (b : B) (w : World) (k : ℤ → ℕ → B → Reply Text × World) (n : ℕ)
      (t : Text)
      → (with_case marshal ctx (some b) w k).0 ≡ success n t
      → (uid : ℤ) × (id : ℕ) × (auth_user_id ctx.auth_subject ≡ some uid)
        × (id_of ctx ≡ some id)
        × (with_case marshal ctx (some b) w k ≡ k uid id b)
  with_case-reached {B} ctx b w k n t h = user (auth_user_id ctx.auth_subject) refl
    where
      Reached : Type 0
      Reached =
          (uid : ℤ) × (id : ℕ) × (auth_user_id ctx.auth_subject ≡ some uid)
          × (id_of ctx ≡ some id)
          × (with_case marshal ctx (some b) w k ≡ k uid id b)

      param :
          (uid : ℤ)
          → auth_user_id ctx.auth_subject ≡ some uid
          → (i : Option ℕ) → id_of ctx ≡ i
          → Reached
      param uid u none i = absurd (ground (arith, h))
      param uid u (some id) i = (uid, id, u, i, ground (arith, u, i))

      user : (o : Option ℤ) → auth_user_id ctx.auth_subject ≡ o → Reached
      user none u = absurd (ground (arith, h))
      user (some uid) u = param uid u (id_of ctx) refl

  -- A success of the sanction endpoint comes from a user on a case that the table holds; it leaves
  -- exactly one more action, a sanction by that user with the payload made from the body and the
  -- case, no other case, and what the insertion of its audit event leaves.
  pub post_sanction-Acted :
      (to_utc : Text → Option Text) (c : Call) (ctx : Context) (type : Text)
      (expires_at : Option Text) (w : World) (n : ℕ) (t : Text)
      → (post_sanction marshal to_utc c ctx (some (type, expires_at)) w).0 ≡ success n t
      → Acted c ctx
          (codes "sanction")
          (codes "case.sanction_recorded")
          (sanction_payload marshal to_utc type expires_at)
          w
          (post_sanction marshal to_utc c ctx (some (type, expires_at)) w).1
  unfolding post_sanction
  post_sanction-Acted to_utc c ctx type expires_at w n t h =
      let payload_of = sanction_payload marshal to_utc type expires_at in
      let (uid, id, u, i, did) =
        with_case-reached ctx (type, expires_at) w
          (λ uid id (type, expires_at).
            record_action marshal c ctx uid id (codes "sanction") (codes "case.sanction_recorded")
              (sanction_payload marshal to_utc type expires_at) w)
          n t h in
      rw did (
        record_action-Acted c ctx uid id (codes "sanction") (codes "case.sanction_recorded")
          payload_of w n t u i (rw⁻¹ did h))

  -- A success of the recovery endpoint comes from a user on a case that the table holds; it leaves
  -- exactly one more action, a recovery request by that user for the character of the body, or else
  -- of the case, no other case, and what the insertion of its audit event leaves.
  pub post_recovery-Acted :
      (c : Call) (ctx : Context) (character : Text) (w : World) (n : ℕ) (t : Text)
      → (post_recovery marshal c ctx (some character) w).0 ≡ success n t
      → Acted c ctx
          (codes "recovery_request")
          (codes "case.recovery_requested")
          (λ row. some (
            recovery
              (character_of marshal (trim_space character) row.subject_character_ref)
              row.subject_user_id))
          w
          (post_recovery marshal c ctx (some character) w).1
  unfolding post_recovery
  post_recovery-Acted c ctx character w n t h =
      let payload_of = λ (row : CaseRow). some (
        recovery (character_of marshal (trim_space character) row.subject_character_ref)
          row.subject_user_id) in
      let (uid, id, u, i, did) =
        with_case-reached ctx character w
          (λ uid id character.
            record_action marshal c ctx uid id (codes "recovery_request")
              (codes "case.recovery_requested")
              (λ row. some (
                recovery (character_of marshal (trim_space character) row.subject_character_ref)
                  row.subject_user_id))
              w)
          n t h in
      rw did (
        record_action-Acted c ctx uid id (codes "recovery_request")
          (codes "case.recovery_requested") payload_of w n t u i (rw⁻¹ did h))

  -- A success of the appeal endpoint comes from a user on a case that the table holds, with the
  -- outcome "upheld" or "overturned" after trimming and in lower case; it leaves exactly one more
  -- action, of that outcome and that user, no other case, and what the insertion of its audit event
  -- leaves.
  pub post_appeal-Acted :
      (c : Call) (ctx : Context) (outcome notes : Text) (w : World) (n : ℕ) (t : Text)
      → (post_appeal marshal c ctx (some (outcome, notes)) w).0 ≡ success n t
      → Acted c ctx
          (codes "appeal_resolve")
          (codes "case.appeal_resolved")
          (λ row. some (appeal (map lower_byte (trim_space outcome)) (trim_space notes)))
          w
          (post_appeal marshal c ctx (some (outcome, notes)) w).1
        × (is_outcome marshal (map lower_byte (trim_space outcome)) ≡ true)
  unfolding post_appeal
  post_appeal-Acted c ctx outcome notes w n t h =
      let payload_of =
        λ (row : CaseRow). some (appeal (map lower_byte (trim_space outcome)) (trim_space notes)) in
      let (uid, id, u, i, did) =
        with_case-reached ctx (outcome, notes) w
          (λ uid id (raw_outcome, notes).
            let outcome = map lower_byte (trim_space raw_outcome) in
            if not (is_outcome marshal outcome)
            then (error 400 validation, w)
            else record_action marshal c ctx uid id (codes "appeal_resolve")
                (codes "case.appeal_resolved") (λ row. some (appeal outcome (trim_space notes))) w)
          n t h in
      let known : is_outcome marshal (map lower_byte (trim_space outcome)) ≡ true =
        ground (arith, did, h) in
      let last : post_appeal marshal c ctx (some (outcome, notes)) w
          ≡ record_action marshal c ctx uid id (codes "appeal_resolve")
              (codes "case.appeal_resolved") payload_of w =
        did ∙ ground (arith, known) in
      (
        rw last (
            record_action-Acted c ctx uid id (codes "appeal_resolve") (codes "case.appeal_resolved")
              payload_of w n t u i (rw⁻¹ last h)),
        known,
      )
