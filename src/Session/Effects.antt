-- ===== src/Session/Effects.antt =====
-- Any sequence of session calls, and how a session moves in it.
use go_lab.Prelude.{
  ◌+◌, ◌≡◌, refl, ◌∙◌, ◌⊎◌, inl, inr, ℤ, Text, Bool, true, false, none, some, List, [], ◌∷◌, arith,
  is_some, Bool-cases,
}
use go_lab.Sql.{Call, Outcome, Result, ok, err}
use go_lab.Sql.Rows.{find, update}
use go_lab.Sql.Keys.{find-update_by, find-insert_by, revise}
use go_lab.Session.{
  SessionError, User, Session, Db, has_hash, exec, insert_session, new_session, create_session,
  set_revoked, is_revocable, revoke_session, read_session, set_seen, is_extendable, extend_session,
  validate_session, is_active_of, revoke_all, cap_at,
}

-- The calls that change sessions. `extend_from` is the UPDATE of a validation that has read its
-- row earlier, with other calls in between; `users_become` is any change of the users table.
pub data Step : Type 0 where
  create_for : ℤ → Text → Text → Text → Step
  revoke_by : Text → Step
  revoke_all_of : ℤ → Step
  validate_by : Text → Step
  extend_from : Session → Step
  users_become : List User → Step

-- How a session may move: it keeps its user, its hash and its absolute expiry, and a revocation
-- stays as it is.
pub record Follows (s s' : Session) : Type 0 where
  pub same_id : s'.id ≡ s.id
  pub same_user : s'.user_id ≡ s.user_id
  pub same_hash : s'.token_hash ≡ s.token_hash
  pub same_absolute : s'.absolute_expires_at ≡ s.absolute_expires_at
  pub stays_revoked : (s.revoked_at ≡ none) ⊎ (s'.revoked_at ≡ s.revoked_at)

Follows-refl : (s : Session) → Follows s s
Follows-refl s = record {
  same_id = refl;
  same_user = refl;
  same_hash = refl;
  same_absolute = refl;
  stays_revoked = inr refl;
}

-- The table holds, under the hash `h`, a session that `s` has moved to.
pub record Holds (h : Text) (s : Session) (db : Db) : Type 0 where
  pub session : Session
  pub found : find (has_hash h) db.sessions ≡ some session
  pub follows : Follows s session

Holds-same :
    (h : Text) (s : Session) (db : Db) → find (has_hash h) db.sessions ≡ some s → Holds h s db
Holds-same h s db e = record { session = s; found = e; follows = Follows-refl s }

pub Follows-trans : {s t u : Session} → Follows s t → Follows t u → Follows s u
Follows-trans a b = record {
  same_id = b.same_id ∙ a.same_id;
  same_user = b.same_user ∙ a.same_user;
  same_hash = b.same_hash ∙ a.same_hash;
  same_absolute = b.same_absolute ∙ a.same_absolute;
  stays_revoked = ground (arith, a.stays_revoked, b.stays_revoked);
}

updated :
    (db : Db) (p : Session → Bool) (f : Session → Session) (h : Text) (s : Session)
    → ((x : Session) → (f x).token_hash ≡ x.token_hash)
    → find (has_hash h) db.sessions ≡ some s
    → (p s ≡ true → Follows s (f s))
    → Holds h s (record db { sessions = update p f db.sessions })
updated db p f h s same e m = record {
  session = revise p f s;
  found = find-update_by (has_hash h) p f db.sessions (λ x. rw (same x)) ∙ rw e;
  follows = elim (Bool-cases (p s)) [ inl t ↦ rw t (m t) | inr t ↦ rw t (Follows-refl s) ];
}

exec-Holds :
    (o : Outcome) (db : Db) (p : Session → Bool) (f : Session → Session) (h : Text) (s : Session)
    → ((x : Session) → (f x).token_hash ≡ x.token_hash)
    → find (has_hash h) db.sessions ≡ some s
    → (p s ≡ true → Follows s (f s))
    → Holds h s (exec o db (update p f db.sessions))
exec-Holds Outcome.failed db p f h s same e m = Holds-same h s db e
exec-Holds Outcome.done db p f h s same e m = updated db p f h s same e m
exec-Holds Outcome.lost db p f h s same e m = updated db p f h s same e m

insert_session-Holds :
    (o : Outcome) (new : Session) (db : Db) (h : Text) (s : Session)
    → find (has_hash h) db.sessions ≡ some s
    → Holds h s (insert_session o new db)
insert_session-Holds Outcome.failed new db h s e = Holds-same h s db e
insert_session-Holds Outcome.done new db h s e = record {
  session = s;
  found = find-insert_by (has_hash h) new s db.sessions e;
  follows = Follows-refl s;
}
insert_session-Holds Outcome.lost new db h s e = record {
  session = s;
  found = find-insert_by (has_hash h) new s db.sessions e;
  follows = Follows-refl s;
}

module _ (hash : Text → Text) where
  unfoldable pub apply : Call → Step → Db → Db
  apply c (create_for uid raw_token ip ua) db = (create_session hash c uid raw_token ip ua db).1
  apply c (revoke_by raw_token) db = (revoke_session hash c raw_token db).1
  apply c (revoke_all_of uid) db = (revoke_all hash c uid db).1
  apply c (validate_by raw_token) db = (validate_session hash c raw_token db).1
  apply c (extend_from row) db = (extend_session hash c row db).1
  apply c (users_become users) db = record db { users = users }

  unfoldable pub run : List (Call × Step) → Db → Db
  run [] db = db
  run ((c, q) ∷ calls) db = run calls (apply c q db)

  extend_session-Holds :
      (c : Call) (row : Session) (db : Db) (h : Text) (s : Session)
      → find (has_hash h) db.sessions ≡ some s
      → Holds h s (extend_session hash c row db).1
  unfolding extend_session
  extend_session-Holds c row db h s e =
      let slide = cap_at (c.now + db.idle_ttl) row.absolute_expires_at in
      exec-Holds (c.driver 1) db (is_extendable hash row.id) (set_seen hash c slide) h s (λ x. refl)
        e
        (λ t. record {
          same_id = refl;
          same_user = refl;
          same_hash = refl;
          same_absolute = refl;
          stays_revoked = inr refl;
        })

  revoked-Follows :
      (c : Call) (s : Session) → is_some s.revoked_at ≡ false → Follows s (set_revoked hash c s)
  revoked-Follows c s t = record {
    same_id = refl;
    same_user = refl;
    same_hash = refl;
    same_absolute = refl;
    stays_revoked = inl (ground arith);
  }

  -- One call moves a session along `Follows` and keeps it in the table.
  pub apply-Holds :
      (c : Call) (q : Step) (db : Db) (h : Text) (s : Session)
      → find (has_hash h) db.sessions ≡ some s
      → Holds h s (apply c q db)
  unfolding apply create_session revoke_session validate_session revoke_all
  apply-Holds c (create_for uid raw_token ip ua) db h s e =
      let new = new_session hash c uid raw_token ip ua db in
      let either : ((create_session hash c uid raw_token ip ua db).1 ≡ db)
          ⊎ ((create_session hash c uid raw_token ip ua db).1
              ≡ insert_session (c.driver 0) new db) =
        ground arith in
      elim either [
        | inl same ↦ rw same (Holds-same h s db e)
        | inr did ↦ rw did (insert_session-Holds (c.driver 0) new db h s e)
      ]
  apply-Holds c (revoke_by raw_token) db h s e =
      let after =
        exec (c.driver 0) db
          (update (is_revocable hash (hash raw_token)) (set_revoked hash c) db.sessions) in
      let either : ((revoke_session hash c raw_token db).1 ≡ db)
          ⊎ ((revoke_session hash c raw_token db).1 ≡ after) =
        ground arith in
      elim either [
        | inl same ↦ rw same (Holds-same h s db e)
        | inr did ↦ rw did (
            exec-Holds (c.driver 0) db (is_revocable hash (hash raw_token)) (set_revoked hash c) h s
              (λ x. refl) e (λ t. revoked-Follows c s (ground arith)))
      ]
  apply-Holds c (revoke_all_of uid) db h s e =
      exec-Holds (c.driver 0) db (is_active_of hash uid) (set_revoked hash c) h s (λ x. refl) e
        (λ t. revoked-Follows c s (ground arith))
  apply-Holds c (validate_by raw_token) db h s e = go (read_session hash c raw_token db)
    where
      go :
          (r : Result SessionError Session)
          → Holds h s (
              (elim r as (λ _. Result SessionError ℤ × Db) [
                | err x ↦ (err x, db)
                | ok row ↦ extend_session hash c row db
              ]).1)
      go (err x) = Holds-same h s db e
      go (ok row) = extend_session-Holds c row db h s e
  apply-Holds c (extend_from row) db h s e = extend_session-Holds c row db h s e
  apply-Holds c (users_become users) db h s e = Holds-same h s (record db { users = users }) e

  -- So does any sequence of calls.
  pub run-Holds :
      (calls : List (Call × Step)) (db : Db) (h : Text) (s : Session)
      → find (has_hash h) db.sessions ≡ some s
      → Holds h s (run calls db)
  unfolding run
  run-Holds [] db h s e = Holds-same h s db e
  run-Holds ((c, q) ∷ calls) db h s e =
      let one = apply-Holds c q db h s e in
      let rest = run-Holds calls (apply c q db) h one.session one.found in
      record {
        session = rest.session;
        found = rest.found;
        follows = Follows-trans one.follows rest.follows;
      }
