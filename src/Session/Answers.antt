-- ===== src/Session/Answers.antt =====
-- When a token validates, how far its session is extended, and what a revocation of all reaches.
use go_lab.Prelude.{
  ℕ, ◌+◌, ◌≤◌, ◌<◌, ◌≡◌, refl, ◌≢◌, ◌↔◌, ℤ, int_eq_iff, Text, true, false, none, some, List, [],
  ◌∷◌, arith, All,
}
use go_lab.Sql.{Call, Outcome, ok, steady}
use go_lab.Sql.Rows.{find, update}
use go_lab.Sql.Keys.{find-update_by}
use go_lab.Session.{
  Session, Db, has_hash, set_revoked, read_session, set_seen, is_extendable, extend_session,
  validate_session, is_active_of, revoke_all, cap_at, is_live,
}
use go_lab.Session.Lifetime.{HashUnique, find-both}

module _ (hash : Text → Text) (now db_now : ℕ) (raw_token : Text) (db : Db) (s : Session) where
  -- With a connected database that answers and no two sessions with one hash, a token whose
  -- session is found validates, as its user, exactly when the user is not deleted, the session is
  -- not revoked, and neither of its expiries is reached.
  pub validate-ok_iff :
      db.connected ≡ true
      → HashUnique db
      → find (has_hash (hash raw_token)) db.sessions ≡ some s
      → ((validate_session hash (steady now db_now) raw_token db).0 ≡ ok s.user_id) ↔ (
          (is_live db s ≡ true)
          × (s.revoked_at ≡ none)
          × (now < s.absolute_expires_at)
          × (now < s.expires_at))
  unfolding validate_session read_session extend_session
  validate-ok_iff up u e =
      let both = find-both (hash raw_token) (is_live db) db.sessions s u e in ground arith

  -- With a database that answers and no two sessions with one hash, a validation that succeeds is
  -- for the user of the session that is found, and moves its sliding expiry to one idle time from
  -- now, but never past the absolute expiry; nothing else of the session but the time it was seen
  -- changes.
  pub validate_extends :
      (uid : ℤ)
      → HashUnique db
      → find (has_hash (hash raw_token)) db.sessions ≡ some s
      → (validate_session hash (steady now db_now) raw_token db).0 ≡ ok uid
      → (uid ≡ s.user_id)
        × (find
              (has_hash (hash raw_token))
              (validate_session hash (steady now db_now) raw_token db).1.sessions
            ≡ some (record s {
              last_seen_at = db_now;
              expires_at = cap_at (now + db.idle_ttl) s.absolute_expires_at;
            }))
        × (cap_at (now + db.idle_ttl) s.absolute_expires_at ≤ s.absolute_expires_at)
  unfolding validate_session read_session extend_session
  validate_extends uid u e h =
      let both = find-both (hash raw_token) (is_live db) db.sessions s u e in
      let slide = cap_at (now + db.idle_ttl) s.absolute_expires_at in
      let after =
        find-update_by (has_hash (hash raw_token)) (is_extendable hash s.id)
          (set_seen hash (steady now db_now) slide) db.sessions (λ x. refl) in
      (ground arith, ground arith, ground arith)

revoke_all_rows :
    (hash : Text → Text) (c : Call) (uid : ℤ) (xs : List Session)
    → All
        (λ s. is_active_of hash uid s ≡ false)
        (update (is_active_of hash uid) (set_revoked hash c) xs)
revoke_all_rows hash c uid [] = tt
revoke_all_rows hash c uid (x ∷ xs) = (ground arith, revoke_all_rows hash c uid xs)

module _ (hash : Text → Text) where
  -- After a revocation of all sessions of a user that the database has answered, the table holds
  -- no active session of the user, and a session of another user is as it was.
  pub revoke_all_clears :
      (c : Call) (uid : ℤ) (n : ℕ) (db : Db) (h : Text) (s : Session)
      → (revoke_all hash c uid db).0 ≡ ok n
      → find (has_hash h) db.sessions ≡ some s
      → s.user_id ≢ uid
      → All (λ x. is_active_of hash uid x ≡ false) (revoke_all hash c uid db).1.sessions
        × (find (has_hash h) (revoke_all hash c uid db).1.sessions ≡ some s)
  unfolding revoke_all
  revoke_all_clears c uid n db h s answer e other =
      let did : c.driver 0 ≡ Outcome.done = ground arith in
      let after =
        find-update_by (has_hash h) (is_active_of hash uid) (set_revoked hash c) db.sessions
          (λ x. refl) in
      rw did (revoke_all_rows hash c uid db.sessions, ground (arith, int_eq_iff s.user_id uid))
