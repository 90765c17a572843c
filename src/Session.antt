-- ===== src/Session.antt =====
-- The sessions of api/authstore/store.go and api/authstore/user_auth.go: opaque tokens whose hash
-- the table holds, with a sliding and an absolute expiry.
pub mod Effects
pub mod Lifetime
pub mod Answers
mod Tests
use go_lab.Prelude.{
  ℕ, ◌+◌, ℤ, int_eq, Text, text_eq, Bool, true, false, ◌&&◌, ◌||◌, not, Option, none, some, List,
  [], ◌∷◌, ltb, ◌==◌, any, is_some, if◌then◌else◌,
}
use go_lab.Sql.{Call, Outcome, answered, Result, ok, err, settle, null_str}
use go_lab.Sql.Rows.{find, update, matching, insert}

-- `driver` is an error of the database; a duplicate key is one.
pub data SessionError : Type 0 where
  not_found revoked expired nil_db driver : SessionError

-- The columns of `users` that sessions depend on.
pub record User : Type 0 where
  pub id : ℤ
  pub deleted_at : Option ℕ

pub record Session : Type 0 where
  pub id : ℕ
  pub user_id : ℤ
  pub token_hash : Text
  pub last_seen_at : ℕ
  pub expires_at : ℕ
  pub absolute_expires_at : ℕ
  pub revoked_at : Option ℕ
  pub ip : Option Text
  pub user_agent : Option Text

-- `Store`, with the tables that its session methods read and write.
pub record Db : Type 0 where
  pub connected : Bool
  pub idle_ttl : ℕ
  pub abs_ttl : ℕ
  pub users : List User
  pub sessions : List Session
  pub next_id : ℕ

abbrev pub has_hash : Text → Session → Bool
has_hash h s = text_eq s.token_hash h

abbrev pub is_live_user : ℤ → User → Bool
is_live_user uid u = int_eq u.id uid && not (is_some u.deleted_at)

-- `user_id IN (SELECT id FROM users WHERE deleted_at IS NULL)`
abbrev pub is_live : Db → Session → Bool
is_live db s = any (is_live_user s.user_id) db.users

-- The earlier of two times: `if slide.After(abs) { slide = abs }`.
abbrev pub cap_at : ℕ → ℕ → ℕ
cap_at slide abs = if ltb abs slide then abs else slide

abbrev exec : Outcome → Db → List Session → Db
exec o db sessions = record db { sessions = settle o db.sessions sessions }

abbrev pub insert_session : Outcome → Session → Db → Db
insert_session o s db = record db {
  sessions = settle o db.sessions (insert s db.sessions);
  next_id = settle o db.next_id (db.next_id + 1);
}

-- `HashOpaqueToken`, SHA-256 in hexadecimal digits, is a parameter.
module _ (hash : Text → Text) where
  abbrev pub new_session : Call → ℤ → Text → Text → Text → Db → Session
  new_session c user_id raw_token ip ua db = record {
    id = db.next_id;
    user_id = user_id;
    token_hash = hash raw_token;
    last_seen_at = c.db_now;
    expires_at = cap_at (c.now + db.idle_ttl) (c.now + db.abs_ttl);
    absolute_expires_at = c.now + db.abs_ttl;
    revoked_at = none;
    ip = null_str ip;
    user_agent = null_str ua;
  }

  -- `CreateSession`; the unique key on `token_hash` refuses a hash that is there.
  unfoldable pub create_session :
      Call → ℤ → Text → Text → Text → Db → Result SessionError (Unit {0}) × Db
  create_session c user_id raw_token ip ua db =
      if not db.connected
      then (err nil_db, db)
      else if any (has_hash (hash raw_token)) db.sessions
      then (err driver, db)
      else (
        if answered (c.driver 0) then ok tt else err driver,
        insert_session (c.driver 0) (new_session c user_id raw_token ip ua db) db,
      )

  abbrev pub set_revoked : Call → Session → Session
  set_revoked c s = record s { revoked_at = some c.db_now }

  abbrev is_revocable : Text → Session → Bool
  is_revocable h s = has_hash h s && not (is_some s.revoked_at)

  -- `RevokeSessionByRawToken`
  unfoldable pub revoke_session : Call → Text → Db → Result SessionError (Unit {0}) × Db
  revoke_session c raw_token db = if not db.connected then (err nil_db, db) else (
    if answered (c.driver 0) then ok tt else err driver,
    exec (c.driver 0) db (update (is_revocable (hash raw_token)) (set_revoked c) db.sessions),
  )

  -- The SELECT of `ValidateSession` (statement 0) and its tests of the row.
  unfoldable pub read_session : Call → Text → Db → Result SessionError Session
  read_session c raw_token db =
      if not db.connected
      then err nil_db
      else if not (answered (c.driver 0))
      then err driver
      else elim (find (λ s. has_hash (hash raw_token) s && is_live db s) db.sessions) [
        | none ↦ err not_found
        | some s ↦
            if is_some s.revoked_at
            then err revoked
            else if not (ltb c.now s.absolute_expires_at) || not (ltb c.now s.expires_at)
            then err expired
            else ok s
      ]

  abbrev set_seen : Call → ℕ → Session → Session
  set_seen c slide s = record s { last_seen_at = c.db_now; expires_at = slide }

  abbrev is_extendable : ℕ → Session → Bool
  is_extendable id s = s.id == id && not (is_some s.revoked_at)

  -- Its UPDATE (statement 1) from the row that was read, on the table as it is by then.
  unfoldable pub extend_session : Call → Session → Db → Result SessionError ℤ × Db
  extend_session c row db =
      let slide = cap_at (c.now + db.idle_ttl) row.absolute_expires_at in
      (
        if answered (c.driver 1) then ok row.user_id else err driver,
        exec (c.driver 1) db (update (is_extendable row.id) (set_seen c slide) db.sessions),
      )

  -- `ValidateSession`, and `RefreshSession`, where nothing comes between its two statements.
  unfoldable pub validate_session : Call → Text → Db → Result SessionError ℤ × Db
  unfolding read_session extend_session
  validate_session c raw_token db = elim (read_session c raw_token db) [
    | err e ↦ (err e, db)
    | ok row ↦ extend_session c row db
  ]

  abbrev pub is_active_of : ℤ → Session → Bool
  is_active_of user_id s = int_eq s.user_id user_id && not (is_some s.revoked_at)

  -- `RevokeAllSessionsForUser`, which returns the number of rows that it has changed.
  unfoldable pub revoke_all : Call → ℤ → Db → Result SessionError ℕ × Db
  revoke_all c user_id db = (
    if answered (c.driver 0) && answered (c.driver 1)
        then ok (matching (is_active_of user_id) db.sessions)
        else err driver,
    exec (c.driver 0) db (update (is_active_of user_id) (set_revoked c) db.sessions),
  )
