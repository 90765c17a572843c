-- ===== src/Session/Lifetime.antt =====
-- Sessions of api/authstore/store.go over sequences of calls: revocation and the absolute expiry.
use go_lab.Prelude.{
  ◌+◌, ◌≤◌, ◌<◌, ◌≡◌, refl, ◌≢◌, ◌⊎◌, inl, inr, ℤ, Text, text_eq_iff, Bool, true, false, ◌&&◌, none,
  some, List, [], ◌∷◌, arith, is_some, Bool-cases, All, any, if◌then◌else◌,
}
use go_lab.Sql.{Call, Outcome, Result, ok, err}
use go_lab.Sql.Rows.{find, find-holds, update}
use go_lab.Sql.Keys.{
  Unique, Unique-update, Unique-insert_new, find-update_by, find-insert_absent, revise,
}
use go_lab.Session.{
  SessionError, Session, Db, has_hash, exec, insert_session, new_session, create_session,
  set_revoked, is_revocable, revoke_session, read_session, set_seen, extend_session,
  validate_session, revoke_all, is_live,
}
use go_lab.Session.Effects.{
  Step, create_for, revoke_by, revoke_all_of, validate_by, extend_from, users_become, apply, run,
  run-Holds,
}

-- The unique key of the table: no two sessions have the same token hash.
abbrev pub HashUnique : Db → Type 0
HashUnique db = Unique (λ (s : Session). s.token_hash) db.sessions

exec-HashUnique :
    (o : Outcome) (db : Db) (p : Session → Bool) (f : Session → Session)
    → ((x : Session) → (f x).token_hash ≡ x.token_hash)
    → HashUnique db
    → HashUnique (exec o db (update p f db.sessions))
exec-HashUnique Outcome.failed db p f same u = u
exec-HashUnique Outcome.done db p f same u =
    Unique-update (λ s. s.token_hash) p f db.sessions same u
exec-HashUnique Outcome.lost db p f same u =
    Unique-update (λ s. s.token_hash) p f db.sessions same u

no_hash :
    (h : Text) (xs : List Session) → any (has_hash h) xs ≡ false → All (λ s. s.token_hash ≢ h) xs
no_hash h [] e = tt
no_hash h (x ∷ xs) e =
    (λ same. absurd (ground (arith, text_eq_iff x.token_hash h)), no_hash h xs (ground arith))

insert_session-HashUnique :
    (o : Outcome) (new : Session) (db : Db)
    → any (has_hash new.token_hash) db.sessions ≡ false
    → HashUnique db
    → HashUnique (insert_session o new db)
insert_session-HashUnique Outcome.failed new db e u = u
insert_session-HashUnique Outcome.done new db e u =
    Unique-insert_new (λ s. s.token_hash) new db.sessions (no_hash new.token_hash db.sessions e) u
insert_session-HashUnique Outcome.lost new db e u =
    Unique-insert_new (λ s. s.token_hash) new db.sessions (no_hash new.token_hash db.sessions e) u

none_left :
    (h : Text) (live : Session → Bool) (ys : List Session)
    → All (λ y. y.token_hash ≢ h) ys
    → find (λ y. has_hash h y && live y) ys ≡ none
none_left h live [] other = refl
none_left h live (y ∷ ys) other =
    ground (arith, text_eq_iff y.token_hash h, other.0, none_left h live ys other.1)

-- With unique hashes, a search for a hash among the rows that also pass a test finds the row with
-- that hash, or nothing.
pub find-both :
    (h : Text) (live : Session → Bool) (xs : List Session) (s : Session)
    → Unique (λ (x : Session). x.token_hash) xs
    → find (has_hash h) xs ≡ some s
    → find (λ x. has_hash h x && live x) xs ≡ (if live s then some s else none)
find-both h live [] s u e = absurd (cc)
find-both h live (x ∷ xs) s u e = elim (Bool-cases (has_hash h x)) [
  | inl here ↦
      let q : x ≡ s = ground arith in
      let at : x.token_hash ≡ h = (text_eq_iff x.token_hash h).0 here in
      let rest = none_left h live xs (rw at at u.0) in rw (here, q) (ground arith)
  | inr there ↦ rw there (find-both h live xs s u.1 (ground arith))
]

module _ (hash : Text → Text) where
  -- Every call keeps the hashes unique.
  pub apply-HashUnique :
      (c : Call) (q : Step) (db : Db) → HashUnique db → HashUnique (apply hash c q db)
  unfolding apply create_session revoke_session revoke_all extend_session validate_session
  apply-HashUnique c (create_for uid raw_token ip ua) db u =
      elim (Bool-cases (any (has_hash (hash raw_token)) db.sessions)) [
        | inl there ↦
            let same : (create_session hash c uid raw_token ip ua db).1 ≡ db = ground arith in
            rw same u
        | inr absent ↦
            let new = new_session hash c uid raw_token ip ua db in
            let either : ((create_session hash c uid raw_token ip ua db).1 ≡ db)
                ⊎ ((create_session hash c uid raw_token ip ua db).1
                    ≡ insert_session (c.driver 0) new db) =
              ground arith in
            elim either [
              | inl same ↦ rw same u
              | inr did ↦ rw did (insert_session-HashUnique (c.driver 0) new db absent u)
            ]
      ]
  apply-HashUnique c (revoke_by raw_token) db u =
      let after =
        exec (c.driver 0) db
          (update (is_revocable hash (hash raw_token)) (set_revoked hash c) db.sessions) in
      let either : ((revoke_session hash c raw_token db).1 ≡ db)
          ⊎ ((revoke_session hash c raw_token db).1 ≡ after) =
        ground arith in
      elim either [
        | inl same ↦ rw same u
        | inr did ↦ rw did (exec-HashUnique (c.driver 0) db _ (set_revoked hash c) (λ x. refl) u)
      ]
  apply-HashUnique c (revoke_all_of uid) db u =
      exec-HashUnique (c.driver 0) db _ (set_revoked hash c) (λ x. refl) u
  apply-HashUnique c (validate_by raw_token) db u = go (read_session hash c raw_token db)
    where
      go :
          (r : Result SessionError Session)
          → HashUnique (
              (elim r as (λ _. Result SessionError ℤ × Db) [
                | err x ↦ (err x, db)
                | ok row ↦ extend_session hash c row db
              ]).1)
      go (err x) = u
      go (ok row) = exec-HashUnique (c.driver 1) db _ (set_seen hash c _) (λ x. refl) u
  apply-HashUnique c (extend_from row) db u =
      exec-HashUnique (c.driver 1) db _ (set_seen hash c _) (λ x. refl) u
  apply-HashUnique c (users_become users) db u = u

  pub run-HashUnique :
      (calls : List (Call × Step)) (db : Db) → HashUnique db → HashUnique (run hash calls db)
  unfolding run
  run-HashUnique [] db u = u
  run-HashUnique ((c, q) ∷ calls) db u =
      run-HashUnique calls (apply hash c q db) (apply-HashUnique c q db u)

  -- A validation that succeeds has found an unrevoked session that is within its absolute expiry.
  validate_needs :
      (c : Call) (raw_token : Text) (db : Db) (s : Session) (uid : ℤ)
      → HashUnique db
      → find (has_hash (hash raw_token)) db.sessions ≡ some s
      → (validate_session hash c raw_token db).0 ≡ ok uid
      → (s.revoked_at ≡ none) × (c.now < s.absolute_expires_at)
  unfolding validate_session read_session extend_session
  validate_needs c raw_token db s uid u e h =
      let both = find-both (hash raw_token) (is_live db) db.sessions s u e in ground arith

  revoke_found :
      (c : Call) (raw_token : Text) (db : Db) (s : Session)
      → find (has_hash (hash raw_token)) db.sessions ≡ some s
      → (revoke_session hash c raw_token db).0 ≡ ok tt
      → (s' : Session) × (find
            (has_hash (hash raw_token))
            (revoke_session hash c raw_token db).1.sessions
          ≡ some s')
        × (is_some s'.revoked_at ≡ true)
  unfolding revoke_session
  revoke_found c raw_token db s e out =
      let h = hash raw_token in
      let p = is_revocable hash h in
      let f = set_revoked hash c in
      let there = find-holds (has_hash h) db.sessions e in
      let after = find-update_by (has_hash h) p f db.sessions (λ x. refl) in
      (revise p f s, ground arith, ground arith)

  pub create_found :
      (c : Call) (user_id : ℤ) (raw_token ip ua : Text) (db : Db)
      → (create_session hash c user_id raw_token ip ua db).0 ≡ ok tt
      → find
          (has_hash (hash raw_token))
          (create_session hash c user_id raw_token ip ua db).1.sessions
        ≡ some (new_session hash c user_id raw_token ip ua db)
  unfolding create_session
  create_found c user_id raw_token ip ua db made =
      let new = new_session hash c user_id raw_token ip ua db in
      let h = hash raw_token in
      let self : has_hash h new ≡ true = (text_eq_iff h h).1 refl in
      let put = find-insert_absent (has_hash h) new db.sessions in ground (arith, self, put)

  -- If no two sessions share a hash, after a logout of a token whose session is found, and that
  -- the database has answered, no validation of the token that begins later succeeds, whatever
  -- calls come between, the UPDATEs of validations that had read a session before the logout
  -- included, and however users change.
  pub logout_ends :
      (c : Call) (raw_token : Text) (db : Db) (s : Session) (calls : List (Call × Step)) (c' : Call)
      (uid : ℤ)
      → HashUnique db
      → find (has_hash (hash raw_token)) db.sessions ≡ some s
      → (revoke_session hash c raw_token db).0 ≡ ok tt
      → (validate_session hash c' raw_token
          (run hash calls (revoke_session hash c raw_token db).1)).0
        ≢ ok uid
  unfolding apply
  logout_ends c raw_token db s calls c' uid u e out h =
      let db' = (revoke_session hash c raw_token db).1 in
      let (s', e', gone) = revoke_found c raw_token db s e out in
      let later = run-Holds hash calls db' (hash raw_token) s' e' in
      let u' = run-HashUnique calls db' (apply-HashUnique c (revoke_by raw_token) db u) in
      let (unrevoked, _) =
        validate_needs c' raw_token (run hash calls db') later.session uid u' later.found h in
      elim later.follows.stays_revoked [
        | inl never ↦ absurd (ground arith)
        | inr still ↦ absurd (ground arith)
      ]

  -- If no two sessions share a hash, a login that succeeds gives a session that no later call can
  -- keep alive beyond the absolute lifetime: from then on its token never validates.
  pub absolute_lifetime :
      (c : Call) (user_id : ℤ) (raw_token ip ua : Text) (db : Db) (calls : List (Call × Step))
      (c' : Call) (uid : ℤ)
      → HashUnique db
      → (create_session hash c user_id raw_token ip ua db).0 ≡ ok tt
      → c.now + db.abs_ttl ≤ c'.now
      → (validate_session hash c' raw_token
          (run hash calls (create_session hash c user_id raw_token ip ua db).1)).0
        ≢ ok uid
  unfolding apply
  absolute_lifetime c user_id raw_token ip ua db calls c' uid u made late h =
      let db' = (create_session hash c user_id raw_token ip ua db).1 in
      let new = new_session hash c user_id raw_token ip ua db in
      let later =
        run-Holds hash calls db' (hash raw_token) new
          (create_found c user_id raw_token ip ua db made) in
      let u' =
        run-HashUnique calls db' (apply-HashUnique c (create_for user_id raw_token ip ua) db u) in
      let (_, within) =
        validate_needs c' raw_token (run hash calls db') later.session uid u' later.found h in
      absurd (omega (arith, later.follows.same_absolute))
