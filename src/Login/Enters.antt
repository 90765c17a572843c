-- ===== src/Login/Enters.antt =====
-- LoginUser with a database that answers.
use go_lab.Prelude.{
  ℕ, ◌+◌, ◌<◌, ◌≡◌, refl, ℤ, Text, text_eq_iff, is_empty, Bool, true, false, ◌&&◌, not, Option,
  some, List, [], ◌∷◌, arith, any, is_some, Bool-cases, inl, inr,
}
use go_lab.Strings.{trim_space}
use go_lab.Sql.{Call, Result, ok, err, steady, after}
use go_lab.Sql.Rows.{find, insert, no_match}
use go_lab.Sql.Keys.{find-insert_absent}
use go_lab.Http.{success}
use go_lab.Throttle.{login_email_locked}
use go_lab.Accounts.{AccountError, user_auth_by_email, touch_login}
use go_lab.Password.{verify_password}
use go_lab.Session.{
  Session, has_hash, is_live, is_live_user, new_session, create_session, read_session,
  extend_session, validate_session,
}
use go_lab.Exchange.Tokens.{new_opaque_token}
use go_lab.Login.{World, Config, session_db, Request, set_session, set_csrf, Meta, normalize_email}
use go_lab.Login.SignIn.{
  Answer, LoggedIn, is_ok_true, open_session, check_password, sign_in, login_user,
}
use go_lab.Login.Verified.{cleared, is_success}

module _ (hash : Text → Text) where
  -- A new session validates until one of its expiries.
  pub new_session-validates :
      (c : Call) (now db_now : ℕ) (uid : ℤ) (raw ip ua : Text) (db db' : go_lab.Session.Db)
      → db'.connected ≡ true
      → any (has_hash (hash raw)) db.sessions ≡ false
      → db'.sessions ≡ insert (new_session hash c uid raw ip ua db) db.sessions
      → is_live db' (new_session hash c uid raw ip ua db) ≡ true
      → now < c.now + db.idle_ttl
      → now < c.now + db.abs_ttl
      → (validate_session hash (steady now db_now) raw db').0 ≡ ok uid
  unfolding validate_session read_session extend_session
  new_session-validates c now db_now uid raw ip ua db db' up absent put live idle total =
      let new = new_session hash c uid raw ip ua db in
      let eq = (text_eq_iff (hash raw) (hash raw)).1 refl in
      let q = λ (s : Session). has_hash (hash raw) s && is_live db' s in
      let found : find q db'.sessions ≡ some new = rw put (
        find-insert_absent q new db.sessions
          (no_match (has_hash (hash raw)) q db.sessions (λ x h. ground (arith, h)) absent)
          (ground (arith, eq, live))) in
      ground (arith, up, found, idle, total)

module _ (collates : Text → Text → Bool) (hash : Text → Text)
    (id_key : Text → Text → ℕ → ℕ → ℕ → ℕ → Text) (parse_address : Text → Option (Text × Text))
    (marshal : Meta → Text) where
  -- The e-mail is not locked, and its active account has a hash that verifies the password.
  abbrev pub may_enter : ℕ → Text → Text → Result AccountError (ℤ × Text) → World → Bool
  may_enter now email password (err e) w = false
  may_enter now email password (ok (uid, stored)) w =
      not (is_some (login_email_locked now email w.throttle))
      && (not (is_empty (trim_space stored)) && is_ok_true (verify_password id_key password stored))

  module _ (cfg : Config) (now db_now : ℕ) (bytes csrf : List ℕ) (r : Request) where
    pub open_session-opens :
        (email : Text) (uid : ℤ) (w : World)
        → w.accounts.connected ≡ true
        → any (has_hash (hash (new_opaque_token bytes))) w.sessions ≡ false
        → ((open_session collates hash id_key parse_address marshal cfg
              (steady now db_now)
              (some bytes)
              (some csrf)
              r
              email
              uid
              w).0
            ≡ success 200 (record { user_id = uid; email = email }))
          × ((open_session collates hash id_key parse_address marshal cfg
                (steady now db_now)
                (some bytes)
                (some csrf)
                r
                email
                uid
                w).1
              ≡ set_session (new_opaque_token bytes) ∷ set_csrf (new_opaque_token csrf) ∷ [])
          × ((open_session collates hash id_key parse_address marshal cfg
                (steady now db_now)
                (some bytes)
                (some csrf)
                r
                email
                uid
                w).2.sessions
              ≡ insert
                  (new_session hash
                    (after 2 (steady now db_now))
                    uid
                    (new_opaque_token bytes)
                    (trim_space r.client_ip)
                    r.user_agent
                    (session_db cfg w))
                  w.sessions)
          × ((open_session collates hash id_key parse_address marshal cfg
                (steady now db_now)
                (some bytes)
                (some csrf)
                r
                email
                uid
                w).2.accounts
              ≡ w.accounts)
    unfolding open_session create_session
    open_session-opens email uid w up absent = (
      ground (arith, up, absent),
      ground (arith, up, absent),
      ground (arith, up, absent),
      ground (arith, up, absent),
    )

    pub login_user-enters :
        (typed email password stored : Text) (uid : ℤ) (w : World)
        → normalize_email parse_address typed ≡ some email
        → user_auth_by_email collates (steady now db_now) email w.accounts ≡ ok (uid, stored)
        → may_enter now email password (ok (uid, stored)) w ≡ true
        → login_user collates hash id_key parse_address marshal true cfg
            (steady now db_now)
            (some bytes)
            (some csrf)
            r
            (some (typed, password))
            w
          ≡ open_session collates hash id_key parse_address marshal cfg
              (steady now db_now)
              (some bytes)
              (some csrf)
              r
              email
              uid
              (cleared collates hash id_key parse_address marshal (steady now db_now) email w)
    unfolding login_user sign_in check_password
    login_user-enters typed email password stored uid w normal account allowed =
        ground (arith, normal, account, allowed)

    -- With a connected database that answers, random bytes and a token whose hash no session has, a
    -- login with an e-mail that normalises succeeds exactly if that e-mail is not locked and its active
    -- account has a hash, not blank, that verifies the password.
    pub login_user-success_iff :
        (typed email password : Text) (w : World)
        → normalize_email parse_address typed ≡ some email
        → w.accounts.connected ≡ true
        → any (has_hash (hash (new_opaque_token bytes))) w.sessions ≡ false
        → is_success
            (login_user collates hash id_key parse_address marshal true cfg
              (steady now db_now)
              (some bytes)
              (some csrf)
              r
              (some (typed, password))
              w).0
          ≡ may_enter now email password
              (user_auth_by_email collates (steady now db_now) email w.accounts)
              w
    unfolding touch_login login_user sign_in check_password
    login_user-success_iff typed email password w normal up absent =
        go (user_auth_by_email collates (steady now db_now) email w.accounts) refl
      where
        answer : Answer LoggedIn
        answer =
            login_user collates hash id_key parse_address marshal true cfg (steady now db_now)
              (some bytes) (some csrf) r (some (typed, password)) w

        go :
            (found : Result AccountError (ℤ × Text))
            → user_auth_by_email collates (steady now db_now) email w.accounts ≡ found
            → is_success answer.0 ≡ may_enter now email password found w
        go (err x) e = ground (arith, normal, e)
        go (ok (uid, stored)) e =
            elim (Bool-cases (may_enter now email password (ok (uid, stored)) w)) [
              | inl allowed ↦
                  let opened =
                    login_user-enters typed email password stored uid w normal e allowed in
                  let w' =
                    cleared collates hash id_key parse_address marshal (steady now db_now) email
                      w in
                  let (reply, _, _, _) =
                    open_session-opens email uid w' (ground (arith, up)) absent in
                  let good : answer.0 ≡ success 200 (record { user_id = uid; email = email }) =
                    rw opened reply in
                  ground (arith, good, allowed)
              | inr barred ↦ ground (arith, barred, normal, e)
            ]
