-- ===== src/Login/Verified.antt =====
-- LoginUser with any answers of the driver.
use go_lab.Prelude.{
  ℕ, ◌≡◌, refl, ℤ, Text, Bool, true, false, Option, none, some, List, [], ◌∷◌, arith,
}
use go_lab.Strings.{trim_space}
use go_lab.Sql.{Call, Result, ok, err, after}
use go_lab.Sql.Rows.{find}
use go_lab.Http.{Reply, success, error}
use go_lab.Throttle.{login_email_locked, clear_throttle}
use go_lab.Accounts.{AccountError, user_auth_by_email, touch_login}
use go_lab.Session.{has_hash, new_session, create_session}
use go_lab.Session.Lifetime.{create_found}
use go_lab.Exchange.Tokens.{new_opaque_token}
use go_lab.Password.{verify_password}
use go_lab.Login.{
  World, Config, session_db, Request, SetCookie, set_session, set_csrf, Meta, normalize_email,
}
use go_lab.Login.SignIn.{LoggedIn, Answer, open_session, check_password, sign_in, login_user}

abbrev pub is_success : {A : Type 0} → Reply A → Bool
is_success (success n x) = true
is_success (error n code) = false

module _ (collates : Text → Text → Bool) (hash : Text → Text)
    (id_key : Text → Text → ℕ → ℕ → ℕ → ℕ → Text) (parse_address : Text → Option (Text × Text))
    (marshal : Meta → Text) where
  -- The state that a new session is opened in: the throttle cleared, the login time stored.
  abbrev pub cleared : Call → Text → World → World
  cleared c email w = record w {
    throttle = clear_throttle email w.throttle;
    accounts = (touch_login collates (after 1 c) email w.accounts).1;
  }

  -- What a login that succeeds has checked, and what it gives.
  pub record Verified (cfg : Config) (c : Call) (random random_csrf : Option (List ℕ)) (r : Request)
      (body : Option (Text × Text)) (w : World) (reply : LoggedIn) (cookies : List SetCookie)
      (w' : World) : Type 0 where
    pub typed : Text
    pub password : Text
    pub stored : Text
    pub bytes : List ℕ
    pub csrf : List ℕ
    pub bound : body ≡ some (typed, password)
    pub normal : normalize_email parse_address typed ≡ some reply.email
    pub unlocked : login_email_locked c.now reply.email w.throttle ≡ none
    pub account : user_auth_by_email collates c reply.email w.accounts ≡ ok (reply.user_id, stored)
    pub right : verify_password id_key password stored ≡ ok true
    pub drawn : random ≡ some bytes
    pub sent :
        cookies ≡ set_session (new_opaque_token bytes) ∷ set_csrf (new_opaque_token csrf) ∷ []
    pub opened :
        find (has_hash (hash (new_opaque_token bytes))) w'.sessions
        ≡ some (
            new_session hash
              (after 2 c)
              reply.user_id
              (new_opaque_token bytes)
              (trim_space r.client_ip)
              r.user_agent
              (session_db cfg (cleared c reply.email w)))

  module _ (cfg : Config) (c : Call) (random random_csrf : Option (List ℕ)) (r : Request) where
    open_session-success :
        (email : Text) (uid : ℤ) (w : World) (n : ℕ) (x : LoggedIn)
        → (open_session collates hash id_key parse_address marshal cfg c random random_csrf r email
            uid w).0
          ≡ success n x
        → (bytes : List ℕ) × (csrf : List ℕ) × (random ≡ some bytes)
          × (random_csrf ≡ some csrf)
          × (x ≡ record { user_id = uid; email = email })
          × ((open_session collates hash id_key parse_address marshal cfg c random random_csrf r
                email uid w).1
              ≡ set_session (new_opaque_token bytes) ∷ set_csrf (new_opaque_token csrf) ∷ [])
          × (find
                (has_hash (hash (new_opaque_token bytes)))
                (open_session collates hash id_key parse_address marshal cfg c random random_csrf r
                  email uid w).2.sessions
              ≡ some (
                  new_session hash
                    (after 2 c)
                    uid
                    (new_opaque_token bytes)
                    (trim_space r.client_ip)
                    r.user_agent
                    (session_db cfg w)))
    unfolding open_session
    open_session-success email uid w n x h = go random random_csrf refl refl h
      where
        opening : Option (List ℕ) → Option (List ℕ) → Answer LoggedIn
        opening o o' =
            open_session collates hash id_key parse_address marshal cfg c o o' r email uid w

        go :
            (o o' : Option (List ℕ))
            → random ≡ o
            → random_csrf ≡ o'
            → (opening o o').0 ≡ success n x
            → (bytes : List ℕ) × (csrf : List ℕ) × (o ≡ some bytes)
              × (o' ≡ some csrf)
              × (x ≡ record { user_id = uid; email = email })
              × ((opening o o').1
                  ≡ set_session (new_opaque_token bytes) ∷ set_csrf (new_opaque_token csrf) ∷ [])
              × (find (has_hash (hash (new_opaque_token bytes))) (opening o o').2.sessions
                  ≡ some (
                      new_session hash
                        (after 2 c)
                        uid
                        (new_opaque_token bytes)
                        (trim_space r.client_ip)
                        r.user_agent
                        (session_db cfg w)))
        go none o' e e' done = absurd (ground arith)
        go (some bytes) none e e' done = absurd (ground arith)
        go (some bytes) (some csrf) e e' done =
            let raw = new_opaque_token bytes in
            let ip = trim_space r.client_ip in
            let found = create_found hash (after 2 c) uid raw ip r.user_agent (session_db cfg w) in
            let made : (create_session hash (after 2 c) uid raw ip r.user_agent
                  (session_db cfg w)).0
                ≡ ok tt =
              ground (arith, done) in
            let here = found made in
            (
              bytes,
              csrf,
              refl,
              refl,
              ground (arith, done),
              ground (arith, done),
              ground (arith, done, made, here),
            )

    check_password-success :
        (email password stored : Text) (uid : ℤ) (w : World) (n : ℕ) (x : LoggedIn)
        → (check_password collates hash id_key parse_address marshal cfg c random random_csrf r
            email password
            (uid, stored)
            w).0
          ≡ success n x
        → (verify_password id_key password stored ≡ ok true)
          × (check_password collates hash id_key parse_address marshal cfg c random random_csrf r
                email password
                (uid, stored)
                w
              ≡ open_session collates hash id_key parse_address marshal cfg c random random_csrf r
                  email uid
                  (cleared c email w))
    unfolding check_password
    check_password-success email password stored uid w n x h =
        (ground (arith, h), ground (arith, h))

    sign_in-success :
        (email password : Text) (w : World) (n : ℕ) (x : LoggedIn)
        → (sign_in collates hash id_key parse_address marshal cfg c random random_csrf r email
            password w).0
          ≡ success n x
        → (uid : ℤ) × (stored : Text) × (login_email_locked c.now email w.throttle ≡ none)
          × (user_auth_by_email collates c email w.accounts ≡ ok (uid, stored))
          × (sign_in collates hash id_key parse_address marshal cfg c random random_csrf r email
                password w
              ≡ check_password collates hash id_key parse_address marshal cfg c random random_csrf r
                  email password
                  (uid, stored)
                  w)
    unfolding sign_in
    sign_in-success email password w n x h =
        go (user_auth_by_email collates c email w.accounts) refl
      where
        go :
            (found : Result AccountError (ℤ × Text))
            → user_auth_by_email collates c email w.accounts ≡ found
            → (uid : ℤ) × (stored : Text) × (login_email_locked c.now email w.throttle ≡ none)
              × (user_auth_by_email collates c email w.accounts ≡ ok (uid, stored))
              × (sign_in collates hash id_key parse_address marshal cfg c random random_csrf r email
                    password w
                  ≡ check_password collates hash id_key parse_address marshal cfg c random
                      random_csrf r email password
                      (uid, stored)
                      w)
        go (err e) f = absurd (ground (arith, f, h))
        go (ok (uid, stored)) f = (uid, stored, ground (arith, f, h), f, ground (arith, f, h))

    -- A login that succeeds, however the driver answers, was with an e-mail that is not locked, of an
    -- account that is active, for the password that its hash verifies; it answers with the account's
    -- user and the normalised e-mail, sends the session token and a CSRF token as cookies, and leaves
    -- a new session of that user under the hash of the token.
    pub login-Verified :
        (body : Option (Text × Text)) (w : World) (n : ℕ) (x : LoggedIn)
        → (login_user collates hash id_key parse_address marshal true cfg c random random_csrf r
            body w).0
          ≡ success n x
        → Verified cfg c random random_csrf r body w x
            (login_user collates hash id_key parse_address marshal true cfg c random random_csrf r
              body w).1
            (login_user collates hash id_key parse_address marshal true cfg c random random_csrf r
              body w).2
    unfolding login_user
    login-Verified none w n x h = absurd (ground (arith, h))
    login-Verified (some (typed, password)) w n x h = go (normalize_email parse_address typed) refl
      where
        answer : Answer LoggedIn
        answer =
            login_user collates hash id_key parse_address marshal true cfg c random random_csrf r
              (some (typed, password)) w

        go :
            (o : Option Text)
            → normalize_email parse_address typed ≡ o
            → Verified cfg c random random_csrf r (some (typed, password)) w x answer.1 answer.2
        go none e = absurd (ground (arith, e, h))
        go (some email) e =
            let signed : answer
                ≡ sign_in collates hash id_key parse_address marshal cfg c random random_csrf r
                    email password w =
              ground (arith, e) in
            let (uid, stored, unlocked, account, checked) =
              sign_in-success email password w n x (rw signed at h) in
            let (right, opened) =
              check_password-success email password stored uid w n x (rw (signed, checked) at h) in
            let (bytes, csrf, drawn, _, reply, cookies, session) =
              open_session-success email uid (cleared c email w) n x
                (rw (signed, checked, opened) at h) in
            rw (reply, signed, checked, opened)
              (record {
                typed = typed;
                password = password;
                stored = stored;
                bytes = bytes;
                csrf = csrf;
                bound = refl;
                normal = e;
                unlocked = unlocked;
                account = account;
                right = right;
                drawn = drawn;
                sent = cookies;
                opened = session;
              })
