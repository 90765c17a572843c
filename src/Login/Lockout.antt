-- ===== src/Login/Lockout.antt =====
-- LoginUser and the throttle: wrong passwords one after the other.
use go_lab.Prelude.{
  ℕ, ◌+◌, ◌<◌, ◌≤◌, ◌≡◌, refl, ◌∙◌, Text, text_eq_iff, is_empty, Bool, true, false, Option, none,
  some, List, [], ◌∷◌, arith, All, length,
}
use go_lab.Strings.{trim_space}
use go_lab.Sql.{Call, answered}
use go_lab.Sql.Rows.{find}
use go_lab.Http.{rate_limited, error}
use go_lab.Throttle.{login_email_locked, record_login_failure, lockout_duration}
use go_lab.Throttle.Lockout.{counted, record_login_failure-own}
use go_lab.Accounts.{Account, is_login_of, user_auth_by_email}
use go_lab.Password.{verify_password}
use go_lab.Login.{World, Config, Request, Meta, normalize_email}
use go_lab.Login.SignIn.{is_ok_true, check_password, sign_in, login_user}

pub record Attempt : Type 0 where
  pub call : Call
  pub request : Request
  pub random : Option (List ℕ)
  pub random_csrf : Option (List ℕ)
  pub typed : Text
  pub password : Text

module _ (collates : Text → Text → Bool) (hash : Text → Text)
    (id_key : Text → Text → ℕ → ℕ → ℕ → ℕ → Text) (parse_address : Text → Option (Text × Text))
    (marshal : Meta → Text) (cfg : Config) where
  -- The state after one login, and after several.
  unfoldable pub attempt : Attempt → World → World
  attempt t w =
      (login_user collates hash id_key parse_address marshal true cfg t.call t.random t.random_csrf
        t.request (some (t.typed, t.password)) w).2

  unfoldable pub attempts : List Attempt → World → World
  attempts [] w = w
  attempts (t ∷ ts) w = attempts ts (attempt t w)

  -- A login for the e-mail with a password that the account's hash does not verify, where the
  -- database answers the look-up.
  pub record IsWrong (email : Text) (a : Account) (t : Attempt) : Type 0 where
    pub normal : normalize_email parse_address t.typed ≡ some email
    pub wrong : is_ok_true (verify_password id_key t.password a.password_hash) ≡ false
    pub answers : answered (t.call.driver 0) ≡ true

  module _ (email : Text) (a : Account) where
    attempt-IsWrong :
        (t : Attempt) (w : World) (m : ℕ)
        → IsWrong email a t
        → find (is_login_of collates w.accounts email) w.accounts.accounts ≡ some a
        → is_empty (trim_space a.password_hash) ≡ false
        → w.throttle email ≡ counted m
        → m < 5
        → ((attempt t w).accounts ≡ w.accounts)
          × ((attempt t w).throttle ≡ record_login_failure t.call.now email w.throttle)
    unfolding attempt login_user sign_in check_password user_auth_by_email login_email_locked
        counted
    attempt-IsWrong t w m h found full at few =
        let normal = h.normal in
        let wrong = h.wrong in
        let answers = h.answers in
        (
          ground (arith, normal, wrong, answers, found, full, at),
          ground (arith, normal, wrong, answers, found, full, at),
        )

    attempts-counted :
        (ts : List Attempt) (w : World) (m : ℕ)
        → All (IsWrong email a) ts
        → find (is_login_of collates w.accounts email) w.accounts.accounts ≡ some a
        → is_empty (trim_space a.password_hash) ≡ false
        → w.throttle email ≡ counted m
        → m + length ts ≤ 4
        → ((attempts ts w).accounts ≡ w.accounts)
          × ((attempts ts w).throttle email ≡ counted (m + length ts))
    unfolding attempts
    attempts-counted [] w m h found full at few = (refl, ground (arith, at))
    attempts-counted (t ∷ ts) w m (h, rest) found full at few =
        let small : m < 4 = omega (arith, few) in
        let (same, failed) = attempt-IsWrong t w m h found full at (omega (arith, small)) in
        let eq = (text_eq_iff email email).1 refl in
        let one = record_login_failure-own t.call.now m email email w.throttle eq at small in
        let next : (attempt t w).throttle email ≡ counted (m + 1) = rw failed one in
        let (same', counts) =
          attempts-counted ts (attempt t w) (m + 1) rest (rw same found) full next
            (omega (arith, few)) in
        let sum : m + length (t ∷ ts) ≡ (m + 1) + length ts = omega arith in
        (same' ∙ same, rw sum counts)

    -- After four logins with a wrong password for the e-mail of an account with a hash that is not
    -- blank, which the throttle did not know, and where the database answers the look-ups, a fifth one
    -- makes every login for that e-mail, whatever its password, be refused with status 429 and no
    -- change, until the lockout duration has passed since the fifth.
    pub wrong_passwords_lock :
        (ts : List Attempt) (last t : Attempt) (w : World)
        → All (IsWrong email a) ts
        → IsWrong email a last
        → length ts ≡ 4
        → find (is_login_of collates w.accounts email) w.accounts.accounts ≡ some a
        → is_empty (trim_space a.password_hash) ≡ false
        → w.throttle email ≡ none
        → normalize_email parse_address t.typed ≡ some email
        → t.call.now < last.call.now + lockout_duration
        → login_user collates hash id_key parse_address marshal true cfg t.call t.random
            t.random_csrf t.request
            (some (t.typed, t.password))
            (attempt last (attempts ts w))
          ≡ (error 429 rate_limited, [], attempt last (attempts ts w))
    unfolding login_user sign_in login_email_locked counted record_login_failure
    wrong_passwords_lock ts last t w h h' four found full unknown normal soon =
        let (same, counts) = attempts-counted ts w 0 h found full unknown (omega (arith, four)) in
        let w4 = attempts ts w in
        let at : w4.throttle email ≡ counted 4 = ground (arith, counts, four) in
        let (_, failed) = attempt-IsWrong last w4 4 h' (rw same found) full at (omega arith) in
        let eq = (text_eq_iff email email).1 refl in
        let lock : (attempt last w4).throttle email
            ≡ some (record { failures = 0; locked_until = last.call.now + lockout_duration }) =
          ground (arith, failed, at, eq) in
        ground (arith, normal, lock, soon)
