-- ===== src/Middleware/Auth.antt =====
-- api/middleware/auth.go: who a request comes from, by a bearer token or by a session cookie.
use go_lab.Prelude.{
  ℕ, ◌≡◌, refl, ◌↔◌, ℤ, Text, codes, is_empty, Bool, true, false, ◌||◌, not, Option, none, some,
  ◌++◌, drop, take, ltb, length, arith, if◌then◌else◌,
}
use go_lab.Strings.{trim_space, equal_fold}
use go_lab.Strconv.{itoa}
use go_lab.Sql.{Call, Result, ok, err}
use go_lab.Http.{unauthorized, internal, Gate, next, abort, user_prefix}
use go_lab.Session.{SessionError, Db, validate_session}
use go_lab.Token.{Claims, TokenService, parse_access_token}

-- What of a request is read: the header Authorization, empty if it is absent, and the session
-- cookie, if there is one of that name.
pub record Request : Type 0 where
  pub authorization : Text
  pub session_cookie : Option Text

abbrev bearer_prefix : Text
bearer_prefix = codes "Bearer "

abbrev is_bearer : Text → Bool
is_bearer raw = not (ltb (length raw) 7 || not (equal_fold (take 7 raw) bearer_prefix))

abbrev accept_subject : Claims → Gate Text
accept_subject claims =
    let sub = trim_space claims.subject in if is_empty sub then abort 401 unauthorized else next sub

module _ (verify : ℕ → Text → Text → Text → Text → Option Claims) where
  -- `BearerAuth`, which sets the subject; `none` is a token service that is nil.
  unfoldable pub bearer_auth : Option TokenService → ℕ → Text → Gate Text
  bearer_auth none now raw = abort 500 internal
  bearer_auth (some ts) now raw =
      let token = trim_space (drop 7 raw) in
      if is_empty raw
      then abort 401 unauthorized
      else if not (is_bearer raw)
      then abort 401 unauthorized
      else if is_empty token
      then abort 401 unauthorized
      else elim (parse_access_token verify ts now token) [
        | none ↦ abort 401 unauthorized
        | some claims ↦ accept_subject claims
      ]

  abbrev from_oidc : Option (Text → Option Text) → Text → Gate Text
  from_oidc none token = abort 401 unauthorized
  from_oidc (some resolve) token = elim (resolve token) [
    | none ↦ abort 401 unauthorized
    | some subj ↦ next subj
  ]

  -- The part of BearerOrSession for a header that is there.
  unfoldable pub bearer : TokenService → Option (Text → Option Text) → ℕ → Text → Gate Text
  bearer ts oidc now raw =
      let token = trim_space (drop 7 raw) in
      if not (is_bearer raw)
      then abort 401 unauthorized
      else if is_empty token
      then abort 401 unauthorized
      else elim (parse_access_token verify ts now token) [
        | some claims ↦ accept_subject claims
        | none ↦ from_oidc oidc token
      ]

  module _ (hash : Text → Text) where
    abbrev accept_session : Result SessionError ℤ × Db → Gate Text × Option Db
    accept_session (err e, db) = (abort 401 unauthorized, some db)
    accept_session (ok uid, db) = (next (user_prefix ++ itoa uid), some db)

    abbrev from_cookie : Call → Option Text → Db → Gate Text × Option Db
    from_cookie c none db = (abort 401 unauthorized, some db)
    from_cookie c (some raw_cookie) db =
        if is_empty (trim_space raw_cookie)
        then (abort 401 unauthorized, some db)
        else accept_session (validate_session hash c raw_cookie db)

    -- The part for the cookie; the store may be nil.
    abbrev session : Call → Text → Option Text → Option Db → Gate Text × Option Db
    session c cookie_name cookie none = (abort 401 unauthorized, none)
    session c cookie_name cookie (some db) =
        if is_empty (trim_space cookie_name)
        then (abort 401 unauthorized, some db)
        else from_cookie c cookie db

    -- `BearerOrSession`; `TryResolveAuthSubject` of the OIDC service is an argument.
    unfoldable pub bearer_or_session :
        Option TokenService
        → Option (Text → Option Text)
        → Text
        → Call
        → Request
        → Option Db
        → Gate Text × Option Db
    bearer_or_session none oidc cookie_name c request store = (abort 500 internal, store)
    bearer_or_session (some ts) oidc cookie_name c request store =
        let raw = trim_space request.authorization in
        if not (is_empty raw)
        then (bearer ts oidc c.now raw, store)
        else session c cookie_name request.session_cookie store

    -- With a header that is not blank, the session cookie and the session table play no part: the
    -- answer is the same for any other cookie and table, and the table stays as it is.
    pub header_excludes_cookie :
        (ts : Option TokenService) (oidc : Option (Text → Option Text)) (cookie_name : Text)
        (c : Call) (request : Request) (cookie : Option Text) (store store' : Option Db)
        → is_empty (trim_space request.authorization) ≡ false
        → ((bearer_or_session ts oidc cookie_name c request store).0
            ≡ (bearer_or_session ts oidc cookie_name c
                (record request { session_cookie = cookie })
                store').0)
          × ((bearer_or_session ts oidc cookie_name c request store).1 ≡ store)
    unfolding bearer_or_session
    header_excludes_cookie none oidc cookie_name c request cookie store store' h = (refl, refl)
    header_excludes_cookie (some ts) oidc cookie_name c request cookie store store' h =
        (ground (arith, h), ground (arith, h))

    -- Without an OIDC service, on a header without white space around it that is not empty,
    -- BearerOrSession answers as BearerAuth does.
    pub bearer_or_session-bearer_auth :
        (ts : Option TokenService) (cookie_name : Text) (c : Call) (request : Request)
        (store : Option Db)
        → trim_space request.authorization ≡ request.authorization
        → is_empty request.authorization ≡ false
        → (bearer_or_session ts none cookie_name c request store).0
          ≡ bearer_auth ts c.now request.authorization
    unfolding bearer_or_session bearer_auth bearer
    bearer_or_session-bearer_auth none cookie_name c request store t h = refl
    bearer_or_session-bearer_auth (some ts) cookie_name c request store t h =
        rw (t, h) (ground (arith, h))

    -- With a token service, a store, a name for the cookie, no header, and a cookie that is not
    -- blank, a request passes exactly if the validation of the session accepts the cookie, and its
    -- subject is then the user of the session.
    pub session_subject :
        (ts : TokenService) (oidc : Option (Text → Option Text)) (cookie_name : Text) (c : Call)
        (request : Request) (cookie : Text) (db : Db) (subject : Text)
        → is_empty (trim_space request.authorization) ≡ true
        → is_empty (trim_space cookie_name) ≡ false
        → request.session_cookie ≡ some cookie
        → is_empty (trim_space cookie) ≡ false
        → ((bearer_or_session (some ts) oidc cookie_name c request (some db)).0 ≡ next subject) ↔ (
            (uid : ℤ) × ((validate_session hash c cookie db).0 ≡ ok uid)
            × (subject ≡ user_prefix ++ itoa uid))
    unfolding bearer_or_session
    session_subject ts oidc cookie_name c request cookie db subject a b k n =
        go (validate_session hash c cookie db) refl
      where
        go :
            (answer : Result SessionError ℤ × Db)
            → validate_session hash c cookie db ≡ answer
            → ((bearer_or_session (some ts) oidc cookie_name c request (some db)).0 ≡ next subject)
              ↔ ((uid : ℤ) × (answer.0 ≡ ok uid) × (subject ≡ user_prefix ++ itoa uid))
        go (err x, db') e =
            (λ h. absurd (ground (arith, h)), λ (uid, v, s). absurd (ground (arith, v)))
        go (ok id, db') e = (
          λ h. (id, refl, ground (arith, h)),
          λ (uid, v, s).
              let same : id ≡ uid = ground (arith, v) in
              let text : subject ≡ user_prefix ++ itoa id = rw same s in ground (arith, text),
        )
