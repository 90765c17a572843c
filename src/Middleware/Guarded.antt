-- ===== src/Middleware/Guarded.antt =====
-- BearerOrSession of auth.go and then RequirePlatformPermission of rbac.go.
use go_lab.Prelude.{
  ℕ, ◌<◌, ◌≡◌, ◌∙◌, sym, ap, ◌↔◌, ℤ, pos, Text, is_empty, Bool, true, false, Option, none, some,
  ◌++◌,
}
use go_lab.Strings.{trim_space}
use go_lab.Strconv.{itoa, int_limit}
use go_lab.Sql.{Call, answered, ok, steady}
use go_lab.Sql.Rows.{find}
use go_lab.Http.{next, passes, user_prefix}
use go_lab.Http.Subject.{user_subject, auth_user_id-user_subject}
use go_lab.Token.{Claims, TokenService}
use go_lab.Session.{Session, Db, has_hash, is_live, validate_session}
use go_lab.Session.Lifetime.{HashUnique}
use go_lab.Session.Answers.{validate-ok_iff, validate_extends}
use go_lab.Rbac.Roles.{RoleDb}
use go_lab.Rbac.Gate.{require_permission, is_allowed, require_permission-passes}
use go_lab.Middleware.Auth.{Request, bearer_or_session, session_subject}

allowed_subject :
    (c : Call) (roles : RoleDb) (permission : Text) (n : ℕ)
    → roles.connected ≡ true
    → roles.has_operator_tables ≡ true
    → answered (c.driver 0) ≡ true
    → 0 < n
    → n < int_limit
    → passes (require_permission c (some roles) permission (user_prefix ++ itoa (pos n)))
      ≡ is_allowed roles permission (some (pos n))
unfolding user_subject
allowed_subject c roles permission n up tables answers above below =
    require_permission-passes c roles permission (user_prefix ++ itoa (pos n)) up tables answers
    ∙ ap (is_allowed roles permission) (auth_user_id-user_subject n above below)

module _ (verify : ℕ → Text → Text → Text → Text → Option Claims) (hash : Text → Text) where
  -- With databases that are connected and answer, no two sessions with one hash, a token service, a
  -- name for the cookie, no header, and a cookie that is not blank and whose session is found: a
  -- request passes the authentication and then the check of a permission exactly if the session's
  -- user is not deleted there, the session is neither revoked nor at one of its expiries, and that
  -- user is one whom the role tables allow the permission. User ids are those that int64 holds.
  pub session_permission-passes :
      (ts : TokenService) (oidc : Option (Text → Option Text)) (cookie_name : Text) (now db_now : ℕ)
      (request : Request) (cookie : Text) (db : Db) (s : Session) (n : ℕ) (c : Call)
      (roles : RoleDb) (permission : Text)
      → is_empty (trim_space request.authorization) ≡ true
      → is_empty (trim_space cookie_name) ≡ false
      → request.session_cookie ≡ some cookie
      → is_empty (trim_space cookie) ≡ false
      → db.connected ≡ true
      → HashUnique db
      → find (has_hash (hash cookie)) db.sessions ≡ some s
      → s.user_id ≡ pos n
      → 0 < n
      → n < int_limit
      → roles.connected ≡ true
      → roles.has_operator_tables ≡ true
      → answered (c.driver 0) ≡ true
      → ((subject : Text) × ((bearer_or_session verify hash
              (some ts)
              oidc
              cookie_name
              (steady now db_now)
              request
              (some db)).0
            ≡ next subject)
          × (passes (require_permission c (some roles) permission subject) ≡ true))
        ↔ ((is_live db s ≡ true)
            × (s.revoked_at ≡ none)
            × (now < s.absolute_expires_at)
            × (now < s.expires_at)
            × (is_allowed roles permission (some (pos n)) ≡ true))
  session_permission-passes ts oidc cookie_name now db_now request cookie db s n c roles permission
        no_header named here filled up unique found its above below up' tables answers =
      (
        λ (subject, h, p).
            let (uid, v, text) =
              (session_subject verify hash ts oidc cookie_name (steady now db_now) request cookie db
                  subject no_header named here filled).0
                h in
            let (who, _, _) = validate_extends hash now db_now cookie db s uid unique found v in
            let v' : (validate_session hash (steady now db_now) cookie db).0 ≡ ok s.user_id =
              v ∙ ap ok who in
            let (live, unrevoked, before, within) =
              (validate-ok_iff hash now db_now cookie db s up unique found).0 v' in
            let same : subject ≡ user_prefix ++ itoa (pos n) =
              text ∙ ap (λ (k : ℤ). user_prefix ++ itoa k) (who ∙ its) in
            (live, unrevoked, before, within, sym gate ∙ ap asked (sym same) ∙ p),
        λ (live, unrevoked, before, within, granted).
            let v =
              (validate-ok_iff hash now db_now cookie db s up unique found).1
                (live, unrevoked, before, within) in
            let h =
              (session_subject verify hash ts oidc cookie_name (steady now db_now) request cookie db
                  (user_prefix ++ itoa (pos n)) no_header named here filled).1
                (s.user_id, v, ap (λ (k : ℤ). user_prefix ++ itoa k) (sym its)) in
            (user_prefix ++ itoa (pos n), h, gate ∙ granted),
      )
    where
      asked : Text → Bool
      asked subject = passes (require_permission c (some roles) permission subject)

      gate : asked (user_prefix ++ itoa (pos n)) ≡ is_allowed roles permission (some (pos n))
      gate = allowed_subject c roles permission n up' tables answers above below
