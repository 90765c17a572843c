-- ===== src/Middleware/Csrf.antt =====
-- api/middleware/csrf.go and api/middleware/privileged.go: what a request that changes state has
-- to bring along.
use go_lab.Prelude.{
  ℕ, ◌≡◌, refl, ◌↔◌, text_eq_iff, ℤ, pos, negsuc, Text, codes, text_eq, is_empty, Bool, true, false,
  ◌&&◌, ◌||◌, not, Option, none, some, List, [], ◌∷◌, any, take, ltb, leb, length, arith,
  if◌then◌else◌,
}
use go_lab.Strings.{trim_space, has_prefix, equal_fold}
use go_lab.Strings.Trim.{trim_space-is_empty}
use go_lab.Http.{validation, forbidden, Gate, next, abort, passes}

-- What of a request is read; an absent header is empty.
pub record Request : Type 0 where
  pub method : Text
  pub path : Text
  pub authorization : Text
  pub session_cookie : Option Text
  pub csrf_cookie : Option Text
  pub csrf_header : Text

abbrev pub is_safe_method : Text → Bool
is_safe_method m =
    text_eq m (codes "GET")
    || text_eq m (codes "HEAD")
    || text_eq m (codes "OPTIONS")
    || text_eq m (codes "TRACE")

-- `CSRFExemptPathPrefixes`
abbrev exempt_path_prefixes : List Text
exempt_path_prefixes =
    codes "/api/v1/auth/register"
    ∷ codes "/api/v1/auth/invite/accept"
    ∷ codes "/api/v1/auth/login"
    ∷ codes "/api/v1/auth/token"
    ∷ codes "/api/v1/auth/bootstrap"
    ∷ codes "/api/v1/auth/desktop/exchange"
    ∷ []

abbrev pub is_exempt : Text → Bool
is_exempt path = any (has_prefix path) exempt_path_prefixes

abbrev pub has_bearer : Text → Bool
has_bearer authz = leb 7 (length authz) && equal_fold (take 7 authz) (codes "Bearer ")

abbrev check_token : Option Text → Text → Gate (Unit {0})
check_token none hdr = abort 403 forbidden
check_token (some cookie_tok) hdr =
    if is_empty (trim_space cookie_tok) || is_empty hdr || not (text_eq cookie_tok hdr)
    then abort 403 forbidden
    else next tt

abbrev check_session : Request → Option Text → Gate (Unit {0})
check_session r none = next tt
check_session r (some sess) =
    if is_empty (trim_space sess)
    then next tt
    else check_token r.csrf_cookie (trim_space r.csrf_header)

-- `CSRFCookieProtect`
unfoldable pub csrf_protect : Request → Gate (Unit {0})
csrf_protect r =
    if is_safe_method r.method
    then next tt
    else if has_bearer (trim_space r.authorization)
    then next tt
    else if is_exempt r.path
    then next tt
    else check_session r r.session_cookie

-- A request that could use a session is let through exactly with the double submit: for a method
-- that is not safe, without a bearer header, on a path that is not exempt and with a session cookie
-- that is not blank, it passes exactly if the CSRF cookie is there, is not blank, and equals the
-- trimmed header.
pub csrf_protect-passes :
    (r : Request) (sess : Text)
    → is_safe_method r.method ≡ false
    → has_bearer (trim_space r.authorization) ≡ false
    → is_exempt r.path ≡ false
    → r.session_cookie ≡ some sess
    → is_empty (trim_space sess) ≡ false
    → (passes (csrf_protect r) ≡ true) ↔ (
        (tok : Text) × (r.csrf_cookie ≡ some tok)
        × (is_empty (trim_space tok) ≡ false)
        × (tok ≡ trim_space r.csrf_header))
unfolding csrf_protect
csrf_protect-passes r sess m b e s n = go r.csrf_cookie refl
  where
    go :
        (cookie : Option Text)
        → r.csrf_cookie ≡ cookie
        → (passes (csrf_protect r) ≡ true) ↔ (
            (tok : Text) × (cookie ≡ some tok)
            × (is_empty (trim_space tok) ≡ false)
            × (tok ≡ trim_space r.csrf_header))
    go none c = (λ h. absurd (ground (arith, h)), λ (tok, k, _, _). absurd (ground (arith, k)))
    go (some t) c =
        let same = text_eq_iff t (trim_space r.csrf_header) in
        (
          λ h. (t, refl, ground (arith, h), same.0 (ground (arith, h))),
          λ (tok, k, full, eq).
              let it : t ≡ tok = ground (arith, k) in
              let equal : t ≡ trim_space r.csrf_header = rw it eq in
              let test = same.1 equal in
              let full' : is_empty (trim_space t) ≡ false = rw it full in
              let header : is_empty (trim_space r.csrf_header) ≡ false =
                rw⁻¹ equal (trim_space-is_empty t full') in
              ground (arith, test, full', header),
        )

abbrev required_length : ℤ → ℕ
required_length (negsuc n) = 8
required_length (pos n) = if ltb n 1 then 8 else n

-- `RequirePlatformActionReason`, which sets the reason.
unfoldable pub require_reason : ℤ → Text → Gate Text
require_reason min_len header =
    let reason = trim_space header in
    if ltb (length reason) (required_length min_len) then abort 400 validation else next reason
