-- ===== src/Middleware/Tests.antt =====
-- The middleware on concrete requests.
use go_lab.Rbac.{permissions_for_role}
use go_lab.Prelude.{
  ℕ, ◌*◌, ◌≤◌, ◌<◌, ◌≡◌, refl, ◌↔◌, pos, int_eq, Text, codes, text_eq, is_empty, true, false,
  Option, none, some, List, [], ◌∷◌, arith,
}
use go_lab.Strings.{trim_space, has_prefix}
use go_lab.Strconv.{itoa}
use go_lab.Sql.{steady}
use go_lab.Http.{passes, next}
use go_lab.Session.{Session, Db, has_hash, is_live, new_session, validate_session}
use go_lab.Sql.Rows.{find}
use go_lab.Rbac.Roles.{RoleDb}
use go_lab.Rbac.Gate.{require_permission, is_allowed}
use go_lab.Middleware.Guarded.{session_permission-passes}
use go_lab.Token.{Claims, TokenService}
use go_lab.Middleware.Auth.{
  Request, bearer_auth, bearer_or_session, header_excludes_cookie, bearer_or_session-bearer_auth,
}
use go_lab.Middleware.Csrf
use go_lab.Middleware.Csrf.{
  is_safe_method, has_bearer, is_exempt, csrf_protect, csrf_protect-passes,
}
use go_lab.Middleware.Limit.{Limiter}
use go_lab.Middleware.Limit.Bound.{admitted, requests, min, admitted_bound, admitted_fresh}

abbrev plain : Text → Text
plain t = t

-- A verifier that takes every token to be the subject itself.
abbrev verify : ℕ → Text → Text → Text → Text → Option Claims
verify now issuer audience secret token = some (record {
  issuer = issuer;
  subject = token;
  audience = audience ∷ [];
  expires_at = pos 900;
  issued_at = 1;
  not_before = 1;
  id = codes "";
  token_use = codes "";
  join_session_id = codes "";
  session_id = codes "";
})

abbrev service : TokenService
service = record {
  secret = codes "s";
  prev_secret = codes "";
  issuer = codes "api";
  audience = codes "lab";
  ttl = pos 900;
}

abbrev fresh : Db
fresh = record {
  connected = true;
  idle_ttl = 10;
  abs_ttl = 25;
  users = record { id = pos 3; deleted_at = none } ∷ [];
  sessions = [];
  next_id = 1;
}

abbrev session_3 : Session
session_3 = new_session plain (steady 100 100) (pos 3) (codes "tok") (codes "") (codes "") fresh

abbrev signed_in : Db
signed_in = record fresh { sessions = session_3 ∷ []; next_id = 2 }

found_3 : find (has_hash (codes "tok")) signed_in.sessions ≡ some session_3
unfolding text_eq
found_3 = refl

abbrev with_header : Request
with_header = record { authorization = codes "bearer user:4"; session_cookie = some (codes "tok") }

abbrev with_cookie : Request
with_cookie = record { authorization = codes ""; session_cookie = some (codes "tok") }

header_there : is_empty (trim_space with_header.authorization) ≡ false
unfolding trim_space
header_there = refl

header_trimmed : trim_space with_header.authorization ≡ with_header.authorization
unfolding trim_space
header_trimmed = refl

header_excludes_cookie_run :
    ((bearer_or_session verify plain
        (some service)
        none
        (codes "sid")
        (steady 101 101)
        with_header
        (some signed_in)).0
      ≡ (bearer_or_session verify plain
          (some service)
          none
          (codes "sid")
          (steady 101 101)
          (record with_header { session_cookie = none })
          none).0)
    × ((bearer_or_session verify plain
          (some service)
          none
          (codes "sid")
          (steady 101 101)
          with_header
          (some signed_in)).1
        ≡ some signed_in)
header_excludes_cookie_run =
    header_excludes_cookie verify plain (some service) none (codes "sid") (steady 101 101)
      with_header none (some signed_in) none header_there

bearer_or_session-bearer_auth_run :
    (bearer_or_session verify plain
      (some service)
      none
      (codes "sid")
      (steady 101 101)
      with_header
      (some signed_in)).0
    ≡ bearer_auth verify (some service) 101 (codes "bearer user:4")
bearer_or_session-bearer_auth_run =
    bearer_or_session-bearer_auth verify plain (some service) (codes "sid") (steady 101 101)
      with_header (some signed_in) header_trimmed refl

no_header : is_empty (trim_space (codes "")) ≡ true
unfolding trim_space
no_header = refl

a_name : is_empty (trim_space (codes "sid")) ≡ false
unfolding trim_space
a_name = refl

a_cookie : is_empty (trim_space (codes "tok")) ≡ false
unfolding trim_space
a_cookie = refl

abbrev desk_roles : RoleDb
desk_roles = record {
  connected = true;
  has_operator_tables = true;
  roles = record { id = 2; name = codes "operator" } ∷ [];
  account_roles = record { account = 1; role = 2 } ∷ [];
  accounts = record { id = 1; linked_user_id = some (pos 3); status = codes "active" } ∷ [];
  users = record { id = pos 3; deleted_at = none } ∷ [];
  user_roles = [];
}

session_permission-passes_example :
    ((subject : Text) × ((bearer_or_session verify plain
          (some service)
          none
          (codes "sid")
          (steady 101 101)
          with_cookie
          (some signed_in)).0
        ≡ next subject)
      × (passes
            (require_permission (steady 101 101) (some desk_roles) (codes "users.delete") subject)
          ≡ true))
    ↔ ((is_live signed_in session_3 ≡ true)
        × (session_3.revoked_at ≡ none)
        × (101 < session_3.absolute_expires_at)
        × (101 < session_3.expires_at)
        × (is_allowed desk_roles (codes "users.delete") (some (pos 3)) ≡ true))
session_permission-passes_example =
    session_permission-passes verify plain service none (codes "sid") 101 101 with_cookie
      (codes "tok") signed_in session_3 3 (steady 101 101) desk_roles (codes "users.delete")
      no_header a_name refl a_cookie refl (tt, tt) found_3 refl (omega arith) (omega arith) refl
      refl refl

-- Both sides hold of this session.
deletes_users : is_allowed desk_roles (codes "users.delete") (some (pos 3)) ≡ true
unfolding int_eq text_eq permissions_for_role
deletes_users = refl

signed_in_passes :
    (bearer_or_session verify plain
      (some service)
      none
      (codes "sid")
      (steady 101 101)
      with_cookie
      (some signed_in)).0
    ≡ next (codes "user:3")
unfolding bearer_or_session validate_session trim_space text_eq itoa int_eq
signed_in_passes = refl

abbrev delete_user : Csrf.Request
delete_user = record {
  method = codes "DELETE";
  path = codes "/api/v1/users/7";
  authorization = codes "";
  session_cookie = some (codes "tok");
  csrf_cookie = some (codes "x1");
  csrf_header = codes "x1";
}

is_unsafe : is_safe_method (codes "DELETE") ≡ false
unfolding text_eq
is_unsafe = refl

no_bearer : has_bearer (trim_space (codes "")) ≡ false
unfolding trim_space
no_bearer = refl

not_exempt : is_exempt (codes "/api/v1/users/7") ≡ false
unfolding has_prefix
not_exempt = refl

csrf_protect-passes_example : (passes (csrf_protect delete_user) ≡ true) ↔ (
    (tok : Text) × (some (codes "x1") ≡ some tok)
    × (is_empty (trim_space tok) ≡ false)
    × (tok ≡ trim_space (codes "x1")))
csrf_protect-passes_example =
    csrf_protect-passes delete_user (codes "tok") is_unsafe no_bearer not_exempt refl a_cookie

abbrev idle : Limiter
idle = record { by_ip = λ _. none; last_sweep = 1000 }

abbrev hits : List (ℕ × Text)
hits = (1000, codes "a") ∷ (1010, codes "b") ∷ (1020, codes "a") ∷ (1059, codes "a") ∷ []

admitted_bound_example : admitted 2 (codes "a") hits idle ≤ 2 * 2
admitted_bound_example = admitted_bound 2 1000 (codes "a") hits idle (ground arith)

admitted_fresh_run : admitted 2 (codes "a") hits idle ≡ min (requests (codes "a") hits) 2
admitted_fresh_run = admitted_fresh 2 1000 (codes "a") hits idle (ground arith) refl
