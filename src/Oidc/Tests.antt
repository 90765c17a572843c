-- ===== src/Oidc/Tests.antt =====
-- Tokens of an external issuer, whose text is the subject, on an empty database.
use go_lab.Strconv.{itoa}
use go_lab.Http.Subject.{user_subject}
use go_lab.Strings.{has_prefix, trim_space, equal_fold, to_lower}
use go_lab.Prelude.{
  ◌≡◌, refl, pos, Text, text_eq, text_eq_iff, ap, codes, true, Option, none, some, [], ◌∷◌,
}
use go_lab.Sql.{steady, ok, err}
use go_lab.Accounts.{first_chars, touch_login, ensure_oidc_user, Db}
use go_lab.Accounts.Steps.{apply, ensure_for, touch_at, run}
use go_lab.Oidc.{empty_client, IdToken, try_resolve}
use go_lab.Oidc.Stable.{IsCollation, try_resolve-same}

abbrev empty : Db
empty = record {
  connected = true;
  users = [];
  accounts = [];
  invites = [];
  identities = [];
  roles = [];
  account_roles = [];
  next_user = 7;
  next_account = 1;
  next_invite = 1;
}

abbrev token : Text → IdToken
token s = record { issuer = codes ""; subject = s; email = codes "e@x"; name = codes "" }

abbrev verify : Text → Option IdToken
verify s = some (token s)

abbrev linked : Db
linked = record empty {
  users = record { id = pos 7; name = codes "e@x"; pennies = pos 0; deleted_at = none } ∷ [];
  identities = record { user_id = pos 7; issuer = codes "iss"; subject = codes "bob" } ∷ [];
  next_user = 8;
}

machine :
    (try_resolve equal_fold true verify (steady 5 5) (codes "iss") (codes "batch@clients") none).0
    ≡ ok (codes "client:batch")
unfolding try_resolve trim_space has_prefix
machine = refl

nobody :
    (try_resolve equal_fold true verify (steady 5 5) (codes "iss") (codes "@clients") none).0
    ≡ err empty_client
unfolding try_resolve trim_space has_prefix
nobody = refl

first :
    try_resolve equal_fold true verify (steady 5 5) (codes "iss") (codes "bob") (some empty)
    ≡ (ok (codes "user:7"), some linked)
unfolding try_resolve trim_space has_prefix ensure_oidc_user user_subject itoa
first = refl

again :
    (try_resolve equal_fold true verify (steady 9 9) (codes "iss") (codes " Bob") (
      some (
        run equal_fold
          ((steady 6 6, ensure_for (codes "iss") (codes "eve") (codes "Eve"))
            ∷ (steady 7 7, touch_at (codes "a@x"))
            ∷ [])
          linked))).0
    ≡ ok (codes "user:7")
unfolding try_resolve trim_space has_prefix ensure_oidc_user run apply touch_login text_eq
    user_subject itoa equal_fold first_chars
again = refl

folds : IsCollation equal_fold
unfolding equal_fold
folds = record {
  itself = λ x. (text_eq_iff (to_lower x) (to_lower x)).1 refl;
  alike = λ x y z h. ap (text_eq (to_lower z)) ((text_eq_iff (to_lower x) (to_lower y)).0 h);
}

-- "bob" and "Bob" are one user where the collation ignores case.
try_resolve-same_example : codes "user:7" ≡ codes "user:7"
unfolding trim_space has_prefix equal_fold text_eq
try_resolve-same_example =
    try_resolve-same equal_fold folds verify (steady 5 5) (steady 9 9) (codes "iss") (codes "bob")
      (codes " Bob") (token (codes "bob")) (token (codes " Bob")) empty linked (codes "user:7")
      (codes "user:7")
      ((steady 6 6, ensure_for (codes "iss") (codes "eve") (codes "Eve"))
        ∷ (steady 7 7, touch_at (codes "a@x"))
        ∷ [])
      refl refl refl refl refl refl first again
