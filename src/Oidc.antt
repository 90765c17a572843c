-- ===== src/Oidc.antt =====
-- api/auth/oidc.go: the subject of an access token of an external issuer. The verifier of go-oidc
-- and the claims that it reads are a parameter.
pub mod Stable
mod Tests
use go_lab.Prelude.{
  ℕ, ◌-◌, ℤ, Text, codes, is_empty, Bool, not, Option, none, some, List, [], ◌∷◌, ◌++◌, reverse,
  length, take, if◌then◌else◌,
}
use go_lab.Strings.{trim_space, has_prefix}
use go_lab.Strconv.{itoa}
use go_lab.Sql.{Call, Result, ok, err}
use go_lab.Accounts.{AccountError, Db, ensure_oidc_user}
use go_lab.Http.Subject.{user_subject}

-- What the verifier gives of a token; claims that are not there are empty.
pub record IdToken : Type 0 where
  pub issuer : Text
  pub subject : Text
  pub email : Text
  pub name : Text

pub data OidcError : Type 0 where
  not_configured not_verified empty_subject empty_client no_store : OidcError
  store_error : AccountError → OidcError

abbrev pub has_suffix : Text → Text → Bool
has_suffix s suffix = has_prefix (reverse s) (reverse suffix)

abbrev pub clients : Text
clients = codes "@clients"

abbrev pub or_else : Text → Text → Text
or_else s other = if is_empty s then other else s

abbrev pub resolved : Result AccountError ℤ → Result OidcError Text
resolved (err e) = err (store_error e)
resolved (ok uid) = ok (user_subject uid)

abbrev lift : Result OidcError Text × Db → Result OidcError Text × Option Db
lift (r, db) = (r, some db)

module _ (collates : Text → Text → Bool) where
  -- A token of a user, by its trimmed subject.
  unfoldable pub resolve_user : Call → Text → IdToken → Text → Db → Result OidcError Text × Db
  resolve_user c issuer_url t sub db =
      let display = or_else (trim_space t.name) (trim_space t.email) in
      let issuer = or_else (trim_space t.issuer) issuer_url in
      let (result, db') = ensure_oidc_user collates c issuer sub display db in
      (resolved result, db')

  -- `TryResolveAuthSubject`
  unfoldable pub try_resolve :
      Bool
      → (Text → Option IdToken)
      → Call
      → Text
      → Text
      → Option Db
      → Result OidcError Text × Option Db
  unfolding resolve_user
  try_resolve configured verify c issuer_url raw_token store =
      if not configured then (err not_configured, store) else elim (verify raw_token) [
        | none ↦ (err not_verified, store)
        | some t ↦
            let sub = trim_space t.subject in
            if is_empty sub
            then (err empty_subject, store)
            else if has_suffix sub clients
            then (let client_id = take (length sub - 8) sub in
                (
                  if is_empty client_id
                      then err empty_client
                      else ok (codes "client:" ++ client_id),
                  store,
                ))
            else elim store [
              | none ↦ (err no_store, none)
              | some db ↦ lift (resolve_user c issuer_url t sub db)
            ]
      ]
