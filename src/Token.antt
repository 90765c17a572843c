-- ===== src/Token.antt =====
-- api/auth/token.go: the JSON web tokens of the API. Times are seconds; `now` is the clock when the
-- function runs. What golang-jwt does is a parameter: `sign` for `SignedString` of HS256, and
-- `verify` for `ParseWithClaims` with the issuer, the audience and the method that are asked for.
pub mod Rotation
pub mod Endpoints
mod Tests
use go_lab.Prelude.{
  ℕ, ◌+◌, ◌-◌, ℤ, pos, negsuc, is_positive, Text, codes, is_empty, Bool, true, false, ◌||◌, not,
  Option, none, some, List, [], ◌∷◌, ltb, leb, length, if◌then◌else◌,
}
use go_lab.Strings.{trim_space}

-- `jwt.RegisteredClaims` and the program's own claims; an absent claim is the empty text.
pub record Claims : Type 0 where
  pub issuer : Text
  pub subject : Text
  pub audience : List Text
  pub expires_at : ℤ
  pub issued_at : ℕ
  pub not_before : ℕ
  pub id : Text
  pub token_use : Text
  pub join_session_id : Text
  pub session_id : Text

-- An empty `prev_secret` is none.
pub record TokenService : Type 0 where
  pub secret : Text
  pub prev_secret : Text
  pub issuer : Text
  pub audience : Text
  pub ttl : ℤ

-- `NewTokenService`; `none` is its error.
unfoldable pub new_token_service : Text → Text → Text → Text → ℤ → Option TokenService
new_token_service secret previous_secret issuer audience ttl =
    if ltb (length secret) 32
    then none
    else if is_empty issuer || is_empty audience
    then none
    else if is_empty (trim_space previous_secret)
    then some (record {
      secret = secret;
      prev_secret = codes "";
      issuer = issuer;
      audience = audience;
      ttl = ttl;
    })
    else if ltb (length previous_secret) 32
    then none
    else some (record {
      secret = secret;
      prev_secret = previous_secret;
      issuer = issuer;
      audience = audience;
      ttl = ttl;
    })

-- `now.Add(ttl)`
abbrev pub add_ttl : ℕ → ℤ → ℤ
add_ttl now (pos n) = pos (now + n)
add_ttl now (negsuc n) = if ltb n now then pos (now - (n + 1)) else negsuc (n - now)

-- `time.Until(exp)`, and 0 if that is past.
abbrev pub seconds_left : ℤ → ℕ → ℕ
seconds_left (pos exp) now = exp - now
seconds_left (negsuc n) now = 0

abbrev pub claims_of : TokenService → ℕ → ℤ → Text → Text → Text → Text → Text → Claims
claims_of s now ttl jti subject token_use join_session_id session_id = record {
  issuer = s.issuer;
  subject = subject;
  audience = s.audience ∷ [];
  expires_at = add_ttl now ttl;
  issued_at = now;
  not_before = now;
  id = jti;
  token_use = token_use;
  join_session_id = join_session_id;
  session_id = session_id;
}

-- `randomJTI` has given a text, or `none` if the system has no randomness.
module _ (sign : Text → Claims → Option Text) where
  abbrev signed : TokenService → Claims → Option (Text × ℤ)
  signed s claims = elim (sign s.secret claims) [
    | none ↦ none
    | some token ↦ some (token, claims.expires_at)
  ]

  -- `MintAccessToken`
  unfoldable pub mint_access_token : TokenService → ℕ → Option Text → Text → Option (Text × ℤ)
  mint_access_token s now jti subject = if is_empty subject then none else elim jti [
    | none ↦ none
    | some id ↦ signed s (claims_of s now s.ttl id subject (codes "") (codes "") (codes ""))
  ]

  -- `MintJoinToken`
  unfoldable pub mint_join_token :
      TokenService → ℕ → Option Text → Text → Text → ℤ → Option (Text × ℤ)
  mint_join_token s now jti subject session_id ttl =
      if is_empty subject
      then none
      else if is_empty (trim_space session_id)
      then none
      else if not (is_positive ttl)
      then none
      else elim jti [
        | none ↦ none
        | some id ↦
            signed s
              (claims_of s now ttl id subject (codes "join") (trim_space session_id) (codes ""))
      ]

  -- `MintDesktopAccessToken`
  unfoldable pub mint_desktop_access_token :
      TokenService → ℕ → Option Text → Text → Text → Option (Text × ℤ)
  mint_desktop_access_token s now jti subject session_id =
      if is_empty subject
      then none
      else if is_empty (trim_space session_id)
      then none
      else elim jti [
        | none ↦ none
        | some id ↦ signed s (
            claims_of s now s.ttl id subject (codes "desktop_access") (codes "")
              (trim_space session_id))
      ]

module _ (verify : ℕ → Text → Text → Text → Text → Option Claims) where
  -- `ParseAccessToken`: the secret, then the previous one where there is one.
  unfoldable pub parse_access_token : TokenService → ℕ → Text → Option Claims
  parse_access_token s now token = elim (verify now s.issuer s.audience s.secret token) [
    | some claims ↦ some claims
    | none ↦
        if not (is_empty s.prev_secret)
        then verify now s.issuer s.audience s.prev_secret token
        else none
  ]
