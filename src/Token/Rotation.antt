-- ===== src/Token/Rotation.antt =====
-- Tokens of api/auth/token.go over a change of the secret.
use go_lab.Prelude.{
  ℕ, ◌≤◌, ◌≡◌, refl, ◌⊎◌, inl, inr, ℤ, pos, Text, codes, is_empty, true, false, Option, none, some,
  [], ◌∷◌, arith, ltb_ℤ,
}
use go_lab.Strings.{trim_space}
use go_lab.Token.{Claims, TokenService, claims_of, mint_desktop_access_token, parse_access_token}

-- The same service, or one whose secret was rotated: the old secret is its previous one, and the
-- new one does not verify the token.
abbrev pub Accepts :
    (ℕ → Text → Text → Text → Text → Option Claims)
    → TokenService
    → TokenService
    → ℕ
    → Text
    → Type 0
Accepts verify s s' now token =
    (s'.issuer ≡ s.issuer)
    × (s'.audience ≡ s.audience)
    × ((s'.secret ≡ s.secret)
        ⊎ ((s'.prev_secret ≡ s.secret)
            × (is_empty s.secret ≡ false)
            × (verify now s'.issuer s'.audience s'.secret token ≡ none)))

-- golang-jwt verifies what it has signed with the same secret, if the issuer and the audience are
-- those asked for and the time lies between `nbf` and `exp`.
module _ (sign : Text → Claims → Option Text)
    (verify : ℕ → Text → Text → Text → Text → Option Claims)
    (verifies : (now : ℕ) (issuer audience secret token : Text) (claims : Claims)
      → sign secret claims ≡ some token
      → claims.issuer ≡ issuer
      → claims.audience ≡ audience ∷ []
      → claims.not_before ≤ now
      → ltb_ℤ (pos now) claims.expires_at ≡ true
      → verify now issuer audience secret token ≡ some claims) where
  accepted :
      (s s' : TokenService) (now : ℕ) (token : Text) (claims : Claims)
      → verify now s.issuer s.audience s.secret token ≡ some claims
      → Accepts verify s s' now token
      → parse_access_token verify s' now token ≡ some claims
  unfolding parse_access_token
  accepted s s' now token claims v (i, a, inl k) =
      let v' : verify now s'.issuer s'.audience s'.secret token ≡ some claims = rw (i, a, k) v in
      ground arith
  accepted s s' now token claims v (i, a, inr (k, full, other)) =
      let v' : verify now s'.issuer s'.audience s'.prev_secret token ≡ some claims =
        rw (i, a, k) v in
      let full' : is_empty s'.prev_secret ≡ false = rw k full in ground arith

  -- A desktop token is accepted, from its minting on until it expires, by the service that minted
  -- it and by one with the same issuer and audience whose previous secret is that service's, if
  -- the new secret does not verify the token; its claims name the subject, the use
  -- "desktop_access" and the trimmed session.
  pub desktop_token_accepted :
      (s s' : TokenService) (now now' : ℕ) (jti subject session_id token : Text) (exp : ℤ)
      → mint_desktop_access_token sign s now (some jti) subject session_id ≡ some (token, exp)
      → now ≤ now'
      → ltb_ℤ (pos now') exp ≡ true
      → Accepts verify s s' now' token
      → parse_access_token verify s' now' token
        ≡ some (
            claims_of s now s.ttl jti subject
              (codes "desktop_access")
              (codes "")
              (trim_space session_id))
  unfolding mint_desktop_access_token
  desktop_token_accepted s s' now now' jti subject session_id token exp minted later live a =
      let claims =
        claims_of s now s.ttl jti subject (codes "desktop_access") (codes "")
          (trim_space session_id) in
      let signature : sign s.secret claims ≡ some token = ground arith in
      let until : claims.expires_at ≡ exp = ground arith in
      accepted s s' now' token claims
        (verifies now' s.issuer s.audience s.secret token claims signature refl refl later
          (rw until live))
        a
