-- ===== src/Token/Tests.antt =====
-- Tokens of a signer that knows one token only.
use go_lab.Prelude.{
  false, ◌↔◌, ◌++◌, ℕ, ◌≤◌, ◌≡◌, refl, inr, pos, int_eq, int_eq_iff, ltb_ℤ, Text, codes, text_eq,
  text_eq_iff, Bool, true, ◌&&◌, Option, none, some, [], ◌∷◌, arith, ◌==◌, if◌then◌else◌,
}
use go_lab.Strings.{trim_space}
use go_lab.Token.{
  seconds_left, Claims, TokenService, claims_of, mint_desktop_access_token, parse_access_token,
  mint_access_token,
}
use go_lab.Http.{success}
use go_lab.Token.Endpoints.{Config, issue_token}
use go_lab.Token.Endpoints.Issued.{issue_token-success_iff}
use go_lab.Token.Rotation.{desktop_token_accepted}

abbrev before : TokenService
before = record {
  secret = codes "old";
  prev_secret = codes "";
  issuer = codes "api";
  audience = codes "lab";
  ttl = pos 900;
}

-- The service after its secret was rotated.
abbrev behind : TokenService
behind = record {
  secret = codes "new";
  prev_secret = codes "old";
  issuer = codes "api";
  audience = codes "lab";
  ttl = pos 900;
}

abbrev known : Claims
known =
    claims_of before 1000 (pos 900) (codes "j1") (codes "user:3") (codes "desktop_access")
      (codes "") (codes "lobby")

-- All but the audience.
same_claims : Claims → Bool
same_claims c =
    text_eq c.issuer known.issuer
    && (text_eq c.subject known.subject
        && (int_eq c.expires_at known.expires_at
            && (c.issued_at == known.issued_at
                && (c.not_before == known.not_before
                    && (text_eq c.id known.id
                        && (text_eq c.token_use known.token_use
                            && (text_eq c.join_session_id known.join_session_id
                                && text_eq c.session_id known.session_id)))))))

sign : Text → Claims → Option Text
sign secret c = if text_eq secret (codes "old") && same_claims c then some (codes "jwt") else none

verify : ℕ → Text → Text → Text → Text → Option Claims
verify now issuer audience secret token =
    if text_eq secret (codes "old") && text_eq token (codes "jwt")
    then some (record known { audience = audience ∷ [] })
    else none

verifies :
    (now : ℕ) (issuer audience secret token : Text) (claims : Claims)
    → sign secret claims ≡ some token
    → claims.issuer ≡ issuer
    → claims.audience ≡ audience ∷ []
    → claims.not_before ≤ now
    → ltb_ℤ (pos now) claims.expires_at ≡ true
    → verify now issuer audience secret token ≡ some claims
unfolding sign verify same_claims text_eq
verifies now issuer audience secret token c s i a from to =
    let e1 = (text_eq_iff c.issuer known.issuer).0 (ground arith) in
    let e2 = (text_eq_iff c.subject known.subject).0 (ground arith) in
    let e3 = (int_eq_iff c.expires_at known.expires_at).0 (ground arith) in
    let e4 : c.issued_at ≡ known.issued_at = ground arith in
    let e5 : c.not_before ≡ known.not_before = ground arith in
    let e6 = (text_eq_iff c.id known.id).0 (ground arith) in
    let e7 = (text_eq_iff c.token_use known.token_use).0 (ground arith) in
    let e8 = (text_eq_iff c.join_session_id known.join_session_id).0 (ground arith) in
    let e9 = (text_eq_iff c.session_id known.session_id).0 (ground arith) in
    let same : c ≡ record known { audience = audience ∷ [] } = cc in
    let old : text_eq secret (codes "old") ≡ true = ground arith in
    let text : token ≡ codes "jwt" = ground arith in rw (old, text, same) refl

minted :
    mint_desktop_access_token sign before 1000 (some (codes "j1")) (codes "user:3") (codes " lobby")
    ≡ some (codes "jwt", pos 1900)
unfolding mint_desktop_access_token sign same_claims text_eq int_eq trim_space
minted = refl

other_secret : verify 1500 (codes "api") (codes "lab") (codes "new") (codes "jwt") ≡ none
unfolding verify text_eq
other_secret = refl

live : ltb_ℤ (pos 1500) (pos 1900) ≡ true
unfolding ltb_ℤ
live = refl

desktop_token_accepted_example :
    parse_access_token verify behind 1500 (codes "jwt")
    ≡ some (
        claims_of before 1000
          (pos 900)
          (codes "j1")
          (codes "user:3")
          (codes "desktop_access")
          (codes "")
          (trim_space (codes " lobby")))
desktop_token_accepted_example =
    desktop_token_accepted sign verify verifies before behind 1000 1500 (codes "j1")
      (codes "user:3") (codes " lobby") (codes "jwt") (pos 1900) minted (omega arith) live
      (refl, refl, inr (refl, refl, other_secret))

abbrev settings : Config
settings = record {
  client_id = codes "platform";
  client_secret = codes "s3cret";
  bootstrap_enabled = false;
  bootstrap_cidrs = [];
  allowed_origins = [];
  join_token_ttl = pos 60;
}

abbrev sign_all : Text → Claims → Option Text
sign_all secret claims = some (codes "jwt")

mints :
    mint_access_token sign_all before 1000 (some (codes "j1")) (codes "client:" ++ codes "platform")
    ≡ some (codes "jwt", pos 1900)
unfolding mint_access_token
mints = refl

issue_token-success_iff_example :
    (issue_token sign_all settings
        (some before)
        1000
        (some (codes "j1"))
        (some (codes "client_credentials", codes " platform", codes "s3cret"))
      ≡ success 200 (record { token = codes "jwt"; expires_in = seconds_left (pos 1900) 1000 }))
    ↔ ((trim_space (codes "client_credentials") ≡ codes "client_credentials")
        × (trim_space (codes " platform") ≡ codes "platform")
        × (codes "s3cret" ≡ codes "s3cret"))
issue_token-success_iff_example =
    issue_token-success_iff sign_all settings before 1000 (some (codes "j1"))
      (codes "client_credentials") (codes " platform") (codes "s3cret") (codes "jwt") (pos 1900)
      mints
