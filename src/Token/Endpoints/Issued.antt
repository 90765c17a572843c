-- ===== src/Token/Endpoints/Issued.antt =====
-- IssueToken and IssueBootstrapToken: whom they give a token.
use go_lab.Prelude.{
  ℕ, ◌≡◌, refl, ap, ◌↔◌, ℤ, Text, codes, text_eq_iff, true, Option, some, ◌++◌, arith, length,
}
use go_lab.Strings.{trim_space}
use go_lab.Http.{success}
use go_lab.Token.{seconds_left, TokenService, Claims, mint_access_token}
use go_lab.Token.Endpoints.{Config, issue_token, issue_for_client, secure_string_eq}

secure_string_eq_iff : (a b : Text) → (secure_string_eq a b ≡ true) ↔ (a ≡ b)
secure_string_eq_iff a b =
    let same = text_eq_iff a b in
    let len : (a ≡ b) → length a ≡ length b = λ e. ap length e in
    (λ h. same.0 (ground (arith, h)), λ e. rw e ((secure_self b)))
  where
    secure_self : (b : Text) → secure_string_eq b b ≡ true
    secure_self b = let self = (text_eq_iff b b).1 refl in ground (arith, self)

-- With a token service that can mint, the token endpoint succeeds exactly for the grant type
-- "client_credentials" and the id and the secret of the platform client, where white space around
-- the grant type and the id is ignored and the secret is taken as it is.
pub issue_token-success_iff :
    (sign : Text → Claims → Option Text) (cfg : Config) (ts : TokenService) (now : ℕ)
    (jti : Option Text) (grant_type client_id client_secret token : Text) (exp : ℤ)
    → mint_access_token sign ts now jti (codes "client:" ++ cfg.client_id) ≡ some (token, exp)
    → (issue_token sign cfg (some ts) now jti (some (grant_type, client_id, client_secret))
        ≡ success 200 (record { token = token; expires_in = seconds_left exp now }))
      ↔ ((trim_space grant_type ≡ codes "client_credentials")
          × (trim_space client_id ≡ cfg.client_id)
          × (client_secret ≡ cfg.client_secret))
unfolding issue_token issue_for_client
issue_token-success_iff sign cfg ts now jti grant_type client_id client_secret token exp minted =
    let a = text_eq_iff (trim_space grant_type) (codes "client_credentials") in
    let b = secure_string_eq_iff (trim_space client_id) cfg.client_id in
    let c = secure_string_eq_iff client_secret cfg.client_secret in
    (
      λ h. (a.0 (ground (arith, h)), b.0 (ground (arith, h)), c.0 (ground (arith, h))),
      λ (x, y, z).
          let grant = a.1 x in
          let id = b.1 y in let secret = c.1 z in ground (arith, grant, id, secret, minted),
    )
