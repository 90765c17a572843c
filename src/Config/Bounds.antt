-- ===== src/Config/Bounds.antt =====
-- The values of a configuration that Load returns.
use go_lab.Prelude.{
  ℕ, ◌≤◌, ◌<◌, ◌≡◌, refl, sym, ap, ◌⊎◌, inl, inr, ℤ, pos, negsuc, Text, codes, is_empty, Bool, true,
  false, ◌||◌, Option, none, some, List, [], ◌∷◌, all, leb, length, arith,
}
use go_lab.Strings.{trim_space}
use go_lab.Strconv.{atoi}
use go_lab.Sql.{Result, ok, err, guard, >>=-ok, guard-ok}
use go_lab.Config.{
  Env, ConfigError, absolute_below_idle, Config, env_or_default, or_else, setting, read_ttl,
  load_sessions, load_cidrs, load_database, load_ttls, load_hosts, load_secrets, load_version,
  load_oidc, load,
}

read_ttl-bounds :
    (env : Env) (key fallback : Text) (lo hi : ℕ) (n : ℕ)
    → read_ttl env key fallback lo hi ≡ ok n
    → (lo ≤ n) × (n ≤ hi)
unfolding read_ttl
read_ttl-bounds env key fallback lo hi n h =
    go (atoi (trim_space (env_or_default env key fallback))) refl
  where
    go :
        (o : Option ℤ)
        → atoi (trim_space (env_or_default env key fallback)) ≡ o
        → (lo ≤ n) × (n ≤ hi)
    go none e = absurd (ground (arith, e, h))
    go (some (negsuc m)) e = absurd (ground (arith, e, h))
    go (some (pos m)) e = (ground (arith, e, h), ground (arith, e, h))

abbrev ordered_pair : ℕ → ℕ → Result ConfigError (ℕ × ℕ)
ordered_pair a b = ok (a, b)

ordered :
    (a b idle abs : ℕ)
    → (60 ≤ a) × (a ≤ 604800)
    → (300 ≤ b) × (b ≤ 2592000)
    → leb a b ≡ true
    → ordered_pair a b ≡ ok (idle, abs)
    → (60 ≤ idle) × (idle ≤ 604800) × (300 ≤ abs) × (idle ≤ abs) × (abs ≤ 2592000)
ordered a b idle abs (la, ua) (lb, ub) le h = ground (arith, h, la, ua, lb, ub, le)

load_sessions-bounds :
    (env : Env) (idle abs : ℕ)
    → load_sessions env ≡ ok (idle, abs)
    → (60 ≤ idle) × (idle ≤ 604800) × (300 ≤ abs) × (idle ≤ abs) × (abs ≤ 2592000)
unfolding load_sessions
load_sessions-bounds env idle abs h =
    let (a, ra, h1) =
      >>=-ok (read_ttl env (codes "SESSION_IDLE_TTL_SECONDS") (codes "1800") 60 604800) _ h in
    let (b, rb, h2) =
      >>=-ok (read_ttl env (codes "SESSION_ABSOLUTE_TTL_SECONDS") (codes "86400") 300 2592000) _
        h1 in
    let (_, g, h3) = >>=-ok (guard (leb a b) absolute_below_idle) _ h2 in
    ordered a b idle abs
      (read_ttl-bounds env (codes "SESSION_IDLE_TTL_SECONDS") (codes "1800") 60 604800 a ra)
      (read_ttl-bounds env (codes "SESSION_ABSOLUTE_TTL_SECONDS") (codes "86400") 300 2592000 b rb)
      (guard-ok (leb a b) absolute_below_idle g) h3

abbrev four : ℕ → ℕ → ℕ → ℕ → Result ConfigError (ℕ × ℕ × ℕ × ℕ)
four a b c d = ok (a, b, c, d)

within :
    (a b c d access invite join code : ℕ)
    → (60 ≤ a) × (a ≤ 86400)
    → (300 ≤ b) × (b ≤ 2592000)
    → (30 ≤ c) × (c ≤ 1800)
    → (30 ≤ d) × (d ≤ 900)
    → four a b c d ≡ ok (access, invite, join, code)
    → (60 ≤ access)
      × (access ≤ 86400)
      × (300 ≤ invite)
      × (invite ≤ 2592000)
      × (30 ≤ join)
      × (join ≤ 1800)
      × (30 ≤ code)
      × (code ≤ 900)
within a b c d access invite join code (la, ua) (lb, ub) (lc, uc) (ld, ud) h =
    ground (arith, h, la, ua, lb, ub, lc, uc, ld, ud)

load_ttls-bounds :
    (env : Env) (access invite join code : ℕ)
    → load_ttls env ≡ ok (access, invite, join, code)
    → (60 ≤ access)
      × (access ≤ 86400)
      × (300 ≤ invite)
      × (invite ≤ 2592000)
      × (30 ≤ join)
      × (join ≤ 1800)
      × (30 ≤ code)
      × (code ≤ 900)
unfolding load_ttls
load_ttls-bounds env access invite join code h =
    let (a, ra, h1) =
      >>=-ok (read_ttl env (codes "JWT_ACCESS_TTL_SECONDS") (codes "900") 60 86400) _ h in
    let (b, rb, h2) =
      >>=-ok (read_ttl env (codes "OPERATOR_INVITE_TTL_SECONDS") (codes "86400") 300 2592000) _
        h1 in
    let (c, rc, h3) =
      >>=-ok (read_ttl env (codes "JOIN_TOKEN_TTL_SECONDS") (codes "120") 30 1800) _ h2 in
    let (d, rd, h4) =
      >>=-ok (read_ttl env (codes "DESKTOP_EXCHANGE_CODE_TTL_SECONDS") (codes "120") 30 900) _ h3 in
    within a b c d access invite join code
      (read_ttl-bounds env (codes "JWT_ACCESS_TTL_SECONDS") (codes "900") 60 86400 a ra)
      (read_ttl-bounds env (codes "OPERATOR_INVITE_TTL_SECONDS") (codes "86400") 300 2592000 b rb)
      (read_ttl-bounds env (codes "JOIN_TOKEN_TTL_SECONDS") (codes "120") 30 1800 c rc)
      (read_ttl-bounds env (codes "DESKTOP_EXCHANGE_CODE_TTL_SECONDS") (codes "120") 30 900 d rd) h4

load_cidrs-bounds :
    (is_prefix : Text → Bool) (env : Env) (cidrs : List Text)
    → load_cidrs is_prefix env ≡ ok cidrs
    → (all is_prefix cidrs ≡ true) × (0 < length cidrs)
unfolding load_cidrs
load_cidrs-bounds is_prefix env cidrs h = (ground (arith, h), ground (arith, h))

load_hosts-bounds : (env : Env) (hosts : List Text) → load_hosts env ≡ ok hosts → 0 < length hosts
unfolding load_hosts
load_hosts-bounds env hosts h = ground (arith, h)

load_secrets-bounds :
    (env : Env) (secret previous client_id client_secret : Text)
    → load_secrets env ≡ ok (secret, previous, client_id, client_secret)
    → (32 ≤ length secret)
      × ((previous ≡ []) ⊎ (32 ≤ length previous))
      × (is_empty client_id ≡ false)
      × (is_empty client_secret ≡ false)
unfolding load_secrets
load_secrets-bounds env secret previous client_id client_secret h =
    (ground (arith, h), blank previous (ground (arith, h)), ground (arith, h), ground (arith, h))
  where
    blank : (s : Text) → (is_empty s || leb 32 (length s)) ≡ true → (s ≡ []) ⊎ (32 ≤ length s)
    blank [] e = inl refl
    blank (c ∷ s) e = inr (ground (arith, e))

load_oidc-bounds :
    (env : Env) (issuer audience : Text)
    → load_oidc env ≡ ok (issuer, audience)
    → is_empty issuer ≡ is_empty audience
unfolding load_oidc
load_oidc-bounds env issuer audience h = ground (arith, h)

-- What holds of a configuration that was loaded.
pub record InBounds (is_prefix : Text → Bool) (c : Config) : Type 0 where
  pub idle_ttl : (60 ≤ c.session_idle_ttl) × (c.session_idle_ttl ≤ 604800)
  pub absolute_ttl : (300 ≤ c.session_absolute_ttl) × (c.session_absolute_ttl ≤ 2592000)
  pub idle_within : c.session_idle_ttl ≤ c.session_absolute_ttl
  pub access_ttl : (60 ≤ c.jwt_access_ttl) × (c.jwt_access_ttl ≤ 86400)
  pub invite_ttl : (300 ≤ c.operator_invite_ttl) × (c.operator_invite_ttl ≤ 2592000)
  pub join_ttl : (30 ≤ c.join_token_ttl) × (c.join_token_ttl ≤ 1800)
  pub code_ttl : (30 ≤ c.desktop_exchange_code_ttl) × (c.desktop_exchange_code_ttl ≤ 900)
  pub cidrs :
      (all is_prefix c.auth_bootstrap_allowed_cidrs ≡ true)
      × (0 < length c.auth_bootstrap_allowed_cidrs)
  pub hosts : 0 < length c.desktop_exchange_callback_hosts
  pub secret : 32 ≤ length c.jwt_secret
  pub previous : (c.jwt_secret_previous ≡ []) ⊎ (32 ≤ length c.jwt_secret_previous)
  pub client : (is_empty c.platform_client_id ≡ false) × (is_empty c.platform_client_secret ≡ false)
  pub oidc : is_empty c.oidc_issuer_url ≡ is_empty c.oidc_audience
  pub cookies :
      (is_empty c.session_cookie_name ≡ false)
      × (is_empty c.csrf_cookie_name ≡ false)
      × (is_empty c.csrf_header_name ≡ false)

abbrev loaded : Config → Result ConfigError Config
loaded c = ok c

loaded-same : (a b : Config) → loaded a ≡ ok b → a ≡ b
loaded-same a b h = ap (λ (r : Result ConfigError Config). elim r [ ok c ↦ c | err _ ↦ a ]) h

or_else-filled : (s other : Text) → is_empty other ≡ false → is_empty (or_else s other) ≡ false
or_else-filled [] other h = h
or_else-filled (c ∷ s) other h = refl

-- A configuration that was loaded has lifetimes within their bounds, with the idle one not above the
-- absolute one, networks that all parse and hosts, at least one of each, a secret of at least 32 bytes
-- and a previous one that is empty or has as many, a client with a secret, an OIDC issuer exactly if
-- there is an audience, and names of cookies and of the CSRF header that are not empty.
pub load-InBounds :
    (is_prefix : Text → Bool) (env : Env) (c : Config)
    → load is_prefix env ≡ ok c
    → InBounds is_prefix c
unfolding load
load-InBounds is_prefix env c h =
    let (sessions, e1, h1) = >>=-ok (load_sessions env) _ h in
    let (cidrs, e2, h2) = >>=-ok (load_cidrs is_prefix env) _ h1 in
    let (database, e3, h3) = >>=-ok (load_database env) _ h2 in
    let (ttls, e4, h4) = >>=-ok (load_ttls env) _ h3 in
    let (hosts, e5, h5) = >>=-ok (load_hosts env) _ h4 in
    let (secrets, e6, h6) = >>=-ok (load_secrets env) _ h5 in
    let (version, e7, h7) = >>=-ok (load_version env) _ h6 in
    let (oidc, e8, h8) = >>=-ok (load_oidc env) _ h7 in
    let (idle, abs) = sessions in
    let (access, invite, join, code) = ttls in
    let (secret, previous, client_id, client_secret) = secrets in
    let (low, week, absolute, below, high) = load_sessions-bounds env idle abs e1 in
    let (a, a', i, i', j, j', d, d') = load_ttls-bounds env access invite join code e4 in
    let (long, older, id, key) =
      load_secrets-bounds env secret previous client_id client_secret e6 in
    rw (sym (loaded-same _ c h8)) (record {
      idle_ttl = (low, week);
      absolute_ttl = (absolute, high);
      idle_within = below;
      access_ttl = (a, a');
      invite_ttl = (i, i');
      join_ttl = (j, j');
      code_ttl = (d, d');
      cidrs = load_cidrs-bounds is_prefix env cidrs e2;
      hosts = load_hosts-bounds env hosts e5;
      secret = long;
      previous = older;
      client = (id, key);
      oidc = load_oidc-bounds env oidc.0 oidc.1 e8;
      cookies = (
        or_else-filled (setting env (codes "SESSION_COOKIE_NAME") (codes "gl_session"))
            (codes "gl_session") refl,
        or_else-filled (setting env (codes "CSRF_COOKIE_NAME") (codes "gl_csrf")) (codes "gl_csrf")
            refl,
        or_else-filled (setting env (codes "CSRF_HEADER_NAME") (codes "X-CSRF-Token"))
            (codes "X-CSRF-Token") refl,
      );
    })
