-- ===== src/Config.antt =====
-- api/config/config.go: the configuration that `Load` reads from the environment, where a variable
-- that is not set reads as the empty text. Times to live are in seconds.
pub mod Bounds
mod Tests
use go_lab.Prelude.{
  ℕ, ℤ, pos, negsuc, Text, codes, text_eq, is_empty, Bool, true, false, ◌&&◌, ◌||◌, not, Option,
  none, some, is_some, List, [], ◌∷◌, map, filter, all, leb, ltb, length, if◌then◌else◌,
}
use go_lab.Strings.{trim_space, split, to_lower}
use go_lab.Strconv.{atoi}
use go_lab.Sql.{Result, ok, err, ◌>>=◌, ◌>>◌, guard}

abbrev pub Env : Type 0
Env = Text → Text

-- `out_of_range` names the variable, `missing` a required one.
pub data ConfigError : Type 0 where
  out_of_range missing : Text → ConfigError
  absolute_below_idle bad_cidr no_cidr no_host short_secret short_previous_secret no_client
        oidc_half :
      ConfigError

pub data SameSite : Type 0 where
  strict none_mode lax : SameSite

-- `Config`
pub record Config : Type 0 where
  pub api_port : Text
  pub db_host : Text
  pub db_port : Text
  pub db_user : Text
  pub db_pass : Text
  pub db_name : Text
  pub cors_allowed_origins : List Text
  pub jwt_secret : Text
  pub jwt_issuer : Text
  pub jwt_audience : Text
  pub jwt_access_ttl : ℕ
  pub operator_invite_ttl : ℕ
  pub join_token_ttl : ℕ
  pub desktop_exchange_code_ttl : ℕ
  pub desktop_exchange_callback_hosts : List Text
  pub platform_client_id : Text
  pub platform_client_secret : Text
  pub migration_expected_version : ℕ
  pub gin_mode : Text
  pub session_cookie_name : Text
  pub session_cookie_secure : Bool
  pub session_same_site : SameSite
  pub session_idle_ttl : ℕ
  pub session_absolute_ttl : ℕ
  pub auth_bootstrap_enabled : Bool
  pub auth_bootstrap_allowed_cidrs : List Text
  pub jwt_active_key_id : Text
  pub jwt_secret_previous : Text
  pub csrf_cookie_name : Text
  pub csrf_header_name : Text
  pub oidc_issuer_url : Text
  pub oidc_audience : Text
  pub redis_url : Text
  pub trusted_proxies : List Text

abbrev pub or_else : Text → Text → Text
or_else s other = if is_empty s then other else s

-- `envOrDefault`
abbrev pub env_or_default : Env → Text → Text → Text
env_or_default env key fallback = or_else (env key) fallback

abbrev is_yes : Text → Bool
is_yes raw =
    let v = trim_space (to_lower raw) in
    text_eq v (codes "1") || (text_eq v (codes "true") || text_eq v (codes "yes"))

-- `parseEnvBoolDefaultTrue` and `parseEnvBoolDefaultFalse`
unfoldable pub env_bool : Bool → Env → Text → Bool
env_bool default env key = if is_empty (trim_space (env key)) then default else is_yes (env key)

-- `parseSameSite`
unfoldable pub same_site : Text → SameSite
same_site s =
    let v = trim_space (to_lower s) in
    if text_eq v (codes "strict")
    then strict
    else if text_eq v (codes "none")
    then none_mode
    else lax

abbrev number_in : ℕ → ℕ → Option ℤ → Option ℕ
number_in lo hi none = none
number_in lo hi (some (negsuc n)) = none
number_in lo hi (some (pos n)) = if ltb n lo || ltb hi n then none else some n

abbrev or_error : ConfigError → Option ℕ → Result ConfigError ℕ
or_error e none = err e
or_error e (some n) = ok n

-- A time to live between two bounds.
unfoldable pub read_ttl : Env → Text → Text → ℕ → ℕ → Result ConfigError ℕ
read_ttl env key fallback lo hi =
    or_error (out_of_range key)
      (number_in lo hi (atoi (trim_space (env_or_default env key fallback))))

abbrev is_filled : Text → Bool
is_filled s = not (is_empty s)

-- The parts of a list with commas that are not blank, trimmed.
unfoldable pub parts : Text → List Text
parts raw = filter is_filled (map trim_space (split b',' raw))

-- The session lifetimes.
unfoldable pub load_sessions : Env → Result ConfigError (ℕ × ℕ)
load_sessions env = do
  idle ← read_ttl env (codes "SESSION_IDLE_TTL_SECONDS") (codes "1800") 60 604800
  abs ← read_ttl env (codes "SESSION_ABSOLUTE_TTL_SECONDS") (codes "86400") 300 2592000
  guard (leb idle abs) absolute_below_idle
  ok (idle, abs)

-- The networks of the bootstrap endpoint; `is_prefix` tells whether `netip.ParsePrefix` succeeds.
unfoldable pub load_cidrs : (Text → Bool) → Env → Result ConfigError (List Text)
load_cidrs is_prefix env = do
  let cidrs = parts (
      trim_space
        (env_or_default env (codes "AUTH_BOOTSTRAP_ALLOWED_CIDRS") (codes "127.0.0.1/32,::1/128")))
  guard (all is_prefix cidrs) bad_cidr
  guard (ltb 0 (length cidrs)) no_cidr
  ok cidrs

-- Host and user of the database.
unfoldable pub load_database : Env → Result ConfigError (Text × Text)
load_database env = do
  let host = trim_space (env (codes "DB_HOST"))
  let user = trim_space (env (codes "DB_USER"))
  guard (is_filled host) (missing (codes "DB_HOST"))
  guard (is_filled user) (missing (codes "DB_USER"))
  ok (host, user)

-- The lifetimes of access tokens, invites, join tokens and exchange codes.
unfoldable pub load_ttls : Env → Result ConfigError (ℕ × ℕ × ℕ × ℕ)
load_ttls env = do
  access ← read_ttl env (codes "JWT_ACCESS_TTL_SECONDS") (codes "900") 60 86400
  invite ← read_ttl env (codes "OPERATOR_INVITE_TTL_SECONDS") (codes "86400") 300 2592000
  join ← read_ttl env (codes "JOIN_TOKEN_TTL_SECONDS") (codes "120") 30 1800
  code ← read_ttl env (codes "DESKTOP_EXCHANGE_CODE_TTL_SECONDS") (codes "120") 30 900
  ok (access, invite, join, code)

-- The hosts of desktop callbacks.
unfoldable pub load_hosts : Env → Result ConfigError (List Text)
load_hosts env = do
  let raw = trim_space (
      env_or_default env (codes "DESKTOP_EXCHANGE_CALLBACK_HOSTS")
        (codes "localhost,127.0.0.1,::1"))
  let hosts = map to_lower (parts raw)
  guard (ltb 0 (length hosts)) no_host
  ok hosts

-- The secrets: the present one, the previous one, and those of the platform client.
unfoldable pub load_secrets : Env → Result ConfigError (Text × Text × Text × Text)
load_secrets env = do
  let secret = trim_space (env (codes "JWT_SECRET"))
  let previous = trim_space (env (codes "JWT_SECRET_PREVIOUS"))
  let client_id = trim_space (env (codes "PLATFORM_CLIENT_ID"))
  let client_secret = env (codes "PLATFORM_CLIENT_SECRET")
  guard (leb 32 (length secret)) short_secret
  guard (is_empty previous || leb 32 (length previous)) short_previous_secret
  guard (is_filled client_id && is_filled client_secret) no_client
  ok (secret, previous, client_id, client_secret)

abbrev at_least_0 : Option ℤ → Option ℕ
at_least_0 none = none
at_least_0 (some (negsuc n)) = none
at_least_0 (some (pos n)) = some n

unfoldable pub load_version : Env → Result ConfigError ℕ
load_version env =
    let v = trim_space (env (codes "MIGRATION_EXPECTED_VERSION")) in
    if is_empty v
    then ok 0
    else or_error (out_of_range (codes "MIGRATION_EXPECTED_VERSION")) (at_least_0 (atoi v))

unfoldable pub load_oidc : Env → Result ConfigError (Text × Text)
load_oidc env = do
  let issuer = trim_space (env (codes "OIDC_ISSUER_URL"))
  let audience = trim_space (env (codes "OIDC_AUDIENCE"))
  guard (is_filled issuer && is_filled audience || is_empty issuer && is_empty audience) oidc_half
  ok (issuer, audience)

-- Without a list the Angular client's development server is allowed.
unfoldable pub cors_origins : Env → List Text
cors_origins env =
    let raw = trim_space (env (codes "CORS_ALLOWED_ORIGINS")) in
    if is_empty raw then codes "http://localhost:4200" ∷ [] else parts raw

-- A trimmed setting with a default for one that is not set.
abbrev pub setting : Env → Text → Text → Text
setting env key fallback = trim_space (env_or_default env key fallback)

-- `Load`
unfoldable pub load : (Text → Bool) → Env → Result ConfigError Config
load is_prefix env = do
  (idle, abs) ← load_sessions env
  cidrs ← load_cidrs is_prefix env
  (host, user) ← load_database env
  (access, invite, join, code) ← load_ttls env
  hosts ← load_hosts env
  (secret, previous, client_id, client_secret) ← load_secrets env
  version ← load_version env
  (issuer, audience) ← load_oidc env
  ok (record {
    api_port = or_else (trim_space (env (codes "API_PORT"))) (codes "5000");
    db_host = host;
    db_port = or_else (trim_space (env (codes "DB_PORT"))) (codes "3306");
    db_user = user;
    db_pass = env (codes "DB_PASS");
    db_name = or_else (trim_space (env (codes "DB_NAME"))) (codes "suite_platform");
    cors_allowed_origins = cors_origins env;
    jwt_secret = secret;
    jwt_issuer = setting env (codes "JWT_ISSUER") (codes "suite-platform");
    jwt_audience = setting env (codes "JWT_AUDIENCE") (codes "suite-platform-api");
    jwt_access_ttl = access;
    operator_invite_ttl = invite;
    join_token_ttl = join;
    desktop_exchange_code_ttl = code;
    desktop_exchange_callback_hosts = hosts;
    platform_client_id = client_id;
    platform_client_secret = client_secret;
    migration_expected_version = version;
    gin_mode = setting env (codes "GIN_MODE") (codes "release");
    session_cookie_name =
        or_else (setting env (codes "SESSION_COOKIE_NAME") (codes "gl_session"))
          (codes "gl_session");
    session_cookie_secure = env_bool true env (codes "SESSION_COOKIE_SECURE");
    session_same_site = same_site (env_or_default env (codes "SESSION_SAMESITE") (codes "Lax"));
    session_idle_ttl = idle;
    session_absolute_ttl = abs;
    auth_bootstrap_enabled = env_bool false env (codes "AUTH_BOOTSTRAP_ENABLED");
    auth_bootstrap_allowed_cidrs = cidrs;
    jwt_active_key_id = trim_space (env (codes "JWT_ACTIVE_KEY_ID"));
    jwt_secret_previous = previous;
    csrf_cookie_name =
        or_else (setting env (codes "CSRF_COOKIE_NAME") (codes "gl_csrf")) (codes "gl_csrf");
    csrf_header_name =
        or_else (setting env (codes "CSRF_HEADER_NAME") (codes "X-CSRF-Token"))
          (codes "X-CSRF-Token");
    oidc_issuer_url = issuer;
    oidc_audience = audience;
    redis_url = trim_space (env (codes "REDIS_URL"));
    trusted_proxies = parts (trim_space (env (codes "TRUSTED_PROXIES")));
  })
