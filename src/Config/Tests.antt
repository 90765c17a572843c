-- ===== src/Config/Tests.antt =====
-- Configurations read from small environments.
use go_lab.Prelude.{
  ◌≡◌, refl, Text, codes, text_eq, Bool, true, false, List, [], ◌∷◌, if◌then◌else◌,
}
use go_lab.Strings.{trim_space, split}
use go_lab.Strconv.{atoi}
use go_lab.Sql.{ok, err}
use go_lab.Config.{
  SameSite, Env, missing, Config, parts, read_ttl, load_sessions, load_cidrs, load_database,
  load_ttls, load_hosts, load_secrets, load_version, load_oidc, cors_origins, env_bool, same_site,
  load,
}
use go_lab.Config.Bounds.{InBounds, load-InBounds}

abbrev lookup : List (Text × Text) → Env
lookup [] key = []
lookup ((k, v) ∷ rest) key = let later = lookup rest key in if text_eq k key then v else later

abbrev env : Env
env = lookup (
    (codes "DB_HOST", codes "db")
    ∷ (codes "DB_USER", codes "lab ")
    ∷ (codes "JWT_SECRET", codes "0123456789abcdef0123456789abcdef")
    ∷ (codes "PLATFORM_CLIENT_ID", codes "cli")
    ∷ (codes "PLATFORM_CLIENT_SECRET", codes "key")
    ∷ (codes "CORS_ALLOWED_ORIGINS", codes "https://a, ,https://b")
    ∷ [])

abbrev any_prefix : Text → Bool
any_prefix s = true

ports :
    load_database (λ key. if text_eq key (codes "DB_HOST") then codes "db" else [])
    ≡ err (missing (codes "DB_USER"))
unfolding load_database text_eq trim_space
ports = refl

origins : cors_origins env ≡ codes "https://a" ∷ codes "https://b" ∷ []
unfolding cors_origins parts split text_eq trim_space
origins = refl

short_absolute : load_sessions (λ key. codes "400") ≡ ok (400, 400)
unfolding load_sessions read_ttl atoi trim_space
short_absolute = refl

abbrev loaded : Config
loaded = record {
  api_port = codes "5000";
  db_host = codes "db";
  db_port = codes "3306";
  db_user = codes "lab";
  db_pass = [];
  db_name = codes "suite_platform";
  cors_allowed_origins = codes "https://a" ∷ codes "https://b" ∷ [];
  jwt_secret = codes "0123456789abcdef0123456789abcdef";
  jwt_issuer = codes "suite-platform";
  jwt_audience = codes "suite-platform-api";
  jwt_access_ttl = 900;
  operator_invite_ttl = 86400;
  join_token_ttl = 120;
  desktop_exchange_code_ttl = 120;
  desktop_exchange_callback_hosts = codes "localhost" ∷ codes "127.0.0.1" ∷ codes "::1" ∷ [];
  platform_client_id = codes "cli";
  platform_client_secret = codes "key";
  migration_expected_version = 0;
  gin_mode = codes "release";
  session_cookie_name = codes "gl_session";
  session_cookie_secure = true;
  session_same_site = SameSite.lax;
  session_idle_ttl = 1800;
  session_absolute_ttl = 86400;
  auth_bootstrap_enabled = false;
  auth_bootstrap_allowed_cidrs = codes "127.0.0.1/32" ∷ codes "::1/128" ∷ [];
  jwt_active_key_id = [];
  jwt_secret_previous = [];
  csrf_cookie_name = codes "gl_csrf";
  csrf_header_name = codes "X-CSRF-Token";
  oidc_issuer_url = [];
  oidc_audience = [];
  redis_url = [];
  trusted_proxies = [];
}

load-InBounds_example : InBounds any_prefix loaded
unfolding load load_sessions read_ttl atoi trim_space text_eq load_cidrs parts split load_database
    load_ttls load_hosts load_secrets load_version load_oidc cors_origins env_bool same_site
load-InBounds_example = load-InBounds any_prefix env loaded refl
