-- ===== src/Middleware/Limit.antt =====
-- api/middleware/ratelimit.go and ratelimit_redis.go: at most `rpm` requests of an address in one
-- window. Times are seconds; the map by address is a function.
pub mod Bound
use go_lab.Prelude.{
  ℕ, ◌+◌, ◌-◌, ◌*◌, ◌/◌, ℤ, pos, negsuc, Text, codes, text_eq, is_empty, Bool, true, false, not,
  Option, none, some, List, [], ◌∷◌, ◌++◌, map, ltb, leb, ◌==◌, is_positive, if◌then◌else◌,
}
use go_lab.Strconv.{itoa}
use go_lab.Http.{Code, rate_limited, Gate, next, abort}

-- `ipWindow`
pub record IpWindow : Type 0 where
  pub window_start : ℕ
  pub count : ℕ

-- What the closure of the limiter keeps.
pub record Limiter : Type 0 where
  pub by_ip : Text → Option IpWindow
  pub last_sweep : ℕ

-- `time.Minute`
abbrev pub win : ℕ
win = 60

-- The limit that NewFixedWindowLimiter settles on.
unfoldable pub limit_of : ℤ → ℕ
limit_of (pos n) = if ltb 0 n then n else 30
limit_of (negsuc n) = 30

abbrev pub is_old : ℕ → IpWindow → Bool
is_old now w = leb (w.window_start + 10 * win) now

abbrev drop_old : ℕ → Option IpWindow → Option IpWindow
drop_old now none = none
drop_old now (some w) = if is_old now w then none else some w

abbrev pub swept : ℕ → Limiter → Limiter
swept now l =
    if leb (l.last_sweep + win) now
    then record { by_ip = λ ip. drop_old now (l.by_ip ip); last_sweep = now }
    else l

-- The window of an address: a new one if there is none, and from `now` on if it is over.
abbrev pub current : ℕ → Option IpWindow → IpWindow
current now none = record { window_start = now; count = 0 }
current now (some w) =
    if leb (w.window_start + win) now then record { window_start = now; count = 0 } else w

abbrev set : Text → IpWindow → (Text → Option IpWindow) → Text → Option IpWindow
set ip w m k = if text_eq ip k then some w else m k

abbrev counted : IpWindow → IpWindow
counted w = record w { count = w.count + 1 }

-- The in-process part, under the mutex: whether a request passes, and the limiter behind it.
unfoldable pub allow_local : ℕ → ℕ → Text → Limiter → Bool × Limiter
allow_local rpm now ip l =
    let l' = swept now l in
    let w = current now (l'.by_ip ip) in
    if leb rpm w.count
    then (false, record l' { by_ip = set ip w l'.by_ip })
    else (true, record l' { by_ip = set ip (counted w) l'.by_ip })

-- `strings.ReplaceAll` of ":" and of "%" by "_".
abbrev safe_byte : ℕ → ℕ
safe_byte b = if b == b':' then b'_' else if b == b'%' then b'_' else b

abbrev scope_of : Text → Text
scope_of scope = if is_empty scope then codes "default" else scope

-- The key of an address in one minute.
abbrev redis_key : Text → Text → ℕ → Text
redis_key scope ip now =
    codes "ratelimit:"
    ++ scope
    ++ codes ":"
    ++ map safe_byte ip
    ++ codes ":"
    ++ itoa (pos (now / 60))

-- `fixedWindowRedisAllow`, on the counters that `INCR` of a key reads and writes; `none` is an
-- error of Redis. The expiry of a key does not outlive its minute, in which no other key is equal.
unfoldable pub allow_redis : (Text → Option ℕ) → Text → Text → ℕ → ℕ → Option Bool
allow_redis incr scope ip now limit = elim (incr (redis_key scope ip now)) [
  | none ↦ none
  | some n ↦ some (leb n limit)
]

abbrev verdict : Bool → Gate (Unit {0})
verdict true = next tt
verdict false = abort 429 rate_limited

-- The handler that NewFixedWindowLimiter returns, without Redis (`none`) or with it.
unfoldable pub limit_request :
    ℤ → Text → Option (Text → Option ℕ) → ℕ → Text → Limiter → Gate (Unit {0}) × Limiter
limit_request rpm scope none now ip l =
    let (passed, l') = allow_local (limit_of rpm) now ip l in (verdict passed, l')
limit_request rpm scope (some incr) now ip l =
    elim (allow_redis incr (scope_of scope) ip now (limit_of rpm)) [
      | none ↦ (let (passed, l') = allow_local (limit_of rpm) now ip l in (verdict passed, l'))
      | some passed ↦ (verdict passed, l)
    ]
