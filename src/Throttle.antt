-- ===== src/Throttle.antt =====
-- api/myhandlers/login_throttle.go: the lockout of an e-mail after failed passwords. Times are
-- seconds; the map by e-mail is a function.
pub mod Lockout
mod Tests
use go_lab.Prelude.{
  ℕ, ◌+◌, ◌-◌, ℤ, pos, negsuc, Text, codes, text_eq, Bool, true, false, Option, none, some, List,
  [], ◌∷◌, ltb, leb, ◌==◌, if◌then◌else◌,
}

-- `loginMaxFailuresPerEmail`, `loginLockoutDuration` and `loginFailKeyTTL`
abbrev pub max_failures : ℕ
max_failures = 5

abbrev pub lockout_duration : ℕ
lockout_duration = 900

abbrev pub fail_key_ttl : ℕ
fail_key_ttl = 3600

-- `loginEmailState`; the zero time is 0.
pub record EmailState : Type 0 where
  pub failures : ℕ
  pub locked_until : ℕ

abbrev pub Throttle : Type 0
Throttle = Text → Option EmailState

abbrev pub set : Text → Option EmailState → Throttle → Throttle
set email o m k = if text_eq email k then o else m k

abbrev pub retry_after : ℕ → Option EmailState → Option ℕ
retry_after now none = none
retry_after now (some st) = if ltb now st.locked_until then some (st.locked_until - now) else none

-- `loginEmailLocked` without Redis: how long the e-mail is locked for, if it is.
unfoldable pub login_email_locked : ℕ → Text → Throttle → Option ℕ
login_email_locked now email m = retry_after now (m email)

abbrev fresh : Option EmailState → EmailState
fresh none = record { failures = 0; locked_until = 0 }
fresh (some st) = st

abbrev pub failed : ℕ → EmailState → EmailState
failed now st =
    if ltb now st.locked_until
    then st
    else if leb max_failures (st.failures + 1)
    then record { failures = 0; locked_until = now + lockout_duration }
    else record st { failures = st.failures + 1 }

-- `recordLoginFailureKnownUser` without Redis
unfoldable pub record_login_failure : ℕ → Text → Throttle → Throttle
record_login_failure now email m = set email (some (failed now (fresh (m email)))) m

-- `recordLoginSuccessClearThrottle` without Redis
unfoldable pub clear_throttle : Text → Throttle → Throttle
clear_throttle email m = set email none m

-- `redisLoginEmailLocked`, on the answer of TTL; an error is `none`.
unfoldable pub redis_locked : Option ℤ → Option ℕ
redis_locked none = none
redis_locked (some (negsuc n)) = none
redis_locked (some (pos n)) = if ltb 0 n then some n else none

-- The commands that `redisRecordLoginFailure` sends after INCR of the failure key.
pub data RedisCommand : Type 0 where
  expire_failures set_lock : ℕ → RedisCommand
  delete_failures delete_both : RedisCommand

abbrev lock_commands : ℕ → List RedisCommand
lock_commands n =
    if leb max_failures n then set_lock lockout_duration ∷ delete_failures ∷ [] else []

-- `redisRecordLoginFailure`, on the answer of INCR.
unfoldable pub redis_record_failure : Option ℕ → List RedisCommand
redis_record_failure none = []
redis_record_failure (some n) =
    if n == 1 then expire_failures fail_key_ttl ∷ lock_commands n else lock_commands n

-- `recordLoginSuccessClearThrottle` with Redis: one DEL of the failure key and the lock key.
unfoldable pub redis_clear : List RedisCommand
redis_clear = delete_both ∷ []
