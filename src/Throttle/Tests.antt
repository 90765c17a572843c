-- ===== src/Throttle/Tests.antt =====
-- The lockout on concrete logins.
use go_lab.Prelude.{
  ◌+◌, ◌-◌, ◌≡◌, refl, inr, codes, text_eq, none, some, List, [], ◌∷◌, arith, All, ltb,
  if◌then◌else◌,
}
use go_lab.Throttle.{
  EmailState, Throttle, login_email_locked, record_login_failure, lockout_duration,
}
use go_lab.Throttle.Lockout.{
  Event, fails, succeeds, run, Spares, During, few_failures, fifth_failure, lock_kept,
}

abbrev nobody : Throttle
nobody _ = none

-- Four failures of "a@x", with a login of someone else between them.
abbrev four : List Event
four =
    fails 10 (codes "a@x")
    ∷ fails 20 (codes "a@x")
    ∷ fails 20 (codes "b@x")
    ∷ succeeds (codes "b@x")
    ∷ fails 30 (codes "a@x")
    ∷ fails 40 (codes "a@x")
    ∷ []

spared : All (Spares (codes "a@x")) four
unfolding text_eq
spared = (tt, (tt, (tt, (refl, (tt, (tt, tt))))))

count : go_lab.Throttle.Lockout.failures_of (codes "a@x") four ≡ 4
unfolding text_eq
count = refl

few_failures_run : login_email_locked 41 (codes "a@x") (run four nobody) ≡ none
few_failures_run = few_failures (codes "a@x") four nobody 41 spared refl (omega (arith, count))

fifth_failure_run :
    login_email_locked 60 (codes "a@x") (record_login_failure 50 (codes "a@x") (run four nobody))
    ≡ (if ltb 60 (50 + lockout_duration) then some (50 + lockout_duration - 60) else none)
fifth_failure_run = fifth_failure (codes "a@x") four nobody 50 60 spared refl count

abbrev locked : Throttle
locked _ = some (record { failures = 0; locked_until = 950 })

lock_kept_run :
    login_email_locked 70
      (codes "a@x")
      (run (fails 60 (codes "a@x") ∷ fails 65 (codes "a@x") ∷ []) locked)
    ≡ login_email_locked 70 (codes "a@x") locked
lock_kept_run =
    lock_kept (codes "a@x") (fails 60 (codes "a@x") ∷ fails 65 (codes "a@x") ∷ []) locked
      (record { failures = 0; locked_until = 950 }) 70 refl
      (inr (omega arith), (inr (omega arith), tt))
