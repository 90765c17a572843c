-- ===== src/Throttle/Lockout.antt =====
-- The lockout of login_throttle.go over sequences of logins.
use go_lab.Prelude.{
  ℕ, ◌+◌, ◌-◌, ◌≤◌, ◌<◌, ◌≡◌, refl, ◌∙◌, ◌⊎◌, inl, inr, Text, text_eq, text_eq_iff, true, false,
  Option, none, some, List, [], ◌∷◌, arith, All, ltb, ◌==◌, if◌then◌else◌, Bool-cases,
}
use go_lab.Throttle.{
  EmailState, Throttle, login_email_locked, record_login_failure, clear_throttle, lockout_duration,
}

-- A failed login at a time, or a login that succeeds.
pub data Event : Type 0 where
  fails : ℕ → Text → Event
  succeeds : Text → Event

unfoldable pub run : List Event → Throttle → Throttle
run [] m = m
run (fails now email ∷ es) m = run es (record_login_failure now email m)
run (succeeds email ∷ es) m = run es (clear_throttle email m)

-- The failures of an e-mail.
abbrev pub failures_of : Text → List Event → ℕ
failures_of email [] = 0
failures_of email (fails now k ∷ es) = (if text_eq k email then 1 else 0) + failures_of email es
failures_of email (succeeds k ∷ es) = failures_of email es

-- No success of the e-mail.
abbrev pub Spares : Text → Event → Type 0
Spares email (fails now k) = Unit
Spares email (succeeds k) = text_eq k email ≡ false

-- The state after so many failures, from none.
unfoldable pub counted : ℕ → Option EmailState
counted n = if n == 0 then none else some (record { failures = n; locked_until = 0 })

pub record_login_failure-own :
    (now m : ℕ) (k email : Text) (t : Throttle)
    → text_eq k email ≡ true
    → t email ≡ counted m
    → m < 4
    → record_login_failure now k t email ≡ counted (m + 1)
unfolding record_login_failure counted
record_login_failure-own now m k email t e c l =
    let same = (text_eq_iff k email).0 e in
    let at : t k ≡ counted m = rw same c in ground (arith, e, at, l)

record_login_failure-other :
    (now : ℕ) (k email : Text) (t : Throttle)
    → text_eq k email ≡ false
    → record_login_failure now k t email ≡ t email
unfolding record_login_failure
record_login_failure-other now k email t e = ground (arith, e)

clear_throttle-other :
    (k email : Text) (t : Throttle) → text_eq k email ≡ false → clear_throttle k t email ≡ t email
unfolding clear_throttle
clear_throttle-other k email t e = ground (arith, e)

run_counts :
    (email : Text) (es : List Event) (m : ℕ) (t : Throttle)
    → All (Spares email) es
    → t email ≡ counted m
    → m + failures_of email es ≤ 4
    → run es t email ≡ counted (m + failures_of email es)
unfolding run
run_counts email [] m t h c l = ground (arith, c)
run_counts email (succeeds k ∷ es) m t (s, h) c l =
    run_counts email es m (clear_throttle k t) h (clear_throttle-other k email t s ∙ c) l
run_counts email (fails now k ∷ es) m t (s, h) c l = elim (Bool-cases (text_eq k email)) [
  | inl e ↦
      let few : (m + 1) + failures_of email es ≤ 4 = ground (arith, e, l) in
      let small : m < 4 = omega (arith, few) in
      let rest =
        run_counts email es (m + 1) (record_login_failure now k t) h
          (record_login_failure-own now m k email t e c small) few in
      let sum : m + failures_of email (fails now k ∷ es) ≡ (m + 1) + failures_of email es =
        ground (arith, e) in
      rw sum rest
  | inr e ↦
      let few : m + failures_of email es ≤ 4 = ground (arith, e, l) in
      let rest =
        run_counts email es m (record_login_failure now k t) h
          (record_login_failure-other now k email t e ∙ c) few in
      let sum : m + failures_of email (fails now k ∷ es) ≡ m + failures_of email es =
        ground (arith, e) in
      rw sum rest
]

-- Of an e-mail that the throttle does not know, up to four failures, with no success between them
-- and whatever happens to other e-mails, lock nothing.
pub few_failures :
    (email : Text) (es : List Event) (t : Throttle) (now : ℕ)
    → All (Spares email) es
    → t email ≡ none
    → failures_of email es ≤ 4
    → login_email_locked now email (run es t) ≡ none
unfolding login_email_locked counted
few_failures email es t now h c l =
    let state = run_counts email es 0 t h c (omega (arith, l)) in ground (arith, state)

-- After four failures of an e-mail that the throttle did not know, with no success between them, a
-- fifth one locks it for exactly the lockout duration from its time on.
pub fifth_failure :
    (email : Text) (es : List Event) (t : Throttle) (last now : ℕ)
    → All (Spares email) es
    → t email ≡ none
    → failures_of email es ≡ 4
    → login_email_locked now email (record_login_failure last email (run es t))
      ≡ (if ltb now (last + lockout_duration) then some (last + lockout_duration - now) else none)
unfolding login_email_locked counted record_login_failure
fifth_failure email es t last now h c l =
    let state = run_counts email es 0 t h c (omega (arith, l)) in
    let same = (text_eq_iff email email).1 refl in ground (arith, state, same, l)

-- An event while the e-mail is locked: a failure of it before the lock ends, or anything of another.
abbrev pub During : Text → ℕ → Event → Type 0
During email until (fails now k) = (text_eq k email ≡ false) ⊎ (now < until)
During email until (succeeds k) = text_eq k email ≡ false

kept :
    (email : Text) (es : List Event) (t : Throttle) (st : EmailState)
    → t email ≡ some st
    → All (During email st.locked_until) es
    → run es t email ≡ some st
unfolding run record_login_failure
kept email [] t st e h = e
kept email (succeeds k ∷ es) t st e (s, h) =
    kept email es (clear_throttle k t) st (clear_throttle-other k email t s ∙ e) h
kept email (fails now k ∷ es) t st e (inl s, h) =
    kept email es (record_login_failure now k t) st (record_login_failure-other now k email t s ∙ e)
      h
kept email (fails now k ∷ es) t st e (inr s, h) =
    let eq = (text_eq_iff k email).0 in
    let at : (text_eq k email ≡ true) → t k ≡ some st = λ same. rw (eq same) e in
    let one : record_login_failure now k t email ≡ some st = elim (Bool-cases (text_eq k email)) [
      | inl same ↦ let here = at same in ground (arith, same, here, s)
      | inr other ↦ ground (arith, other, e)
    ] in
    kept email es (record_login_failure now k t) st one h

-- While an e-mail is locked, further failures of it and anything of other e-mails leave the time
-- for which it stays locked as it is.
pub lock_kept :
    (email : Text) (es : List Event) (t : Throttle) (st : EmailState) (now : ℕ)
    → t email ≡ some st
    → All (During email st.locked_until) es
    → login_email_locked now email (run es t) ≡ login_email_locked now email t
unfolding login_email_locked
lock_kept email es t st now e h = let same = kept email es t st e h in ground (arith, same, e)
