-- ===== src/Session/Tests.antt =====
-- Sessions on a concrete table; here a token is its own hash.
use go_lab.Prelude.{
  ◌≤◌, ◌<◌, ◌≡◌, refl, ◌≢◌, ◌↔◌, pos, int_eq, Text, codes, text_eq, true, false, none, some, List,
  [], ◌∷◌, arith, All,
}
use go_lab.Sql.{Call, ok, steady}
use go_lab.Sql.Rows.{find}
use go_lab.Session.{
  Session, Db, has_hash, new_session, create_session, revoke_session, validate_session, revoke_all,
  cap_at, is_live, is_active_of, extend_session,
}
use go_lab.Session.Effects.{Step, validate_by, extend_from, run}
use go_lab.Session.Lifetime.{logout_ends, absolute_lifetime}
use go_lab.Session.Answers.{validate-ok_iff, validate_extends, revoke_all_clears}

abbrev plain : Text → Text
plain t = t

abbrev fresh : Db
fresh = record {
  connected = true;
  idle_ttl = 10;
  abs_ttl = 25;
  users = record { id = pos 3; deleted_at = none } ∷ [];
  sessions = [];
  next_id = 1;
}

-- The session of user 3 that a login at time 100 makes.
abbrev session_3 : Session
session_3 = new_session plain (steady 100 100) (pos 3) (codes "tok") (codes "") (codes "") fresh

abbrev signed_in : Db
signed_in = record fresh { sessions = session_3 ∷ []; next_id = 2 }

login :
    create_session plain (steady 100 100) (pos 3) (codes "tok") (codes "") (codes "") fresh
    ≡ (ok tt, signed_in)
unfolding create_session
login = refl

found : find (has_hash (codes "tok")) signed_in.sessions ≡ some session_3
unfolding text_eq
found = refl

abbrev calls : List (Call × Step)
calls = (steady 105 105, validate_by (codes "tok")) ∷ (steady 106 106, extend_from session_3) ∷ []

validates : (validate_session plain (steady 105 105) (codes "tok") signed_in).0 ≡ ok (pos 3)
unfolding validate_session text_eq int_eq
validates = refl

logout : (revoke_session plain (steady 103 103) (codes "tok") signed_in).0 ≡ ok tt
unfolding revoke_session
logout = refl

-- A validation that had read the session before the logout does not see that its UPDATE has changed
-- no row, and answers the user.
in_flight :
    (extend_session plain
      (steady 104 104)
      session_3
      (revoke_session plain (steady 103 103) (codes "tok") signed_in).1).0
    ≡ ok (pos 3)
unfolding extend_session
in_flight = refl

logout_ends_example :
    (validate_session plain
      (steady 107 107)
      (codes "tok")
      (run plain calls (revoke_session plain (steady 103 103) (codes "tok") signed_in).1)).0
    ≢ ok (pos 3)
logout_ends_example =
    logout_ends plain (steady 103 103) (codes "tok") signed_in session_3 calls (steady 107 107)
      (pos 3) (tt, tt) found logout

made :
    (create_session plain (steady 100 100) (pos 3) (codes "tok") (codes "") (codes "") fresh).0
    ≡ ok tt
unfolding create_session
made = refl

absolute_lifetime_example :
    (validate_session plain (steady 125 125) (codes "tok") (
      run plain calls
        (create_session plain
          (steady 100 100)
          (pos 3)
          (codes "tok")
          (codes "")
          (codes "")
          fresh).1)).0
    ≢ ok (pos 3)
absolute_lifetime_example =
    absolute_lifetime plain (steady 100 100) (pos 3) (codes "tok") (codes "") (codes "") fresh calls
      (steady 125 125) (pos 3) tt made (omega arith)

validate-ok_iff_example :
    ((validate_session plain (steady 105 105) (codes "tok") signed_in).0 ≡ ok (pos 3)) ↔ (
      (is_live signed_in session_3 ≡ true)
      × (session_3.revoked_at ≡ none)
      × (105 < session_3.absolute_expires_at)
      × (105 < session_3.expires_at))
validate-ok_iff_example =
    validate-ok_iff plain 105 105 (codes "tok") signed_in session_3 refl (tt, tt) found

validate_extends_run :
    (pos 3 ≡ session_3.user_id)
    × (find
          (has_hash (codes "tok"))
          (validate_session plain (steady 105 105) (codes "tok") signed_in).1.sessions
        ≡ some (record session_3 { last_seen_at = 105; expires_at = cap_at 115 125 }))
    × (cap_at 115 125 ≤ 125)
validate_extends_run =
    validate_extends plain 105 105 (codes "tok") signed_in session_3 (pos 3) (tt, tt) found
      validates

nobody_revoked : (revoke_all plain (steady 103 103) (pos 9) signed_in).0 ≡ ok 0
unfolding revoke_all int_eq
nobody_revoked = refl

revoke_all_clears_run :
    All
      (λ x. is_active_of plain (pos 9) x ≡ false)
      (revoke_all plain (steady 103 103) (pos 9) signed_in).1.sessions
    × (find
          (has_hash (codes "tok"))
          (revoke_all plain (steady 103 103) (pos 9) signed_in).1.sessions
        ≡ some session_3)
revoke_all_clears_run =
    revoke_all_clears plain (steady 103 103) (pos 9) 0 signed_in (codes "tok") session_3
      nobody_revoked found (λ e. cc)
