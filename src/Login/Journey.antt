-- ===== src/Login/Journey.antt =====
-- AcceptOperatorInvite, LoginUser and ValidateSession one after the other.
use go_lab.Prelude.{
  ℕ, ◌+◌, ◌<◌, ◌≤◌, ◌≡◌, refl, ◌∙◌, ℤ, pos, Text, text_eq_iff, codes, is_empty, Bool, true, false,
  Option, none, some, List, [], ◌∷◌, arith, any, length, All,
}
use go_lab.Strings.{trim_space, equal_fold}
use go_lab.Sql.{ok, steady, after}
use go_lab.Sql.Rows.{find}
use go_lab.Http.{success}
use go_lab.Throttle.{login_email_locked}
use go_lab.Rbac.Roles.{PlatformRole}
use go_lab.Accounts.Granted.{user_of_row, any-map}
use go_lab.Accounts.{AccountError, Invite, is_present, clashes, user_auth_by_email, touch_login}
use go_lab.Login.Invites.{AcceptBody, accept, accept_operator_invite}
use go_lab.Login.Invited.{joined, accept_invite-open, user_auth_by_email-joined}
use go_lab.Password.{key_of, hash_text, validate_length, hash_password}
use go_lab.Password.Base64.{IsByte}
use go_lab.Password.RoundTrip.{hash_text-visible, verify-hash_password}
use go_lab.Session.{has_hash, is_live, is_live_user, new_session, validate_session}
use go_lab.Exchange.Tokens.{new_opaque_token}
use go_lab.Login.{
  World, Config, session_db, Request, set_session, set_csrf, Meta, record_event, normalize_email,
}
use go_lab.Login.SignIn.{open_session, login_user}
use go_lab.Login.Verified.{cleared}
use go_lab.Login.Enters.{login_user-enters, may_enter, new_session-validates, open_session-opens}

module _ (collates : Text → Text → Bool) (hash : Text → Text)
    (id_key : Text → Text → ℕ → ℕ → ℕ → ℕ → Text) (parse_address : Text → Option (Text × Text))
    (marshal : Meta → Text) (cfg : Config) (t1 d1 t2 d2 t3 d3 : ℕ) (salt bytes csrf : List ℕ)
    (r r' : Request) (i : Invite) (role : PlatformRole) where
  -- The state after the acceptance.
  entered : Text → Text → World → World
  entered stored name w =
      record_event ((steady t1 d1).driver 11) r (codes "auth_operator_invite_accepted")
        (some (pos w.accounts.next_user)) i.email none
        (record w { accounts = joined collates t1 d1 i role stored name w.accounts })

  accept_operator_invite-open :
      (body : AcceptBody) (stored : Text) (w : World)
      → validate_length body.password ≡ ok tt
      → hash_password id_key (some salt) body.password ≡ ok stored
      → is_empty (trim_space body.invite_token) ≡ false
      → normalize_email parse_address body.email ≡ some i.email
      → w.accounts.connected ≡ true
      → find
          (go_lab.Accounts.Invites.has_hash (hash (trim_space body.invite_token)))
          w.accounts.invites
        ≡ some i
      → i.consumed_at ≡ none
      → t1 < i.expires_at
      → find (λ (x : PlatformRole). collates x.name i.role_name) w.accounts.roles ≡ some role
      → i.linked_user_id ≡ none
      → any (clashes collates i.email (pos w.accounts.next_user)) w.accounts.accounts ≡ false
      → accept_operator_invite hash parse_address collates id_key true
          (steady t1 d1)
          (some salt)
          r
          (some body)
          w
        ≡ (
          success 201 (record {
            linked_user_id = pos w.accounts.next_user;
            email = i.email;
            role_name = i.role_name;
          }),
          entered stored (trim_space body.name) w,
        )
  unfolding accept_operator_invite accept entered equal_fold
  accept_operator_invite-open body stored w long hashed token normal up found unused live has_role
        fresh clear =
      let h = hash (trim_space body.invite_token) in
      let fold : equal_fold (trim_space i.email) (trim_space i.email) ≡ true =
        (text_eq_iff _ _).1 refl in
      let done =
        accept_invite-open collates t1 d1 i role stored (trim_space body.name) h i.email w.accounts
          up found unused live fold has_role fresh clear in
      ground (arith, long, hashed, token, normal, done)

  login_then_validates :
      (typed email password stored : Text) (uid : ℤ) (w : World)
      → normalize_email parse_address typed ≡ some email
      → user_auth_by_email collates (steady t2 d2) email w.accounts ≡ ok (uid, stored)
      → may_enter collates hash id_key parse_address marshal t2 email password (ok (uid, stored)) w
        ≡ true
      → is_present w.accounts uid ≡ true
      → w.accounts.connected ≡ true
      → any (has_hash (hash (new_opaque_token bytes))) w.sessions ≡ false
      → t3 < t2 + cfg.idle_ttl
      → t3 < t2 + cfg.abs_ttl
      → let signed =
          login_user collates hash id_key parse_address marshal true cfg
            (steady t2 d2)
            (some bytes)
            (some csrf)
            r'
            (some (typed, password))
            w in
        (signed.0 ≡ success 200 (record { user_id = uid; email = email }))
        × (signed.1 ≡ set_session (new_opaque_token bytes) ∷ set_csrf (new_opaque_token csrf) ∷ [])
        × ((validate_session hash
              (steady t3 d3)
              (new_opaque_token bytes)
              (session_db cfg signed.2)).0
            ≡ ok uid)
  unfolding touch_login
  login_then_validates typed email password stored uid w normal account allowed present up absent
        idle total =
      let w1 = cleared collates hash id_key parse_address marshal (steady t2 d2) email w in
      let raw = new_opaque_token bytes in
      let up' : w1.accounts.connected ≡ true = ground (arith, up) in
      let enters =
        login_user-enters collates hash id_key parse_address marshal cfg t2 d2 bytes csrf r' typed
          email password stored uid w normal account allowed in
      let (reply, cookies, sessions, accounts) =
        open_session-opens collates hash id_key parse_address marshal cfg t2 d2 bytes csrf r' email
          uid w1 up' absent in
      let signed =
        open_session collates hash id_key parse_address marshal cfg (steady t2 d2) (some bytes)
          (some csrf) r' email uid w1 in
      let new =
        new_session hash (after 2 (steady t2 d2)) uid raw (trim_space r'.client_ip) r'.user_agent
          (session_db cfg w1) in
      let users : w1.accounts.users ≡ w.accounts.users = ground (arith, up) in
      let live : is_live (session_db cfg signed.2) new ≡ true =
        rw (accounts, users) (any-map (is_live_user uid) user_of_row w.accounts.users ∙ present) in
      let joined' : signed.2.accounts.connected ≡ true = rw accounts up' in
      let valid =
        new_session-validates hash (after 2 (steady t2 d2)) t3 d3 uid raw (trim_space r'.client_ip)
          r'.user_agent (session_db cfg w1) (session_db cfg signed.2) joined' absent sessions live
          idle total in
      rw enters (reply, cookies, valid)

  -- With a connected database that answers, an open invite for a new user, that is not consumed and
  -- not expired and whose role is there, whose e-mail is a normalised one that no account has and that
  -- the database takes for equal to itself, and whose user no account has: its acceptance with a
  -- password of 8 to 200 bytes succeeds with a new user; a login then, with that e-mail and that
  -- password, not locked and with a token whose hash no session has, succeeds as that user and sends
  -- the token; and until one idle and one absolute lifetime after the login the token validates as
  -- that user. Argon2id gives keys of bytes and of the length asked for, the salt has 16 bytes.
  pub invite_to_session :
      (body : AcceptBody) (typed : Text) (w : World)
      → ((p s : Text) (t m k n : ℕ) → length (id_key p s t m k n) ≡ n)
      → ((p s : Text) (t m k n : ℕ) → All IsByte (id_key p s t m k n))
      → All IsByte salt
      → length salt ≡ 16
      → 8 ≤ length body.password
      → length body.password ≤ 200
      → is_empty (trim_space body.invite_token) ≡ false
      → normalize_email parse_address body.email ≡ some i.email
      → normalize_email parse_address typed ≡ some i.email
      → w.accounts.connected ≡ true
      → find
          (go_lab.Accounts.Invites.has_hash (hash (trim_space body.invite_token)))
          w.accounts.invites
        ≡ some i
      → i.consumed_at ≡ none
      → t1 < i.expires_at
      → find (λ (x : PlatformRole). collates x.name i.role_name) w.accounts.roles ≡ some role
      → i.linked_user_id ≡ none
      → any (clashes collates i.email (pos w.accounts.next_user)) w.accounts.accounts ≡ false
      → collates i.email i.email ≡ true
      → login_email_locked t2 i.email w.throttle ≡ none
      → any (has_hash (hash (new_opaque_token bytes))) w.sessions ≡ false
      → t3 < t2 + cfg.idle_ttl
      → t3 < t2 + cfg.abs_ttl
      → let uid = pos w.accounts.next_user in
        let accepted =
          accept_operator_invite hash parse_address collates id_key true
            (steady t1 d1)
            (some salt)
            r
            (some body)
            w in
        let signed =
          login_user collates hash id_key parse_address marshal true cfg
            (steady t2 d2)
            (some bytes)
            (some csrf)
            r'
            (some (typed, body.password))
            accepted.1 in
        (accepted.0
          ≡ success 201 (record { linked_user_id = uid; email = i.email; role_name = i.role_name }))
        × (signed.0 ≡ success 200 (record { user_id = uid; email = i.email }))
        × (signed.1 ≡ set_session (new_opaque_token bytes) ∷ set_csrf (new_opaque_token csrf) ∷ [])
        × ((validate_session hash
              (steady t3 d3)
              (new_opaque_token bytes)
              (session_db cfg signed.2)).0
            ≡ ok uid)
  unfolding hash_password validate_length entered
  invite_to_session body typed w lengths in_bytes s sl long short token normal normal' up found
        unused live has_role fresh clear same unlocked absent idle total =
      let uid = pos w.accounts.next_user in
      let key = key_of id_key body.password salt 32 in
      let stored = hash_text salt key in
      let hashed : hash_password id_key (some salt) body.password ≡ ok stored =
        ground (arith, long, short) in
      let fits : validate_length body.password ≡ ok tt = ground (arith, long, short) in
      let accepts =
        accept_operator_invite-open body stored w fits hashed token normal up found unused live
          has_role fresh clear in
      let (account, present) =
        user_auth_by_email-joined collates t1 d1 i role stored (trim_space body.name) t2 d2
          w.accounts same clear in
      let visible = hash_text-visible salt key s (in_bytes body.password salt 3 65536 2 32) in
      let (_, right) =
        verify-hash_password id_key salt body.password body.password stored lengths in_bytes s sl
          hashed in
      let allowed : may_enter collates hash id_key parse_address marshal t2 i.email body.password
            (ok (uid, stored)) w
          ≡ true =
        ground (arith, unlocked, visible, right) in
      let (reply, cookies, valid) =
        login_then_validates typed i.email body.password stored uid
          (entered stored (trim_space body.name) w) normal' account allowed present up absent idle
          total in
      rw accepts (refl, reply, cookies, valid)
