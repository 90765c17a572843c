-- ===== src/Exchange/Handler/RoundTrip.antt =====
-- StartDesktopExchangeCode and then ExchangeDesktopCode.
use go_lab.Prelude.{
  sym, ℕ, ◌+◌, ◌<◌, ◌≡◌, refl, ◌∙◌, ℤ, pos_part, Text, text_eq, text_eq_iff, is_empty, true, false,
  Option, some, List, [], ◌∷◌, arith, All, any, length, ◌==◌,
}
use go_lab.Strings.{trim_space}
use go_lab.Strings.Trim.{trim_space-visible}
use go_lab.Sql.{Call, steady, Result, ok, err}
use go_lab.Sql.Rows.{find, matching, insert}
use go_lab.Sql.Keys.{
  Unique, Unique-insert, matching-key, find-insert, find-below, find-insert_absent,
}
use go_lab.Http.{Reply, success}
use go_lab.Exchange.{
  CodeError, Db, has_hash, binding, new_code, create_code, redeem_code, is_unconsumed,
}
use go_lab.Exchange.Tokens.{
  IsByte, challenge-IsVisible, new_opaque_token, is_valid_code_challenge, is_valid_code_verifier,
  opaque_token_accepted,
}
use go_lab.Token.{seconds_left}
use go_lab.Exchange.Handler.{
  Caller, World, Meta, Url, Started, subject_uid, user_subject, start_exchange, exchange_code,
}

-- Ids are given in order.
pub record IsValid (db : Db) : Type 0 where
  pub ids_below : All (λ r. r.id < db.next_id) db.codes
  pub ids_unique : Unique (λ r. r.id) db.codes

module _ (hash : Text → Text) where
  -- A code that was just made is redeemed while it lives.
  redeemed :
      (c : Call) (now db_now : ℕ) (uid : ℤ) (raw challenge session uri : Text) (ttl : ℤ) (db : Db)
      → IsValid db
      → (create_code hash c uid raw challenge session uri ttl db).0 ≡ ok tt
      → now < c.now + pos_part ttl
      → (redeem_code hash
          (steady now db_now)
          raw
          (create_code hash c uid raw challenge session uri ttl db).1).0
        ≡ ok (binding (new_code hash c uid raw challenge session uri ttl db))
  unfolding create_code redeem_code
  redeemed c now db_now uid raw challenge session uri ttl db v made live =
      let new = new_code hash c uid raw challenge session uri ttl db in
      let db' = (create_code hash c uid raw challenge session uri ttl db).1 in
      let absent : any (has_hash (hash raw)) db.codes ≡ false = ground arith in
      let did : db'.codes ≡ insert new db.codes = ground arith in
      let up : db'.connected ≡ true = ground arith in
      let here : find (has_hash (hash raw)) db'.codes ≡ some new = rw did (
        find-insert_absent (has_hash (hash raw)) new db.codes absent
          ((text_eq_iff (hash raw) (hash raw)).1 refl)) in
      let by_id : find (λ x. x.id == db.next_id) (insert new db.codes) ≡ some new =
        find-insert (λ x. x.id) db.next_id new db.codes
        ∙ rw (find-below (λ x. x.id) db.next_id db.codes v.ids_below) (ground arith) in
      let count : matching (is_unconsumed db.next_id) db'.codes ≡ 1 = rw did (
        matching-key (λ x. x.id) db.next_id (is_unconsumed db.next_id) (insert new db.codes)
          (λ x h. ground arith) (Unique-insert (λ x. x.id) new db.codes v.ids_below v.ids_unique)
        ∙ rw by_id (ground arith)) in
      ground (arith, here, up, count, live)

module _ (marshal : Meta → Text) (hash pkce : Text → Text) (parse_url : Text → Option Url)
    (mint : ℕ → Text → Text → Option (Text × ℤ)) where
  -- What a success of StartDesktopExchangeCode tells.
  record Begun (c : Call) (ttl : ℤ) (bytes : List ℕ) (session challenge uri : Text) (uid : ℤ)
      (w w' : World) (s : Started) : Type 0 where
    made :
        (create_code hash c uid
          (new_opaque_token bytes)
          (trim_space challenge)
          (trim_space session)
          (trim_space uri)
          ttl
          w.codes_db).0
        ≡ ok tt
    table :
        w'.codes_db
        ≡ (create_code hash c uid
            (new_opaque_token bytes)
            (trim_space challenge)
            (trim_space session)
            (trim_space uri)
            ttl
            w.codes_db).1
    code : s.exchange_code ≡ new_opaque_token bytes
    form : is_valid_code_challenge (trim_space challenge) ≡ true

  start-Begun :
      (hosts : List Text) (ttl : ℤ) (c : Call) (caller : Caller) (bytes : List ℕ)
      (session challenge uri : Text) (uid : ℤ) (w : World) (n : ℕ) (s : Started)
      → subject_uid (trim_space caller.auth_subject) ≡ some (some uid)
      → (start_exchange marshal hash parse_url true hosts ttl c caller
          (some bytes)
          (some (session, challenge, uri))
          w).0
        ≡ success n s
      → Begun c ttl bytes session challenge uri uid w
          (start_exchange marshal hash parse_url true hosts ttl c caller
            (some bytes)
            (some (session, challenge, uri))
            w).1
          s
  unfolding start_exchange
  start-Begun hosts ttl c caller bytes session challenge uri uid w n s u h =
      go
        (create_code hash c uid (new_opaque_token bytes) (trim_space challenge) (trim_space session)
          (trim_space uri) ttl w.codes_db)
        refl
    where
      begun : Reply Started × World
      begun =
          start_exchange marshal hash parse_url true hosts ttl c caller (some bytes)
            (some (session, challenge, uri)) w

      go :
          (answer : Result CodeError (Unit {0}) × Db)
          → create_code hash c uid
              (new_opaque_token bytes)
              (trim_space challenge)
              (trim_space session)
              (trim_space uri)
              ttl
              w.codes_db
            ≡ answer
          → Begun c ttl bytes session challenge uri uid w begun.1 s
      go (err x, db') e = absurd (ground (arith, h, u, e))
      go (ok tt, db') e = record {
        made = ground (arith, e);
        table = ground (arith, h, u, e);
        code = ground (arith, h, u, e);
        form = ground (arith, h, u);
      }

  -- If the ids of the table are in order, a code that a user has started is exchanged, before its
  -- time to live has passed and with a database that answers, by whoever sends it with a valid
  -- verifier of its challenge: the reply is the token that is minted for that user and session.
  pub start_then_exchange :
      (hosts : List Text) (ttl : ℤ) (c : Call) (caller : Caller) (bytes : List ℕ)
      (session challenge uri : Text) (uid : ℤ) (w : World) (n : ℕ) (s : Started) (now db_now : ℕ)
      (caller' : Caller) (verifier token : Text) (exp : ℤ)
      → IsValid w.codes_db
      → length bytes ≡ 32
      → All IsByte bytes
      → subject_uid (trim_space caller.auth_subject) ≡ some (some uid)
      → (start_exchange marshal hash parse_url true hosts ttl c caller
          (some bytes)
          (some (session, challenge, uri))
          w).0
        ≡ success n s
      → is_valid_code_verifier (trim_space verifier) ≡ true
      → pkce (trim_space verifier) ≡ trim_space challenge
      → now < c.now + pos_part ttl
      → mint now (user_subject uid) (trim_space session) ≡ some (token, exp)
      → (exchange_code marshal hash pkce mint true true
          (steady now db_now)
          caller'
          (some (s.exchange_code, verifier))
          (start_exchange marshal hash parse_url true hosts ttl c caller
            (some bytes)
            (some (session, challenge, uri))
            w).1).0
        ≡ success 200 (record {
          access_token = token;
          expires_in = seconds_left exp now;
          session_id = trim_space session;
        })
  unfolding exchange_code is_valid_code_challenge
  start_then_exchange hosts ttl c caller bytes session challenge uri uid w n s now db_now caller'
        verifier token exp v size small u h good same live minted =
      let b = start-Begun hosts ttl c caller bytes session challenge uri uid w n s u h in
      let w' =
        (start_exchange marshal hash parse_url true hosts ttl c caller (some bytes)
          (some (session, challenge, uri)) w).1 in
      let code = new_opaque_token bytes in
      let (trimmed, formed) = opaque_token_accepted bytes size small in
      let bound = binding (
        new_code hash c uid code (trim_space challenge) (trim_space session) (trim_space uri) ttl
          w.codes_db) in
      let sent : trim_space s.exchange_code ≡ code = rw b.code trimmed in
      let taken : (redeem_code hash (steady now db_now) code w'.codes_db).0 ≡ ok bound =
        rw b.table (
          redeemed hash c now db_now uid code (trim_space challenge) (trim_space session)
            (trim_space uri) ttl w.codes_db v b.made live) in
      let plain : trim_space (trim_space challenge) ≡ trim_space challenge =
        trim_space-visible (trim_space challenge)
          (challenge-IsVisible (trim_space challenge) b.form) in
      let full : is_empty (trim_space challenge) ≡ false = filled (trim_space challenge) b.form in
      let equal : text_eq (trim_space challenge) (pkce (trim_space verifier)) ≡ true =
        (text_eq_iff (trim_space challenge) (pkce (trim_space verifier))).1 (sym same) in
      ground (arith, sent, formed, good, taken, plain, full, equal, minted)
    where
      filled : (t : Text) → is_valid_code_challenge t ≡ true → is_empty t ≡ false
      filled [] e = absurd (ground arith)
      filled (x ∷ t) e = refl
