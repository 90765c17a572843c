-- ===== src/Exchange/Handler/Verified.antt =====
-- What ExchangeDesktopCode has checked when it succeeds.
use go_lab.Prelude.{
  ap, is_some, ℕ, ◌<◌, ◌≡◌, refl, ◌≢◌, ℤ, Text, text_eq, text_eq_iff, Bool, true, Option, none,
  some, List, arith,
}
use go_lab.Strings.{trim_space}
use go_lab.Sql.{Call, Result, ok, err}
use go_lab.Sql.Rows.{find}
use go_lab.Http.{Reply, success}
use go_lab.Exchange.{CodeError, CodeRow, DesktopExchangeCode, Db, has_hash, redeem_code}
use go_lab.Exchange.Once.{Step, run, redeem_found, redeem_once}
use go_lab.Exchange.Handler.{
  Caller, World, Meta, Exchanged, user_subject, exchange_code, finish_exchange,
}

module _ (marshal : Meta → Text) (hash pkce : Text → Text)
    (mint : ℕ → Text → Text → Option (Text × ℤ)) where
  -- What a success tells of the redeemed code.
  record Redeemed (c : Call) (code verifier : Text) (w w' : World) (x : Exchanged) : Type 0 where
    bound : DesktopExchangeCode
    expiry : ℤ
    redeemed : (redeem_code hash c (trim_space code) w.codes_db).0 ≡ ok bound
    table : w'.codes_db ≡ (redeem_code hash c (trim_space code) w.codes_db).1
    verified : trim_space bound.code_challenge ≡ pkce (trim_space verifier)
    minted :
        mint c.now (user_subject bound.user_id) bound.session_id ≡ some (x.access_token, expiry)
    session : x.session_id ≡ bound.session_id

  finished :
      (c : Call) (caller : Caller) (code verifier : Text) (w : World) (bound : DesktopExchangeCode)
      (n : ℕ) (x : Exchanged)
      → (redeem_code hash c (trim_space code) w.codes_db).0 ≡ ok bound
      → (finish_exchange marshal hash pkce mint c caller
          (trim_space verifier)
          bound
          (record w { codes_db = (redeem_code hash c (trim_space code) w.codes_db).1 })).0
        ≡ success n x
      → Redeemed c code verifier w
          (finish_exchange marshal hash pkce mint c caller
            (trim_space verifier)
            bound
            (record w { codes_db = (redeem_code hash c (trim_space code) w.codes_db).1 })).1
          x
  finished c caller code verifier w bound n x r h =
      go (mint c.now (user_subject bound.user_id) bound.session_id) refl
    where
      after_redeem : World
      after_redeem = record w { codes_db = (redeem_code hash c (trim_space code) w.codes_db).1 }

      finish : Reply Exchanged × World
      finish =
          finish_exchange marshal hash pkce mint c caller (trim_space verifier) bound after_redeem

      go :
          (minted : Option (Text × ℤ))
          → mint c.now (user_subject bound.user_id) bound.session_id ≡ minted
          → Redeemed c code verifier w finish.1 x
      go none e = absurd (ground (arith, h))
      go (some (token, exp)) e =
          let same : text_eq (trim_space bound.code_challenge) (pkce (trim_space verifier)) ≡ true =
            ground (arith, h) in
          let given : x.access_token ≡ token = ground (arith, h) in
          record {
            bound = bound;
            expiry = exp;
            redeemed = r;
            table = ground arith;
            verified =
                (text_eq_iff (trim_space bound.code_challenge) (pkce (trim_space verifier))).0 same;
            minted = rw given e;
            session = ground (arith, h);
          }

  exchange-Redeemed :
      (has_store has_tokens : Bool) (c : Call) (caller : Caller) (code verifier : Text) (w : World)
      (n : ℕ) (x : Exchanged)
      → (exchange_code marshal hash pkce mint has_store has_tokens c caller
          (some (code, verifier))
          w).0
        ≡ success n x
      → Redeemed c code verifier w
          (exchange_code marshal hash pkce mint has_store has_tokens c caller
            (some (code, verifier))
            w).1
          x
  unfolding exchange_code
  exchange-Redeemed has_store has_tokens c caller code verifier w n x h =
      go (redeem_code hash c (trim_space code) w.codes_db).0 refl
    where
      exchanged : Reply Exchanged × World
      exchanged =
          exchange_code marshal hash pkce mint has_store has_tokens c caller (some (code, verifier))
            w

      after_redeem : World
      after_redeem = record w { codes_db = (redeem_code hash c (trim_space code) w.codes_db).1 }

      go :
          (result : Result CodeError DesktopExchangeCode)
          → (redeem_code hash c (trim_space code) w.codes_db).0 ≡ result
          → Redeemed c code verifier w exchanged.1 x
      go (err e) r = absurd (ground (arith, h))
      go (ok bound) r =
          let did : exchanged
              ≡ finish_exchange marshal hash pkce mint c caller (trim_space verifier) bound
                  after_redeem =
            ground (arith, h) in
          rw did (finished c caller code verifier w bound n x r (rw⁻¹ did h))

  -- A success of the desktop exchange has found a code with the hash of the trimmed text, not
  -- consumed and not expired, whose trimmed challenge is the one computed from the trimmed
  -- verifier; the token is minted for the code's user and session, and the code is consumed.
  pub exchange_verified :
      (has_store has_tokens : Bool) (c : Call) (caller : Caller) (code verifier : Text) (w : World)
      (n : ℕ) (x : Exchanged)
      → (exchange_code marshal hash pkce mint has_store has_tokens c caller
          (some (code, verifier))
          w).0
        ≡ success n x
      → (r : CodeRow) × (r' : CodeRow) × (expiry : ℤ) × (find
            (has_hash (hash (trim_space code)))
            w.codes_db.codes
          ≡ some r)
        × (r.consumed_at ≡ none)
        × (c.now < r.expires_at)
        × (trim_space r.code_challenge ≡ pkce (trim_space verifier))
        × (mint c.now (user_subject r.user_id) r.session_id ≡ some (x.access_token, expiry))
        × (find
              (has_hash (hash (trim_space code)))
              (exchange_code marshal hash pkce mint has_store has_tokens c caller
                (some (code, verifier))
                w).1.codes_db.codes
            ≡ some r')
        × (is_some r'.consumed_at ≡ true)
  exchange_verified has_store has_tokens c caller code verifier w n x h =
      let done = exchange-Redeemed has_store has_tokens c caller code verifier w n x h in
      let (r, r', found, unconsumed, live, same, found', consumed) =
        redeem_found hash c (trim_space code) w.codes_db done.bound done.redeemed in
      let challenge : r.code_challenge ≡ done.bound.code_challenge =
        ap DesktopExchangeCode.code_challenge same in
      let user : r.user_id ≡ done.bound.user_id = ap DesktopExchangeCode.user_id same in
      let session : r.session_id ≡ done.bound.session_id = ap DesktopExchangeCode.session_id same in
      (
        r,
        r',
        done.expiry,
        found,
        unconsumed,
        live,
        rw challenge done.verified,
        rw (user, session) done.minted,
        rw done.table found',
        consumed,
      )

  -- Once a code was redeemed, whether a token was given for it or the verifier was wrong, no
  -- exchange of that code succeeds after any further calls of the store.
  pub exchange_once :
      (c c' : Call) (has_store has_tokens : Bool) (caller : Caller) (code verifier : Text) (db : Db)
      (calls : List (Call × Step)) (w : World) (b : DesktopExchangeCode) (n : ℕ) (x : Exchanged)
      → (redeem_code hash c (trim_space code) db).0 ≡ ok b
      → w.codes_db ≡ run hash calls (redeem_code hash c (trim_space code) db).1
      → (exchange_code marshal hash pkce mint has_store has_tokens c' caller
          (some (code, verifier))
          w).0
        ≢ success n x
  exchange_once c c' has_store has_tokens caller code verifier db calls w b n x first later again =
      let done = exchange-Redeemed has_store has_tokens c' caller code verifier w n x again in
      redeem_once hash c c' (trim_space code) db b done.bound calls first (rw⁻¹ later done.redeemed)
