-- ===== src/Exchange.antt =====
-- The desktop exchange codes of api/authstore/store.go: one-time codes whose hash the table holds.
pub mod Once
pub mod Tokens
pub mod Handler
mod Tests
use go_lab.Prelude.{
  ℕ, ◌+◌, ℤ, pos_part, is_positive, Text, text_eq, Bool, true, false, ◌&&◌, not, Option, none, some,
  List, ltb, ◌==◌, any, is_some, if◌then◌else◌,
}
use go_lab.Sql.{Call, Outcome, answered, Result, ok, err, settle, null_str}
use go_lab.Sql.Rows.{find, update, matching, insert}

-- `driver` is an error of the database, `invalid` one of `errors.New` for bad arguments.
pub data CodeError : Type 0 where
  not_found used expired invalid nil_db driver : CodeError

-- A row of `auth_desktop_exchange_codes`.
pub record CodeRow : Type 0 where
  pub id : ℕ
  pub user_id : ℤ
  pub code_hash : Text
  pub code_challenge : Text
  pub session_id : Text
  pub callback_uri : Option Text
  pub expires_at : ℕ
  pub consumed_at : Option ℕ

-- `DesktopExchangeCode`, what a redeemed code is bound to.
pub record DesktopExchangeCode : Type 0 where
  pub user_id : ℤ
  pub session_id : Text
  pub code_challenge : Text

pub record Db : Type 0 where
  pub connected : Bool
  pub codes : List CodeRow
  pub next_id : ℕ

abbrev pub has_hash : Text → CodeRow → Bool
has_hash h r = text_eq r.code_hash h

abbrev pub exec : Outcome → Db → List CodeRow → Db
exec o db codes = record db { codes = settle o db.codes codes }

abbrev pub insert_code : Outcome → CodeRow → Db → Db
insert_code o r db = record db {
  codes = settle o db.codes (insert r db.codes);
  next_id = settle o db.next_id (db.next_id + 1);
}

abbrev pub binding : CodeRow → DesktopExchangeCode
binding r = record {
  user_id = r.user_id;
  session_id = r.session_id;
  code_challenge = r.code_challenge;
}

abbrev pub is_unconsumed : ℕ → CodeRow → Bool
is_unconsumed id r = r.id == id && not (is_some r.consumed_at)

abbrev pub set_consumed : Call → CodeRow → CodeRow
set_consumed c r = record r { consumed_at = some c.db_now }

-- `HashOpaqueToken`, SHA-256 in hexadecimal digits, is a parameter.
module _ (hash : Text → Text) where
  abbrev pub new_code : Call → ℤ → Text → Text → Text → Text → ℤ → Db → CodeRow
  new_code c user_id raw_code challenge session_id callback_uri ttl db = record {
    id = db.next_id;
    user_id = user_id;
    code_hash = hash raw_code;
    code_challenge = challenge;
    session_id = session_id;
    callback_uri = null_str callback_uri;
    expires_at = c.now + pos_part ttl;
    consumed_at = none;
  }

  -- `CreateDesktopExchangeCode`; the unique key on `code_hash` refuses a hash that is there.
  unfoldable pub create_code :
      Call → ℤ → Text → Text → Text → Text → ℤ → Db → Result CodeError (Unit {0}) × Db
  create_code c user_id raw_code challenge session_id callback_uri ttl db =
      if not db.connected
      then (err nil_db, db)
      else if not (is_positive user_id)
      then (err invalid, db)
      else if not (is_positive ttl)
      then (err invalid, db)
      else if any (has_hash (hash raw_code)) db.codes
      then (err driver, db)
      else (
        if answered (c.driver 0) then ok tt else err driver,
        insert_code (c.driver 0)
            (new_code c user_id raw_code challenge session_id callback_uri ttl db) db,
      )

  -- The UPDATE (statement 2), its count (3) and the COMMIT (4) for the row that was locked.
  abbrev consume : Call → CodeRow → Db → Result CodeError DesktopExchangeCode × Db
  consume c r db =
      if not (answered (c.driver 2))
      then (err driver, db)
      else if not (answered (c.driver 3))
      then (err driver, db)
      else if not (matching (is_unconsumed r.id) db.codes == 1)
      then (err used, db)
      else (
        if answered (c.driver 4) then ok (binding r) else err driver,
        exec (c.driver 4) db (update (is_unconsumed r.id) (set_consumed c) db.codes),
      )

  -- `RedeemDesktopExchangeCode`: BEGIN is statement 0, SELECT … FOR UPDATE is 1.
  unfoldable pub redeem_code : Call → Text → Db → Result CodeError DesktopExchangeCode × Db
  redeem_code c raw_code db =
      if not db.connected
      then (err nil_db, db)
      else if not (answered (c.driver 0))
      then (err driver, db)
      else if not (answered (c.driver 1))
      then (err driver, db)
      else elim (find (has_hash (hash raw_code)) db.codes) [
        | none ↦ (err not_found, db)
        | some r ↦
            if is_some r.consumed_at
            then (err used, db)
            else if not (ltb c.now r.expires_at)
            then (err expired, db)
            else consume c r db
      ]
