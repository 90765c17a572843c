-- ===== src/Exchange/Tests.antt =====
-- Exchange codes on a concrete table; here a code is its own hash and a verifier its own challenge.
use go_lab.Prelude.{
  is_some, ℕ, ◌+◌, ◌<◌, ◌≡◌, refl, ◌≢◌, ℤ, pos, is_positive, Text, codes, text_eq, true, Option,
  none, some, List, [], ◌∷◌, arith,
}
use go_lab.Strings.{trim_space, has_prefix}
use go_lab.Strconv.{atoi, itoa}
use go_lab.Sql.{Call, ok, steady}
use go_lab.Sql.Rows.{find}
use go_lab.Http.{success}
use go_lab.Token.{TokenService, mint_desktop_access_token, seconds_left}
use go_lab.Exchange.{CodeRow, DesktopExchangeCode, Db, has_hash, new_code, create_code, redeem_code}
use go_lab.Exchange.Once.{Step, redeem_by, create_for, run, redeem_once, redeem_bound}
use go_lab.Exchange.Tokens.{
  hex_encode, new_opaque_token, is_valid_opaque_code, is_valid_code_challenge,
  is_valid_code_verifier,
}
use go_lab.Exchange.Handler.{
  Caller, World, Meta, Url, Started, Exchanged, user_subject, subject_uid, start_exchange,
  exchange_code,
}
use go_lab.Exchange.Handler.RoundTrip.{start_then_exchange}
use go_lab.Exchange.Handler.Verified.{exchange_verified, exchange_once}

abbrev plain : Text → Text
plain t = t

abbrev bytes_32 : List ℕ
bytes_32 =
    0 ∷ 1 ∷ 2 ∷ 3 ∷ 4 ∷ 5 ∷ 6 ∷ 7 ∷ 16 ∷ 32 ∷ 64 ∷ 128 ∷ 255 ∷ 254 ∷ 253 ∷ 252 ∷ 0 ∷ 1 ∷ 2 ∷ 3 ∷ 4
    ∷ 5 ∷ 6 ∷ 7 ∷ 16 ∷ 32 ∷ 64 ∷ 128 ∷ 255 ∷ 254 ∷ 253 ∷ 171 ∷ []

abbrev code : Text
code = codes "000102030405060710204080fffefdfc000102030405060710204080fffefdab"

drawn : new_opaque_token bytes_32 ≡ code
unfolding hex_encode
drawn = refl

abbrev verifier : Text
verifier = codes "abcdefghijklmnopqrstuvwxyzABCDEFGHIJKLMNOPQRSTUVWXYZ"

abbrev empty : Db
empty = record { connected = true; codes = []; next_id = 1 }

-- A code of user 3 for the session "lobby", made at time 100 to live for 60.
abbrev row : CodeRow
row =
    new_code plain (steady 100 100) (pos 3) code verifier (codes "lobby") (codes "") (pos 60) empty

abbrev table : Db
table = record empty { codes = row ∷ []; next_id = 2 }

abbrev bound : DesktopExchangeCode
bound = record { user_id = pos 3; session_id = codes "lobby"; code_challenge = verifier }

created :
    create_code plain
      (steady 100 100)
      (pos 3)
      code
      verifier
      (codes "lobby")
      (codes "")
      (pos 60)
      empty
    ≡ (ok tt, table)
unfolding create_code is_positive
created = refl

redeemed : (redeem_code plain (steady 130 130) code table).0 ≡ ok bound
unfolding redeem_code text_eq
redeemed = refl

-- Another code is made and tried.
abbrev other_calls : List (Call × Step)
other_calls =
    (
      steady 110 110,
      create_for (pos 4) (codes "other") verifier (codes "lobby") (codes "") (pos 60),
    )
    ∷ (steady 111 111, redeem_by (codes "nothing"))
    ∷ []

redeemed_later :
    (redeem_code plain (steady 130 130) code (run plain other_calls table)).0 ≡ ok bound
unfolding redeem_code text_eq run create_code is_positive go_lab.Exchange.Once.apply
redeemed_later = refl

redeem_bound_example :
    (bound ≡ record { user_id = pos 3; session_id = codes "lobby"; code_challenge = verifier })
    × (130 < 100 + 60)
redeem_bound_example =
    redeem_bound plain (steady 100 100) (steady 130 130) (pos 3) code verifier (codes "lobby")
      (codes "") (pos 60) empty bound other_calls (rw created refl) (rw created redeemed_later)

abbrev service : TokenService
service = record {
  secret = codes "s";
  prev_secret = codes "";
  issuer = codes "api";
  audience = codes "lab";
  ttl = pos 900;
}

abbrev mint : ℕ → Text → Text → Option (Text × ℤ)
mint now = mint_desktop_access_token (λ _ _. some (codes "jwt")) service now (some (codes "j1"))

abbrev marshal : Meta → Text
marshal _ = codes "{}"

abbrev desk : Caller
desk = record { auth_subject = codes ""; client_ip = codes "10.0.0.1"; user_agent = codes "" }

abbrev world : World
world = record { codes_db = table; events = [] }

abbrev reply : Exchanged
reply = record { access_token = codes "jwt"; expires_in = 900; session_id = codes "lobby" }

exchanged :
    (exchange_code marshal plain plain mint true true
      (steady 130 130)
      desk
      (some (code, verifier))
      world).0
    ≡ success 200 reply
unfolding exchange_code redeem_code text_eq trim_space is_valid_opaque_code is_valid_code_verifier
    mint_desktop_access_token itoa
exchanged = refl

exchange_verified_example :
    (r : CodeRow) × (r' : CodeRow) × (expiry : ℤ) × (find (has_hash (trim_space code)) table.codes
      ≡ some r)
    × (r.consumed_at ≡ none)
    × (130 < r.expires_at)
    × (trim_space r.code_challenge ≡ trim_space verifier)
    × (mint 130 (user_subject r.user_id) r.session_id ≡ some (codes "jwt", expiry))
    × (find
          (has_hash (trim_space code))
          (exchange_code marshal plain plain mint true true
            (steady 130 130)
            desk
            (some (code, verifier))
            world).1.codes_db.codes
        ≡ some r')
    × (is_some r'.consumed_at ≡ true)
exchange_verified_example =
    exchange_verified marshal plain plain mint true true (steady 130 130) desk code verifier world
      200 reply exchanged

trimmed : (redeem_code plain (steady 130 130) (trim_space code) table).0 ≡ ok bound
unfolding redeem_code text_eq trim_space
trimmed = refl

exchange_once_example :
    (exchange_code marshal plain plain mint true true
      (steady 140 140)
      desk
      (some (code, verifier))
      (record {
        codes_db =
            run plain other_calls (redeem_code plain (steady 130 130) (trim_space code) table).1;
        events = [];
      })).0
    ≢ success 200 reply
exchange_once_example =
    exchange_once marshal plain plain mint (steady 130 130) (steady 140 140) true true desk code
      verifier table other_calls
      (record {
        codes_db =
            run plain other_calls (redeem_code plain (steady 130 130) (trim_space code) table).1;
        events = [];
      })
      bound 200 reply trimmed refl

-- A start by user 3 at time 100, and the exchange at time 130.
abbrev challenge : Text
challenge = codes "abcdefghijklmnopqrstuvwxyzABCDEFGHIJKLMNOPQ"

abbrev browser : Caller
browser = record {
  auth_subject = codes "user:3";
  client_ip = codes "10.0.0.1";
  user_agent = codes "";
}

abbrev before_start : World
before_start = record { codes_db = empty; events = [] }

abbrev no_url : Text → Option Url
no_url _ = none

abbrev begun : Started
begun = record {
  exchange_code = code;
  expires_in = pos 60;
  session_id = codes "lobby";
  callback_uri = codes "";
}

user_3 : subject_uid (trim_space (codes "user:3")) ≡ some (some (pos 3))
unfolding trim_space has_prefix atoi is_positive
user_3 = refl

begins :
    (start_exchange marshal plain no_url true []
      (pos 60)
      (steady 100 100)
      browser
      (some bytes_32)
      (some (codes "lobby", challenge, codes ""))
      before_start).0
    ≡ success 200 begun
unfolding start_exchange trim_space has_prefix atoi is_positive is_valid_code_challenge create_code
    hex_encode
begins = refl

valid_verifier : is_valid_code_verifier (trim_space challenge) ≡ true
unfolding trim_space is_valid_code_verifier
valid_verifier = refl

mints : mint 130 (user_subject (pos 3)) (trim_space (codes "lobby")) ≡ some (codes "jwt", pos 1030)
unfolding mint_desktop_access_token itoa trim_space
mints = refl

start_then_exchange_example :
    (exchange_code marshal plain plain mint true true
      (steady 130 130)
      desk
      (some (code, challenge))
      (start_exchange marshal plain no_url true []
        (pos 60)
        (steady 100 100)
        browser
        (some bytes_32)
        (some (codes "lobby", challenge, codes ""))
        before_start).1).0
    ≡ success 200 (record {
      access_token = codes "jwt";
      expires_in = seconds_left (pos 1030) 130;
      session_id = trim_space (codes "lobby");
    })
start_then_exchange_example =
    start_then_exchange marshal plain plain no_url mint [] (pos 60) (steady 100 100) browser
      bytes_32 (codes "lobby") challenge (codes "") (pos 3) before_start 200 begun 130 130 desk
      challenge (codes "jwt") (pos 1030) (record { ids_below = tt; ids_unique = tt }) refl
      (ground arith) user_3 begins valid_verifier refl (omega arith) mints
