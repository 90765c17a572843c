-- ===== src/Ledger.antt =====
-- api/authstore/economy_ledger.go and GetEconomyLedger of api/myhandlers/platform_handlers.go: pages
-- of a ledger that is only read.
pub mod Page
mod Tests
use go_lab.Prelude.{
  ℕ, ℤ, pos, negsuc, int_eq, ltb_ℤ, Text, is_empty, Bool, true, false, ◌&&◌, ◌||◌, not, Option,
  none, some, List, length, leb, ltb, ◌==◌, if◌then◌else◌,
}
use go_lab.Strings.{trim_space}
use go_lab.Strconv.{atoi}
use go_lab.Sql.{Call, answered, Result, ok, err, ◌>>=◌, ◌>>◌, guard}
use go_lab.Sql.Order.{select_page, page_limit}
use go_lab.Http.{validation, internal, Reply, success, error}

pub data LedgerError : Type 0 where
  nil_db driver : LedgerError

-- `EconomyLedgerEvent`
pub record LedgerEvent : Type 0 where
  pub id : ℕ
  pub created_at : ℕ
  pub platform_user_id : ℤ
  pub event_type : Text
  pub amount_delta : ℤ
  pub currency_code : Text
  pub reference_type : Option Text
  pub reference_id : Option Text
  pub meta_json : Option Text

-- `EconomyLedgerQuery`
pub record LedgerQuery : Type 0 where
  pub limit : ℤ
  pub before_id : Option ℤ
  pub platform_user_id : Option ℤ
  pub event_type : Text
  pub from_time : Option ℕ
  pub to_time : Option ℕ

abbrev is_user : Option ℤ → ℤ → Bool
is_user none uid = true
is_user (some wanted) uid = int_eq uid wanted

abbrev is_from : Option ℕ → ℕ → Bool
is_from none t = true
is_from (some bound) t = leb bound t

abbrev is_to : Option ℕ → ℕ → Bool
is_to none t = true
is_to (some bound) t = leb t bound

abbrev is_before : Option ℤ → ℕ → Bool
is_before none id = true
is_before (some bound) id = ltb_ℤ (pos id) bound

-- The six query parameters, as texts; one that is absent is empty.
pub record Params : Type 0 where
  pub limit : Text
  pub before_id : Text
  pub platform_user_id : Text
  pub event_type : Text
  pub from_text : Text
  pub to_text : Text

abbrev pub in_range : Option ℤ → Option ℤ
in_range none = none
in_range (some (negsuc n)) = none
in_range (some (pos n)) = if ltb n 1 || ltb 100 n then none else some (pos n)

abbrev above_0 : Option ℤ → Option ℤ
above_0 none = none
above_0 (some (negsuc n)) = none
above_0 (some (pos n)) = if ltb n 1 then none else some (pos n)

-- A value that is read, or a bad request.
abbrev pub or_bad : {A : Type 0} → Option A → Result (Unit {0}) A
or_bad none = err tt
or_bad (some a) = ok a

abbrev optional : {A : Type 0} → Option A → Result (Unit {0}) (Option A)
optional none = err tt
optional (some a) = ok (some a)

abbrev pub read_limit : Text → Result (Unit {0}) ℤ
read_limit raw =
    let v = trim_space raw in if is_empty v then ok (pos 50) else or_bad (in_range (atoi v))

abbrev pub read_id : Text → Result (Unit {0}) (Option ℤ)
read_id raw = let v = trim_space raw in if is_empty v then ok none else optional (above_0 (atoi v))

-- `time.Parse` with RFC 3339 is a parameter.
abbrev pub read_time : (Text → Option ℕ) → Text → Result (Unit {0}) (Option ℕ)
read_time parse_time raw =
    let v = trim_space raw in if is_empty v then ok none else optional (parse_time v)

-- The query of the parameters, or a bad request.
unfoldable pub read_query : (Text → Option ℕ) → Params → Result (Unit {0}) LedgerQuery
read_query parse_time p = do
  limit ← read_limit p.limit
  before ← read_id p.before_id
  user ← read_id p.platform_user_id
  let event_type = trim_space p.event_type
  guard (leb (length event_type) 64) tt
  from ← read_time parse_time p.from_text
  to ← read_time parse_time p.to_text
  ok (record {
    limit = limit;
    before_id = before;
    platform_user_id = user;
    event_type = event_type;
    from_time = from;
    to_time = to;
  })

-- `collates` is the database's `=` on texts.
module _ (collates : Text → Text → Bool) where
  abbrev pub is_wanted : LedgerQuery → LedgerEvent → Bool
  is_wanted q e =
      is_user q.platform_user_id e.platform_user_id
      && ((if is_empty q.event_type then true else collates e.event_type q.event_type)
          && (is_from q.from_time e.created_at
              && (is_to q.to_time e.created_at && is_before q.before_id e.id)))

  -- `ListEconomyLedgerEvents`
  unfoldable pub list_ledger :
      Bool → Call → LedgerQuery → List LedgerEvent → Result LedgerError (List LedgerEvent)
  list_ledger connected c q events =
      if not connected
      then err nil_db
      else if not (answered (c.driver 0))
      then err driver
      else ok
          (select_page (λ (e : LedgerEvent). e.id) (is_wanted q) (page_limit 50 100 q.limit) events)

  -- `GetEconomyLedger`, which answers with the page and the limit.
  unfoldable pub get_ledger :
      (Text → Option ℕ) → Bool → Call → Params → List LedgerEvent → Reply (List LedgerEvent × ℤ)
  get_ledger parse_time connected c p events = elim (read_query parse_time p) [
    | err _ ↦ error 400 validation
    | ok q ↦ elim (list_ledger connected c q events) [
      | err _ ↦ error 500 internal
      | ok page ↦ success 200 (page, q.limit)
    ]
  ]
