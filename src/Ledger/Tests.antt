-- ===== src/Ledger/Tests.antt =====
-- Pages of a small ledger.
use go_lab.Strconv.{atoi}
use go_lab.Strings.{trim_space}
use go_lab.Prelude.{
  int_eq, ℕ, ◌≤◌, ◌≡◌, refl, ◌⊎◌, ℤ, pos, negsuc, Text, text_eq, codes, true, Option, none, some,
  List, [], ◌∷◌, All, length, arith, ◌==◌,
}
use go_lab.Sql.{steady, ok}
use go_lab.Sql.Rows.{find}
use go_lab.Sql.Keys.{Unique}
use go_lab.Sql.Order.{select_page, page_limit, Descending}
use go_lab.Http.{success, error, validation}
use go_lab.Ledger.{list_ledger, LedgerEvent, LedgerQuery, Params, is_wanted, read_query, get_ledger}
use go_lab.Ledger.Page.{get_ledger-page}

abbrev entry : ℕ → ℤ → LedgerEvent
entry id uid = record {
  id = id;
  created_at = id;
  platform_user_id = uid;
  event_type = codes "grant";
  amount_delta = negsuc 4;
  currency_code = codes "gold";
  reference_type = none;
  reference_id = none;
  meta_json = none;
}

abbrev events : List LedgerEvent
events = entry 1 (pos 7) ∷ entry 2 (pos 8) ∷ entry 3 (pos 7) ∷ []

abbrev of_seven : Params
of_seven = record {
  limit = codes " 1";
  before_id = codes "";
  platform_user_id = codes "7";
  event_type = codes "";
  from_text = codes "";
  to_text = codes "";
}

abbrev query : LedgerQuery
query = record {
  limit = pos 1;
  before_id = none;
  platform_user_id = some (pos 7);
  event_type = codes "";
  from_time = none;
  to_time = none;
}

abbrev no_time : Text → Option ℕ
no_time s = none

too_many :
    get_ledger text_eq no_time true (steady 5 5) (record of_seven { limit = codes "101" }) events
    ≡ error 400 validation
unfolding get_ledger read_query trim_space atoi
too_many = refl

newest :
    get_ledger text_eq no_time true (steady 5 5) of_seven events
    ≡ success 200 (entry 3 (pos 7) ∷ [], pos 1)
unfolding get_ledger read_query trim_space atoi list_ledger select_page page_limit int_eq
newest = refl

read : read_query no_time of_seven ≡ ok query
unfolding read_query trim_space atoi
read = refl

ids : Unique (λ (e : LedgerEvent). e.id) events
ids = ((omega arith, (omega arith, tt)), ((omega arith, tt), (tt, tt)))

get_ledger-page_example :
    (l : ℕ) × (pos 1 ≡ pos l)
    × (1 ≤ l)
    × (l ≤ 100)
    × All (λ e. is_wanted text_eq query e ≡ true) (entry 3 (pos 7) ∷ [])
    × Descending (λ (e : LedgerEvent). e.id) (entry 3 (pos 7) ∷ [])
    × (length (entry 3 (pos 7) ∷ []) ≤ l)
    × ((find (λ (e : LedgerEvent). e.id == 1) (entry 3 (pos 7) ∷ []) ≡ some (entry 1 (pos 7)))
        ⊎ (length (entry 3 (pos 7) ∷ []) ≡ l)
          × All (λ (e : LedgerEvent). 1 ≤ e.id) (entry 3 (pos 7) ∷ []))
unfolding int_eq
get_ledger-page_example =
    get_ledger-page text_eq no_time true (steady 5 5) of_seven query events (entry 3 (pos 7) ∷ [])
      200 (pos 1) 1 (entry 1 (pos 7)) read newest ids refl refl
