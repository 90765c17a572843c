-- ===== src/Ledger/Page.antt =====
-- What a page of the ledger holds.
use go_lab.Prelude.{
  ℕ, ◌≤◌, ◌≡◌, refl, sym, ap, Bool-cases, ◌⊎◌, inl, inr, ℤ, pos, negsuc, Text, is_empty, Bool, true,
  Option, none, some, List, All, length, arith, ◌==◌, leb,
}
use go_lab.Strings.{trim_space}
use go_lab.Strconv.{atoi}
use go_lab.Sql.{Call, Result, ok, err, guard, >>=-ok}
use go_lab.Sql.Rows.{find}
use go_lab.Sql.Keys.{Unique}
use go_lab.Sql.Order.{select_page, Descending, select_page_lem, select_page_complete, page_limit}
use go_lab.Http.{success}
use go_lab.Ledger.{
  LedgerEvent, LedgerQuery, Params, read_limit, read_id, read_time, read_query, is_wanted,
  list_ledger, get_ledger,
}

read_limit-range :
    (raw : Text) (n : ℤ) → read_limit raw ≡ ok n → (l : ℕ) × (n ≡ pos l) × (1 ≤ l) × (l ≤ 100)
read_limit-range raw n h = go (atoi (trim_space raw)) refl
  where
    go : (o : Option ℤ) → atoi (trim_space raw) ≡ o → (l : ℕ) × (n ≡ pos l) × (1 ≤ l) × (l ≤ 100)
    go none e = (50, ground (arith, e, h), omega arith, omega arith)
    go (some (negsuc m)) e = (50, ground (arith, e, h), omega arith, omega arith)
    go (some (pos m)) e = elim (Bool-cases (is_empty (trim_space raw))) [
      | inl blank ↦ (50, ground (arith, blank, h), omega arith, omega arith)
      | inr given ↦
          (m, ground (arith, e, given, h), ground (arith, e, given, h), ground (arith, e, given, h))
    ]

abbrev query : LedgerQuery → Result (Unit {0}) LedgerQuery
query q = ok q

query-same : (a b : LedgerQuery) → query a ≡ ok b → a ≡ b
query-same a b h = ap (λ (r : Result (Unit {0}) LedgerQuery). elim r [ ok q ↦ q | err _ ↦ a ]) h

read_query-limit :
    (parse_time : Text → Option ℕ) (p : Params) (q : LedgerQuery)
    → read_query parse_time p ≡ ok q
    → read_limit p.limit ≡ ok q.limit
unfolding read_query
read_query-limit parse_time p q h =
    let (limit, e, h1) = >>=-ok (read_limit p.limit) _ h in
    let (before, _, h2) = >>=-ok (read_id p.before_id) _ h1 in
    let (user, _, h3) = >>=-ok (read_id p.platform_user_id) _ h2 in
    let (_, _, h4) = >>=-ok (guard (leb (length (trim_space p.event_type)) 64) tt) _ h3 in
    let (from, _, h5) = >>=-ok (read_time parse_time p.from_text) _ h4 in
    let (to, _, h6) = >>=-ok (read_time parse_time p.to_text) _ h5 in rw (sym (query-same _ q h6)) e

module _ (collates : Text → Text → Bool) where
  -- A page of the ledger that is answered, for parameters that are read as a query, has a limit
  -- between 1 and 100 and at most so many events, newest first and only such as the query wants; where
  -- ids are unique, an event that the query wants and that is not on the page is not newer than any of
  -- a full page.
  pub get_ledger-page :
      (parse_time : Text → Option ℕ) (connected : Bool) (c : Call) (p : Params) (q : LedgerQuery)
      (events page : List LedgerEvent) (n : ℕ) (limit : ℤ) (id : ℕ) (r : LedgerEvent)
      → read_query parse_time p ≡ ok q
      → get_ledger collates parse_time connected c p events ≡ success n (page, limit)
      → Unique (λ (e : LedgerEvent). e.id) events
      → find (λ e. e.id == id) events ≡ some r
      → is_wanted collates q r ≡ true
      → (l : ℕ) × (limit ≡ pos l)
        × (1 ≤ l)
        × (l ≤ 100)
        × All (λ e. is_wanted collates q e ≡ true) page
        × Descending (λ (e : LedgerEvent). e.id) page
        × (length page ≤ l)
        × ((find (λ e. e.id == id) page ≡ some r) ⊎ (length page ≡ l) × All (λ e. id ≤ e.id) page)
  unfolding get_ledger list_ledger page_limit
  get_ledger-page parse_time connected c p q events page n limit id r read h u found wanted =
      let (l, at, low, high) =
        read_limit-range p.limit q.limit (read_query-limit parse_time p q read) in
      let rows = select_page (λ (e : LedgerEvent). e.id) (is_wanted collates q) l events in
      let size : page_limit 50 100 q.limit ≡ l = rw at (ground (arith, low, high)) in
      let same : rows ≡ page = ground (arith, read, h, size) in
      let (fits, sorted, few) =
        select_page_lem (λ (e : LedgerEvent). e.id) (is_wanted collates q) l events in
      let complete =
        select_page_complete (λ (e : LedgerEvent). e.id) (is_wanted collates q) l id events r u
          found wanted in
      let limit_at : limit ≡ pos l = ground (arith, read, h, at) in
      (
        l,
        limit_at,
        low,
        high,
        rw (sym same) fits,
        rw (sym same) sorted,
        rw (sym same) few,
        rw (sym same) complete,
      )
