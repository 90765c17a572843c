-- ===== src/Backup/Listing.antt =====
-- ListBackupRestoreRequests of api/authstore/backup_restore.go: a page of the newest requests.
use go_lab.Prelude.{
  ℕ, ◌≤◌, ◌≡◌, ◌⊎◌, ℤ, Text, is_empty, Bool, true, not, some, List, arith, All, length,
  if◌then◌else◌,
}
use go_lab.Sql.{Call, answered, Result, ok, err}
use go_lab.Sql.Rows.{find}
use go_lab.Sql.Order.{
  select_page, Descending, select_page_lem, select_page_complete, page_limit, page_limit_bounds,
}
use go_lab.Backup.{BackupError, nil_db, driver, Row, Db, has_id, status_text}
use go_lab.Backup.Valid.{IsValid}

-- `collates` is the database's `=` on texts, which depends on the column's collation.
module _ (collates : Text → Text → Bool) where
  abbrev pub passes : Text → Row → Bool
  passes status_filter r =
      if is_empty status_filter then true else collates (status_text r.status) status_filter

  -- `ListBackupRestoreRequests`
  unfoldable pub list_requests : Call → ℤ → Text → Db → Result BackupError (List Row)
  list_requests c limit status_filter db =
      if not db.connected
      then err nil_db
      else if not (answered (c.driver 0))
      then err driver
      else ok (select_page (λ r. r.id) (passes status_filter) (page_limit 50 200 limit) db.rows)

  -- Of a valid table, a page that is returned holds at most 200 requests, newest first, and only
  -- such as pass the status filter; a request that passes and is not on the page is not newer than
  -- any of a full page.
  pub list_requests_page :
      (c : Call) (limit : ℤ) (status_filter : Text) (db : Db) (page : List Row) (id : ℕ) (r : Row)
      → IsValid db
      → list_requests c limit status_filter db ≡ ok page
      → find (has_id id) db.rows ≡ some r
      → passes status_filter r ≡ true
      → All (λ x. passes status_filter x ≡ true) page
        × Descending (λ x. x.id) page
        × (length page ≤ 200)
        × ((find (has_id id) page ≡ some r)
            ⊎ (length page ≡ page_limit 50 200 limit) × All (λ x. id ≤ x.id) page)
  unfolding list_requests
  list_requests_page c limit status_filter db page id r v h e pass =
      let n = page_limit 50 200 limit in
      let rows = select_page (λ x. x.id) (passes status_filter) n db.rows in
      let q : rows ≡ page = ground arith in
      let laws = select_page_lem (λ x. x.id) (passes status_filter) n db.rows in
      let bound = page_limit_bounds 50 200 limit (omega arith) (omega arith) in
      rw (← q) (
        laws.0,
        laws.1,
        omega (arith, laws.2, bound.1),
        select_page_complete (λ x. x.id) (passes status_filter) n id db.rows r v.ids_unique e pass,
      )
