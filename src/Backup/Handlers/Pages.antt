-- ===== src/Backup/Handlers/Pages.antt =====
-- BackupRestoreStatusCounts of api/authstore/backup_restore.go, and the endpoints of
-- api/myhandlers/platform_backup_restore_handlers.go that read the table.
use go_lab.Prelude.{
  ℕ, ℤ, Text, Bool, true, false, not, none, some, List, [], ◌∷◌, map, filter, ltb, if◌then◌else◌,
}
use go_lab.Strings.{trim_space}
use go_lab.Sql.{Call, answered, Result, ok, err}
use go_lab.Sql.Rows.{matching}
use go_lab.Http.{validation, internal, Reply, success, error}
use go_lab.Http.Query.{page_size}
use go_lab.Backup.{
  BackupError, nil_db, driver, Status, pending, approved, rejected, fulfilled, cancelled,
  is_pending, is_approved, Row, Db,
}
use go_lab.Backup.Listing.{list_requests}

abbrev has_status : Status → Row → Bool
has_status pending r = is_pending r.status
has_status approved r = is_approved r.status
has_status rejected r = elim r.status [ rejected ↦ true | _ ↦ false ]
has_status fulfilled r = elim r.status [ fulfilled ↦ true | _ ↦ false ]
has_status cancelled r = elim r.status [ cancelled ↦ true | _ ↦ false ]

abbrev statuses : List Status
statuses = pending ∷ approved ∷ rejected ∷ fulfilled ∷ cancelled ∷ []

-- `BackupRestoreStatusCounts`: the statuses that the table has, each with its number of rows.
unfoldable pub status_counts : Call → Db → Result BackupError (List (Status × ℕ))
status_counts c db =
    if not db.connected
    then err nil_db
    else if not (answered (c.driver 0))
    then err driver
    else ok (filter (λ x. ltb 0 x.1) (map (λ s. (s, matching (has_status s) db.rows)) statuses))

-- The value of a key of the map, 0 if it is not there.
abbrev count_of : (Status → Bool) → List (Status × ℕ) → ℕ
count_of is_it [] = 0
count_of is_it ((s, n) ∷ rest) = let later = count_of is_it rest in if is_it s then n else later

pub record BackupsStatus : Type 0 where
  pub pending_requests : ℕ
  pub awaiting_fulfillment : ℕ
  pub counts : List (Status × ℕ)

-- `GetBackupsStatus`
unfoldable pub get_backups_status : Call → Db → Reply BackupsStatus
get_backups_status c db = elim (status_counts c db) [
  | err _ ↦ error 500 internal
  | ok counts ↦ success 200 (record {
    pending_requests = count_of is_pending counts;
    awaiting_fulfillment = count_of is_approved counts;
    counts = counts;
  })
]

-- `ListBackupRestoreRequests` with its query parameters, the status and the limit.
unfoldable pub get_requests : (Text → Text → Bool) → Call → Text → Text → Db → Reply (List Row × ℤ)
get_requests collates c status raw_limit db = elim (page_size raw_limit) [
  | none ↦ error 400 validation
  | some limit ↦ elim (list_requests collates c limit (trim_space status) db) [
    | err _ ↦ error 500 internal
    | ok rows ↦ success 200 (rows, limit)
  ]
]
