-- ===== src/Rbac/Perm.antt =====
-- The constants `Perm…` of api/platformrbac/permissions.go.
use go_lab.Prelude.{Text, codes}

abbrev pub players_read : Text
players_read = codes "players.read"

abbrev pub characters_read : Text
characters_read = codes "characters.read"

abbrev pub backups_read : Text
backups_read = codes "backups.read"

abbrev pub backups_restore_request : Text
backups_restore_request = codes "backups.restore.request"

abbrev pub backups_restore_approve : Text
backups_restore_approve = codes "backups.restore.approve"

abbrev pub backups_restore_fulfill : Text
backups_restore_fulfill = codes "backups.restore.fulfill"

abbrev pub security_read : Text
security_read = codes "security.read"

abbrev pub security_write : Text
security_write = codes "security.write"

abbrev pub audit_read : Text
audit_read = codes "audit.read"

abbrev pub audit_write : Text
audit_write = codes "audit.write"

abbrev pub support_ack : Text
support_ack = codes "platform.support.ack"

abbrev pub economy_read : Text
economy_read = codes "economy.read"

abbrev pub users_delete : Text
users_delete = codes "users.delete"

abbrev pub cases_read : Text
cases_read = codes "cases.read"

abbrev pub cases_write : Text
cases_write = codes "cases.write"

abbrev pub sanctions_write : Text
sanctions_write = codes "sanctions.write"

abbrev pub recovery_write : Text
recovery_write = codes "recovery.write"

abbrev pub appeals_resolve : Text
appeals_resolve = codes "appeals.resolve"
