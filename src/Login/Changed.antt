-- ===== src/Login/Changed.antt =====
-- ChangePassword against the tables of the schema.
use go_lab.Accounts.{AccountError}
