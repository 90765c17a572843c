-- ===== src/Http/Tests.antt =====
-- Subjects on concrete ids.
use go_lab.Prelude.{◌≡◌, pos, some, arith}
use go_lab.Http.{auth_user_id}
use go_lab.Http.Subject.{user_subject, auth_user_id-user_subject}

auth_user_id-user_subject_run : auth_user_id (user_subject (pos 42)) ≡ some (pos 42)
auth_user_id-user_subject_run = auth_user_id-user_subject 42 (omega arith) (omega arith)
