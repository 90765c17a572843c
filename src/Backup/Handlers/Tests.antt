-- ===== src/Backup/Handlers/Tests.antt =====
-- The handlers of the restore workflow on concrete requests.
use go_lab.Sql.Order.{select_page, page_limit}
use go_lab.Backup.Listing.{list_requests}
use go_lab.Strconv.{atoi}
use go_lab.Strings.{trim_space}
use go_lab.Backup.{pending, Db, new_row}
use go_lab.Http.{success, error, validation, Context}
use go_lab.Backup.Handlers.Pages.{status_counts, get_backups_status, get_requests}
use go_lab.Prelude.{◌≡◌, refl, text_eq, ℕ, pos, codes, true, some, [], ◌∷◌}
use go_lab.Sql.{Call, Outcome, steady}
use go_lab.Backup.Handlers.{World, post_approve}
use go_lab.Backup.Handlers.Audited.{Audited, post_approve-Audited}

abbrev at : ℕ → Call
at t = steady t t

abbrev asked : Db
asked = record {
  connected = true;
  rows =
      new_row (at 1) 1 (pos 7) (codes "db") (codes "nightly") (codes "data loss") (codes "r1") ∷ [];
  next_id = 2;
}

-- A request of user 8 from the desk, over HTTP.
abbrev desk : Context
desk = record {
  auth_subject = codes "user:8";
  id_param = codes "1";
  reason_header = codes " verified by phone ";
  action_reason = some (codes "verified by phone");
  request_id = codes "r2";
  client_ip = codes "10.0.0.1";
  user_agent = codes "";
}

abbrev office : World
office = record { requests = asked; events = [] }

post_approve-Audited_example :
    Audited Outcome.done desk
      (codes "backup.restore.approve")
      office
      (post_approve (at 2) desk office)
post_approve-Audited_example = post_approve-Audited (at 2) desk office

status_page :
    get_backups_status (at 3) asked
    ≡ success 200
        (record { pending_requests = 1; awaiting_fulfillment = 0; counts = (pending, 1) ∷ [] })
unfolding get_backups_status status_counts
status_page = refl

refused_page : get_requests text_eq (at 3) [] (codes "0") asked ≡ error 400 validation
unfolding get_requests trim_space atoi
refused_page = refl

one_page :
    get_requests text_eq (at 3) (codes " pending") (codes "") asked
    ≡ success 200 (asked.rows, pos 50)
unfolding get_requests trim_space list_requests select_page page_limit text_eq
one_page = refl
