-- ===== src/Users/Tests.antt =====
-- The user handlers on concrete tables.
use go_lab.Strings.{trim_space, has_prefix}
use go_lab.Strconv.{atoi}
use go_lab.Prelude.{
  false, ltb_ℤ, is_positive, ◌≡◌, ◌≢◌, refl, Text, pos, int_eq, text_eq, codes, Bool, true, ◌&&◌,
  none, some, List, [], ◌∷◌, map, any,
}
use go_lab.Sql.{steady, ok}
use go_lab.Session
use go_lab.Session.{validate_session}
use go_lab.Rbac.Gate.{require_permission}
use go_lab.Accounts.Granted.{user_of_row, role_db}
use go_lab.Http.{Context, success, error, not_found, passes, auth_user_id}
use go_lab.Accounts.{UserRow, user_auth_by_email}
use go_lab.Users.{
  ranked, place, World, User, shown, is_kept, parse_id, get_users, search_users, get_user,
  create_user, update_user, delete_user,
}
use go_lab.Users.Gone.{delete_user-gone}
use go_lab.Users.Listed.{Ranked, get_users-lists}

abbrev world : World
world = record {
  accounts = record {
    connected = true;
    users =
        record { id = pos 1; name = codes "ann"; pennies = pos 5; deleted_at = none }
        ∷ record { id = pos 2; name = codes "bob"; pennies = pos 9; deleted_at = none }
        ∷ record { id = pos 3; name = codes "cy"; pennies = pos 9; deleted_at = some 4 }
        ∷ [];
    accounts =
        record {
          id = 1;
          linked_user_id = pos 2;
          email = codes "b@x";
          password_hash = codes "key";
          status = codes "active";
          invited_by = none;
          last_login_at = none;
        }
        ∷ [];
    invites = [];
    identities = [];
    roles = [];
    account_roles = [];
    next_user = 4;
    next_account = 2;
    next_invite = 1;
  };
  sessions =
      record {
        id = 1;
        user_id = pos 2;
        token_hash = codes "#t";
        last_seen_at = 1;
        expires_at = 90;
        absolute_expires_at = 99;
        revoked_at = none;
        ip = none;
        user_agent = none;
      }
      ∷ [];
  events = [];
}

abbrev path : Context
path = record {
  auth_subject = codes "user:1";
  id_param = codes "2";
  reason_header = codes "left";
  action_reason = none;
  request_id = codes "r";
  client_ip = codes "::1";
  user_agent = codes "curl";
}

unchanged_update :
    (update_user
      (steady 5 5)
      (codes "2")
      (some (record { name = codes " bob"; pennies = 9 }))
      world).0
    ≡ error 404 not_found
unfolding update_user parse_id atoi is_positive trim_space int_eq text_eq
unchanged_update = refl

changed_update :
    (update_user
      (steady 5 5)
      (codes "2")
      (some (record { name = codes "rob"; pennies = 9 }))
      world).0
    ≡ success 200 (record { id = pos 2; name = codes "rob"; pennies = pos 9 })
unfolding update_user parse_id atoi is_positive trim_space int_eq text_eq
changed_update = refl

cut_list :
    get_users (steady 5 5) (some 1) world
    ≡ success 200 (record { id = pos 2; name = codes "bob"; pennies = pos 9 } ∷ [])
unfolding get_users ranked place ltb_ℤ
cut_list = refl

created :
    get_user
      (steady 6 6)
      (codes "4")
      (create_user (steady 5 5) (some (record { name = codes "di "; pennies = 3 })) world).1
    ≡ success 200 (record { id = pos 4; name = codes "di"; pennies = pos 3 })
unfolding get_user parse_id atoi is_positive create_user trim_space int_eq
created = refl

searched :
    search_users text_eq (steady 5 5) none (codes " ann ") world
    ≡ success 200 (record { id = pos 1; name = codes "ann"; pennies = pos 5 } ∷ [])
unfolding search_users trim_space ranked text_eq place
searched = refl

abbrev digest : Text → Text
digest s = b'#' ∷ s

abbrev sessions_left : go_lab.Session.Db
sessions_left = record {
  connected = true;
  idle_ttl = 60;
  abs_ttl = 90;
  users = map user_of_row (delete_user digest true (steady 5 5) path world).1.accounts.users;
  sessions = (delete_user digest true (steady 5 5) path world).1.sessions;
  next_id = 2;
}

delete_user-gone_example :
    (user_auth_by_email text_eq
        (steady 6 6)
        (codes "b@x")
        (delete_user digest true (steady 5 5) path world).1.accounts
      ≢ ok (pos 2, codes "key"))
    × ((validate_session digest (steady 6 6) (codes "t") sessions_left).0 ≢ ok (pos 2))
    × (passes (
          require_permission
            (steady 6 6)
            (some (role_db [] (delete_user digest true (steady 5 5) path world).1.accounts))
            (codes "users.delete")
            (codes "user:2"))
        ≡ false)
unfolding delete_user parse_id atoi is_positive int_eq auth_user_id trim_space has_prefix
delete_user-gone_example =
    delete_user-gone digest true (steady 5 5) path world tt (pos 2) refl refl text_eq (steady 6 6)
      (codes "b@x") (codes "key") (codes "t") sessions_left [] (codes "users.delete")
      (codes "user:2") refl refl refl refl

get_users-lists_run :
    (us : List UserRow) × (get_users (steady 5 5) none world ≡ success 200 (map shown us))
    × Ranked us
    × ((q : User → Bool)
        → any (λ u. q (shown u)) us ≡ any (λ u. is_kept u && q (shown u)) world.accounts.users)
get_users-lists_run = get_users-lists (steady 5 5) world refl
