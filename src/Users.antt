-- ===== src/Users.antt =====
-- api/myhandlers/sqlhandlers.go: the users, and the deletion of one, which is a soft deletion that
-- revokes the user's sessions and suspends the account. `parseID` is of myhandlers.go.
pub mod Gone
pub mod Listed
mod Tests
use go_lab.Prelude.{
  ℕ, ◌+◌, ℤ, pos, int_eq, ltb_ℤ, is_positive, Text, codes, text_eq, is_empty, Bool, true, false,
  ◌&&◌, ◌||◌, not, Option, none, some, is_some, List, [], ◌∷◌, map, filter, take, any, ◌==◌,
  if◌then◌else◌,
}
use go_lab.Strings.{trim_space}
use go_lab.Strconv.{atoi, itoa}
use go_lab.Sql.{Call, Outcome, answered, settle, null_str}
use go_lab.Sql.Rows.{find, update, matching, insert}
use go_lab.Http.{
  validation, not_found, internal, Reply, success, error, Context, auth_user_id, reason_of,
}
use go_lab.Audit.{AdminEvent, insert_admin_event}
use go_lab.Session.{Session, set_revoked, is_active_of}
use go_lab.Accounts.{UserRow, Account, is_user}

-- The tables that these handlers read and write.
pub record World : Type 0 where
  pub accounts : go_lab.Accounts.Db
  pub sessions : List Session
  pub events : List AdminEvent

-- `User`
pub record User : Type 0 where
  pub id : ℤ
  pub name : Text
  pub pennies : ℤ

-- `userPayload`, bound: a name of 1 to 100 characters, pennies that are not negative.
pub record UserPayload : Type 0 where
  pub name : Text
  pub pennies : ℕ

abbrev pub shown : UserRow → User
shown u = record { id = u.id; name = u.name; pennies = u.pennies }

abbrev pub is_kept : UserRow → Bool
is_kept u = not (is_some u.deleted_at)

-- `ORDER BY pennies DESC, id ASC`
abbrev pub ranks_before : UserRow → UserRow → Bool
ranks_before u v = ltb_ℤ v.pennies u.pennies || (int_eq v.pennies u.pennies && ltb_ℤ u.id v.id)

unfoldable pub place : UserRow → List UserRow → List UserRow
place u [] = u ∷ []
place u (v ∷ vs) = let rest = place u vs in if ranks_before v u then v ∷ rest else u ∷ v ∷ vs

unfoldable pub ranked : List UserRow → List UserRow
ranked [] = []
ranked (u ∷ us) = place u (ranked us)

-- The rows that `rows.Next` delivers: all of them, or some where the connection breaks, which the
-- handlers do not notice, since they do not ask for `rows.Err()`.
abbrev delivered : Option ℕ → List User → List User
delivered none us = us
delivered (some n) us = take n us

-- `GetUsers`
unfoldable pub get_users : Call → Option ℕ → World → Reply (List User)
get_users c broken w =
    if not (answered (c.driver 0))
    then error 500 internal
    else success 200 (delivered broken (map shown (ranked (filter is_kept w.accounts.users))))

-- `SearchUsers`; `like` is the database's LIKE of a pattern, here with "%" around the name.
unfoldable pub search_users :
    (Text → Text → Bool) → Call → Option ℕ → Text → World → Reply (List User)
search_users like c broken query w =
    let name = trim_space query in
    if is_empty name
    then success 200 []
    else if not (answered (c.driver 0))
    then error 500 internal
    else success 200 (
        delivered broken
          (map shown (ranked (filter (λ u. is_kept u && like name u.name) w.accounts.users))))

abbrev positive_only : Option ℤ → Option ℤ
positive_only none = none
positive_only (some id) = if is_positive id then some id else none

-- `parseID`
unfoldable pub parse_id : Text → Option ℤ
parse_id id_param = positive_only (atoi id_param)

abbrev pub is_kept_user : ℤ → UserRow → Bool
is_kept_user id u = is_user id u && is_kept u

-- `GetUserByID`
unfoldable pub get_user : Call → Text → World → Reply User
get_user c id_param w = elim (parse_id id_param) [
  | none ↦ error 400 validation
  | some id ↦
      if not (answered (c.driver 0))
      then error 500 internal
      else elim (find (is_kept_user id) w.accounts.users) [
        | none ↦ error 404 not_found
        | some u ↦ success 200 (shown u)
      ]
]

abbrev put_users : Outcome → List UserRow → World → World
put_users o users w = record w {
  accounts = record w.accounts { users = settle o w.accounts.users users };
}

abbrev next_after : Outcome → World → World
next_after o w = record w {
  accounts = record w.accounts {
    next_user = settle o w.accounts.next_user (w.accounts.next_user + 1);
  };
}

-- `CreateUser`
unfoldable pub create_user : Call → Option UserPayload → World → Reply User × World
create_user c body w = elim body [
  | none ↦ (error 400 validation, w)
  | some b ↦
      let name = trim_space b.name in
      let id = pos w.accounts.next_user in
      let row : UserRow = record {
        id = id;
        name = name;
        pennies = pos b.pennies;
        deleted_at = none;
      } in
      if is_empty name then (error 400 validation, w) else (
        if answered (c.driver 0)
            then success 201 (record { id = id; name = name; pennies = pos b.pennies })
            else error 500 internal,
        next_after (c.driver 0) (put_users (c.driver 0) (insert row w.accounts.users) w),
      )
]

-- The rows that change: MySQL does not count one that has these values already.
abbrev takes_values : ℤ → Text → ℤ → UserRow → Bool
takes_values id name pennies u =
    is_kept_user id u && not (text_eq u.name name && int_eq u.pennies pennies)

abbrev set_values : Text → ℤ → UserRow → UserRow
set_values name pennies u = record u { name = name; pennies = pennies }

-- `UpdateUser`
unfoldable pub update_user : Call → Text → Option UserPayload → World → Reply User × World
update_user c id_param body w = elim (parse_id id_param) [
  | none ↦ (error 400 validation, w)
  | some id ↦ elim body [
    | none ↦ (error 400 validation, w)
    | some b ↦
        let name = trim_space b.name in
        let pennies = pos b.pennies in
        if is_empty name then (error 400 validation, w) else (
          if not (answered (c.driver 0))
              then error 500 internal
              else if matching (takes_values id name pennies) w.accounts.users == 0
              then error 404 not_found
              else success 200 (record { id = id; name = name; pennies = pennies }),
          put_users (c.driver 0)
              (update (takes_values id name pennies) (set_values name pennies) w.accounts.users) w,
        )
  ]
]

abbrev set_deleted : Call → UserRow → UserRow
set_deleted c u = record u { deleted_at = some c.db_now }

abbrev set_suspended : Account → Account
set_suspended a = record a { status = codes "suspended" }

abbrev belongs_to : ℤ → Account → Bool
belongs_to id a = int_eq a.linked_user_id id

-- The tables after the three UPDATEs of DeleteUser.
abbrev pub removed : (Text → Text) → Call → ℤ → World → World
removed hash c id w = record w {
  accounts = record w.accounts {
    users = update (is_kept_user id) (set_deleted c) w.accounts.users;
    accounts = update (belongs_to id) set_suspended w.accounts.accounts;
  };
  sessions = update (is_active_of hash id) (set_revoked hash c) w.sessions;
}

-- The audit event of a deletion, if the caller is a user; it is statement 6.
abbrev pub record_deletion : Bool → Call → Context → ℤ → World → World
record_deletion has_store c ctx id w =
    if not has_store then w else elim (auth_user_id ctx.auth_subject) [
      | none ↦ w
      | some actor ↦ record w {
        events =
            (insert_admin_event (c.driver 6) w.accounts.connected
              (record {
                actor_user_id = some actor;
                auth_subject = ctx.auth_subject;
                action = codes "user.soft_deleted";
                resource_type = codes "user";
                resource_id = null_str (itoa id);
                reason = null_str (reason_of ctx);
                request_id = null_str ctx.request_id;
                ip = null_str ctx.client_ip;
                user_agent = null_str ctx.user_agent;
                meta_json = none;
              })
              w.events).1;
      }
    ]

-- `DeleteUser`: BEGIN is statement 0, the UPDATE of the user 1; then the look-up of a user that it
-- did not change is 2, or the UPDATEs of the sessions and of the account 3 and 4, the COMMIT 5.
unfoldable pub delete_user :
    (Text → Text) → Bool → Call → Context → World → Reply (Unit {0}) × World
delete_user hash has_store c ctx w = elim (parse_id ctx.id_param) [
  | none ↦ (error 400 validation, w)
  | some id ↦
      if not (answered (c.driver 0) && answered (c.driver 1))
      then (error 500 internal, w)
      else if matching (is_kept_user id) w.accounts.users == 0
      then (
        if not (answered (c.driver 2))
            then error 500 internal
            else if any (is_user id) w.accounts.users
            then success 204 tt
            else error 404 not_found,
        w,
      )
      else if not (answered (c.driver 3) && answered (c.driver 4))
      then (error 500 internal, w)
      else if not (answered (c.driver 5))
      then (error 500 internal, settle (c.driver 5) w (removed hash c id w))
      else (success 204 tt, record_deletion has_store c ctx id (removed hash c id w))
]
