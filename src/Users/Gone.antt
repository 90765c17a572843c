-- ===== src/Users/Gone.antt =====
-- DeleteUser, and what logins, sessions and permissions make of the user then.
use go_lab.Prelude.{
  ◌≡◌, refl, ◌≢◌, ◌∙◌, ap, ℤ, Text, Bool, true, false, ◌&&◌, Option, none, some, List, [], ◌∷◌, map,
  any, arith, inl, inr, ◌⊎◌,
}
use go_lab.Sql.{Call, answered, ok}
use go_lab.Sql.Rows.{find, update, matching, find-holds}
use go_lab.Http.{Context, success, auth_user_id, passes}
use go_lab.Session.{
  Session, has_hash, is_live, is_live_user, read_session, extend_session, validate_session,
}
use go_lab.Rbac.{permissions_for_role, grants}
use go_lab.Rbac.Roles.{PlatformRole, UserRole, has_role}
use go_lab.Rbac.Gate.{require_permission, require_permission-passes}
use go_lab.Accounts.{Account, UserRow, Db, is_present, is_login_of, user_auth_by_email}
use go_lab.Accounts.Granted.{user_of_row, role_db, present-role_db, any-map, none-any}
use go_lab.Users.{World, is_kept_user, set_deleted, removed, record_deletion, parse_id, delete_user}

module _ (db : Db) (uid : ℤ) (gone : is_present db uid ≡ false) where
  no_login :
      (collates : Text → Text → Bool) (c : Call) (email stored : Text)
      → user_auth_by_email collates c email db ≢ ok (uid, stored)
  unfolding user_auth_by_email
  no_login collates c email stored h = go (find (is_login_of collates db email) db.accounts) refl
    where
      go : (o : Option Account) → find (is_login_of collates db email) db.accounts ≡ o → ⊥
      go none e = absurd (ground (arith, e, h))
      go (some a) e =
          let holds = find-holds (is_login_of collates db email) db.accounts e in
          let its : a.linked_user_id ≡ uid = ground (arith, e, h) in
          let there : is_present db a.linked_user_id ≡ true = ground (arith, holds) in
          let here : is_present db uid ≡ true = rw its at there in
          absurd (ground (arith, here, gone))

  no_permission :
      (c : Call) (user_roles : List UserRole) (permission auth_subject : Text)
      → auth_user_id auth_subject ≡ some uid
      → db.connected ≡ true
      → answered (c.driver 0) ≡ true
      → passes (require_permission c (some (role_db user_roles db)) permission auth_subject) ≡ false
  no_permission c user_roles permission auth_subject subject up live =
      let absent = present-role_db user_roles db uid ∙ gone in
      require_permission-passes c (role_db user_roles db) permission auth_subject up refl live
      ∙ rw subject (
          none-any
            (λ (r : PlatformRole).
              has_role (role_db user_roles db) uid r
              && any (grants permission) (permissions_for_role r.name))
            db.roles (λ r. ground (arith, absent)))

  no_session :
      (hash : Text → Text) (c : Call) (raw_token : Text) (sessions : go_lab.Session.Db)
      → sessions.users ≡ map user_of_row db.users
      → (validate_session hash c raw_token sessions).0 ≢ ok uid
  unfolding validate_session read_session extend_session
  no_session hash c raw_token sessions same h =
      go (find (λ s. has_hash (hash raw_token) s && is_live sessions s) sessions.sessions) refl
    where
      go :
          (o : Option Session)
          → find (λ s. has_hash (hash raw_token) s && is_live sessions s) sessions.sessions ≡ o
          → ⊥
      go none e = absurd (ground (arith, e, h))
      go (some s) e =
          let holds =
            find-holds (λ s. has_hash (hash raw_token) s && is_live sessions s) sessions.sessions
              e in
          let its : s.user_id ≡ uid = ground (arith, e, h) in
          let absent : any (is_live_user uid) sessions.users ≡ false =
            ap (any (is_live_user uid)) same
            ∙ any-map (is_live_user uid) user_of_row db.users
            ∙ gone in
          let live : any (is_live_user s.user_id) sessions.users ≡ true = ground (arith, holds) in
          let here : any (is_live_user uid) sessions.users ≡ true = rw its at live in
          absurd (ground (arith, here, absent))

none_matching :
    (id : ℤ) (us : List UserRow)
    → matching (is_kept_user id) us ≡ 0
    → any (is_kept_user id) us ≡ false
none_matching id [] h = refl
none_matching id (u ∷ us) h = ground (arith, h, none_matching id us)

none_kept :
    (c : Call) (id : ℤ) (us : List UserRow)
    → any (is_kept_user id) (update (is_kept_user id) (set_deleted c) us) ≡ false
none_kept c id [] = refl
none_kept c id (u ∷ us) = ground (arith, none_kept c id us)

module _ (hash : Text → Text) (has_store : Bool) (c : Call) (ctx : Context) where
  record_deletion-same :
      (id : ℤ) (w : World) → (record_deletion has_store c ctx id w).accounts ≡ w.accounts
  record_deletion-same id w = ground arith

  absent :
      (w : World) (x : Unit {0}) (id : ℤ)
      → (delete_user hash has_store c ctx w).0 ≡ success 204 x
      → parse_id ctx.id_param ≡ some id
      → is_present (delete_user hash has_store c ctx w).1.accounts id ≡ false
  unfolding delete_user
  absent w x id h e =
      let same = record_deletion-same id (removed hash c id w) in
      let either : ((delete_user hash has_store c ctx w).1.accounts ≡ w.accounts)
            × (matching (is_kept_user id) w.accounts.users ≡ 0)
          ⊎ ((delete_user hash has_store c ctx w).1.accounts ≡ (removed hash c id w).accounts) =
        ground (arith, e, h, same) in
      elim either [
        | inl (left, nobody) ↦ rw left (none_matching id w.accounts.users nobody)
        | inr left ↦ rw left (none_kept c id w.accounts.users)
      ]

  -- After a deletion that was answered with status 204, the user that the path names is gone: no
  -- e-mail logs in as that user; no token validates as a session of that user, whatever sessions
  -- there are beside these users; and, where the database is connected and answers, no permission is
  -- granted to the user.
  pub delete_user-gone :
      (w : World) (x : Unit {0}) (id : ℤ)
      → (delete_user hash has_store c ctx w).0 ≡ success 204 x
      → parse_id ctx.id_param ≡ some id
      → (collates : Text → Text → Bool) (c' : Call) (email stored raw_token : Text)
        (sessions : go_lab.Session.Db) (user_roles : List UserRole) (permission auth_subject : Text)
      → sessions.users ≡ map user_of_row (delete_user hash has_store c ctx w).1.accounts.users
      → auth_user_id auth_subject ≡ some id
      → (delete_user hash has_store c ctx w).1.accounts.connected ≡ true
      → answered (c'.driver 0) ≡ true
      → (user_auth_by_email collates c' email (delete_user hash has_store c ctx w).1.accounts
          ≢ ok (id, stored))
        × ((validate_session hash c' raw_token sessions).0 ≢ ok id)
        × (passes (
              require_permission c'
                (some (role_db user_roles (delete_user hash has_store c ctx w).1.accounts))
                permission
                auth_subject)
            ≡ false)
  delete_user-gone w x id h e collates c' email stored raw_token sessions user_roles permission
        auth_subject same subject up answers =
      let db = (delete_user hash has_store c ctx w).1.accounts in
      let gone = absent w x id h e in
      (
        no_login db id gone collates c' email stored,
        no_session db id gone hash c' raw_token sessions same,
        no_permission db id gone c' user_roles permission auth_subject subject up answers,
      )
