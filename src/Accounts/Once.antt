-- ===== src/Accounts/Once.antt =====
-- AcceptOperatorInvite: what a success has found, and what comes of a second one.
use go_lab.Prelude.{
  ◌<◌, ◌≡◌, refl, ◌≢◌, ◌∙◌, ap, ℤ, Text, Bool, true, Option, none, some, List, arith,
}
use go_lab.Strings.{trim_space, equal_fold}
use go_lab.Sql.{Call, ok}
use go_lab.Sql.Rows.{find, update}
use go_lab.Sql.Keys.{find-update_by}
use go_lab.Rbac.Roles.{PlatformRole}
use go_lab.Accounts.{Invite, Db}
use go_lab.Accounts.Invites.{
  has_hash, InviteResult, display_name, positive_id, user_of, is_open, set_consumed, granted,
  accept_for, accept_row, accept_invite,
}
use go_lab.Accounts.Steps.{user_of-invites, run-Holds, Step, run}

module _ (collates : Text → Text → Bool) where
  -- What an acceptance that succeeds has found, and what it leaves.
  pub record Accepted (c : Call) (h email hash name : Text) (db db' : Db) (res : InviteResult)
      : Type 0 where
    pub invite : Invite
    pub role : PlatformRole
    pub found : find (has_hash h) db.invites ≡ some invite
    pub unconsumed : invite.consumed_at ≡ none
    pub live : c.now < invite.expires_at
    pub same_email : equal_fold (trim_space invite.email) (trim_space email) ≡ true
    pub has_role :
        find (λ (r : PlatformRole). collates r.name invite.role_name) db.roles ≡ some role
    pub result : res ≡ record {
      linked_user_id =
          (user_of (positive_id invite.linked_user_id) (display_name name invite) db).0;
      email = invite.email;
      role_name = invite.role_name;
    }
    pub left :
        db'
        ≡ granted collates c invite
            (user_of (positive_id invite.linked_user_id) (display_name name invite) db).0
            hash
            role
            (user_of (positive_id invite.linked_user_id) (display_name name invite) db).1

  accept_for-ok :
      (c : Call) (i : Invite) (hash : Text) (role : PlatformRole) (before db : Db) (uid : ℤ)
      (res : InviteResult)
      → (accept_for collates c i hash role before (uid, db)).0 ≡ ok res
      → (res ≡ record { linked_user_id = uid; email = i.email; role_name = i.role_name })
        × ((accept_for collates c i hash role before (uid, db)).1
            ≡ granted collates c i uid hash role db)
  unfolding accept_for
  accept_for-ok c i hash role before db uid res done = (ground (arith, done), ground (arith, done))

  accept_row-ok :
      (c : Call) (i : Invite) (email hash name : Text) (db : Db) (res : InviteResult)
      → (accept_row collates c i email hash name db).0 ≡ ok res
      → (i.consumed_at ≡ none)
        × (c.now < i.expires_at)
        × (equal_fold (trim_space i.email) (trim_space email) ≡ true)
        × (r : PlatformRole) × (find (λ (r : PlatformRole). collates r.name i.role_name) db.roles
            ≡ some r)
        × (accept_row collates c i email hash name db
            ≡ accept_for collates c i hash r db
                (user_of (positive_id i.linked_user_id) (display_name name i) db))
  unfolding accept_row
  accept_row-ok c i email hash name db res done =
      let (r, has_role, for_user) =
        go (find (λ (r : PlatformRole). collates r.name i.role_name) db.roles) refl in
      (ground (arith, done), ground (arith, done), ground (arith, done), r, has_role, for_user)
    where
      go :
          (found : Option PlatformRole)
          → find (λ (r : PlatformRole). collates r.name i.role_name) db.roles ≡ found
          → (r : PlatformRole) × (find (λ (r : PlatformRole). collates r.name i.role_name) db.roles
              ≡ some r)
            × (accept_row collates c i email hash name db
                ≡ accept_for collates c i hash r db
                    (user_of (positive_id i.linked_user_id) (display_name name i) db))
      go none e = absurd (ground (arith, e, done))
      go (some r) e = (r, e, ground (arith, e, done))

  -- An acceptance that succeeds has found, by the hash of its token, an invite that is not consumed,
  -- not expired and for the e-mail that was given up to white space and case, and the role that the
  -- invite names; it returns the invite's e-mail and role and its positive linked user, or else a new
  -- one, and leaves exactly the tables with that user's account, its role and the invite consumed.
  pub accept-Accepted :
      (c : Call) (h email hash name : Text) (db : Db) (res : InviteResult)
      → (accept_invite collates c h email hash name db).0 ≡ ok res
      → Accepted c h email hash name db (accept_invite collates c h email hash name db).1 res
  unfolding accept_invite
  accept-Accepted c h email hash name db res done = go (find (has_hash h) db.invites) refl
    where
      go :
          (found : Option Invite)
          → find (has_hash h) db.invites ≡ found
          → Accepted c h email hash name db (accept_invite collates c h email hash name db).1 res
      go none e = absurd (ground (arith, e, done))
      go (some i) e =
          let same : accept_invite collates c h email hash name db
              ≡ accept_row collates c i email hash name db =
            ground (arith, e, done) in
          let (unconsumed, live, same_email, r, has_role, for_user) =
            accept_row-ok c i email hash name db res (rw same at done) in
          let user = user_of (positive_id i.linked_user_id) (display_name name i) db in
          let (result, left) =
            accept_for-ok c i hash r db user.1 user.0 res (rw (same, for_user) at done) in
          record {
            invite = i;
            role = r;
            found = e;
            unconsumed = unconsumed;
            live = live;
            same_email = same_email;
            has_role = has_role;
            result = result;
            left = rw (same, for_user) left;
          }

  -- After an acceptance of an invite that succeeded, no acceptance of it succeeds any more, whatever
  -- calls come between and however the driver answers.
  pub accept_once :
      (c c' : Call) (h email email' hash hash' name name' : Text) (db : Db)
      (res res' : InviteResult) (calls : List (Call × Step))
      → (accept_invite collates c h email hash name db).0 ≡ ok res
      → (accept_invite collates c' h email' hash' name'
          (run collates calls (accept_invite collates c h email hash name db).1)).0
        ≢ ok res'
  accept_once c c' h email email' hash hash' name name' db res res' calls done again =
      let first = accept-Accepted c h email hash name db res done in
      let db1 = (accept_invite collates c h email hash name db).1 in
      let same =
        user_of-invites collates (positive_id first.invite.linked_user_id)
          (display_name name first.invite) db in
      let left : db1.invites ≡ update (is_open first.invite.id) (set_consumed c) db.invites =
        ap (λ (d : Db). d.invites) first.left ∙ rw same refl in
      let mine : is_open first.invite.id first.invite ≡ true = ground (arith, first.unconsumed) in
      let found : find (has_hash h) db1.invites ≡ some (set_consumed c first.invite) = rw left (
        find-update_by (has_hash h) (is_open first.invite.id) (set_consumed c) db.invites
          (λ x. refl)
        ∙ rw (first.found, mine) refl) in
      let later = run-Holds collates calls db1 h (set_consumed c first.invite) found in
      let second = accept-Accepted c' h email' hash' name' (run collates calls db1) res' again in
      let row : later.row ≡ second.invite = ground (arith, later.found, second.found) in
      let kept = later.follows.stays_consumed in ground (arith, row, kept, second.unconsumed)
