-- ===== src/Accounts/Steps.antt =====
-- Sequences of calls on the accounts, and what they make of an invite.
use go_lab.Prelude.{
  ℕ, ◌≡◌, refl, ◌∙◌, ◌⊎◌, inl, inr, ℤ, Text, Bool, Option, none, some, List, [], ◌∷◌, arith,
  Bool-cases,
}
use go_lab.Sql.{Call}
use go_lab.Sql.Rows.{find, update, insert}
use go_lab.Sql.Keys.{find-update_by, find-insert_by, revise}
use go_lab.Rbac.Roles.{PlatformRole}
use go_lab.Accounts.{
  Invite, Db, touch_login, create_registered_user, update_password_hash, ensure_oidc_user,
}
use go_lab.Accounts.Invites.{
  has_hash, new_invite, create_invite, display_name, positive_id, user_of, is_open, set_consumed,
  accept_for, accept_row, accept_invite,
}

-- The calls that change the tables.
pub data Step : Type 0 where
  invite_for : Text → Text → Text → Text → Option ℤ → Option ℤ → ℕ → Text → Step
  accept_by : Text → Text → Text → Text → Step
  register_as : Text → Text → Text → Step
  touch_at : Text → Step
  set_password : ℤ → Text → Step
  ensure_for : Text → Text → Text → Step

module _ (collates : Text → Text → Bool) where
  unfoldable pub apply : Call → Step → Db → Db
  apply c (invite_for h email name role linked by exp meta) db =
      (create_invite c h email name role linked by exp meta db).1
  apply c (accept_by h email hash name) db = (accept_invite collates c h email hash name db).1
  apply c (register_as email name hash) db =
      (create_registered_user collates c email name hash db).1
  apply c (touch_at email) db = (touch_login collates c email db).1
  apply c (set_password uid hash) db = (update_password_hash c uid hash db).1
  apply c (ensure_for issuer subject name) db =
      (ensure_oidc_user collates c issuer subject name db).1

  unfoldable pub run : List (Call × Step) → Db → Db
  run [] db = db
  run ((c, q) ∷ calls) db = run calls (apply c q db)

-- An invite keeps what it grants, and that it is consumed.
pub record Follows (i j : Invite) : Type 0 where
  pub same_email : j.email ≡ i.email
  pub same_role : j.role_name ≡ i.role_name
  pub same_expiry : j.expires_at ≡ i.expires_at
  pub stays_consumed : (i.consumed_at ≡ none) ⊎ (j.consumed_at ≡ i.consumed_at)

Follows-refl : (i : Invite) → Follows i i
Follows-refl i = record {
  same_email = refl;
  same_role = refl;
  same_expiry = refl;
  stays_consumed = inr refl;
}

Follows-trans : {i j k : Invite} → Follows i j → Follows j k → Follows i k
Follows-trans a b = record {
  same_email = b.same_email ∙ a.same_email;
  same_role = b.same_role ∙ a.same_role;
  same_expiry = b.same_expiry ∙ a.same_expiry;
  stays_consumed = ground (arith, a.stays_consumed, b.stays_consumed);
}

pub record Holds (h : Text) (i : Invite) (invites : List Invite) : Type 0 where
  pub row : Invite
  pub found : find (has_hash h) invites ≡ some row
  pub follows : Follows i row

-- What one call makes of the invites: nothing, a consumption, or a new row.
Changed : Call → List Invite → List Invite → Type 0
Changed c xs ys =
    (ys ≡ xs)
    ⊎ (((id : ℕ) × (ys ≡ update (is_open id) (set_consumed c) xs))
        ⊎ ((i : Invite) × (ys ≡ insert i xs)))

Changed-Holds :
    (c : Call) (h : Text) (i : Invite) (xs ys : List Invite)
    → Changed c xs ys
    → find (has_hash h) xs ≡ some i
    → Holds h i ys
unfolding Changed
Changed-Holds c h i xs ys (inl same) e =
    rw same (record { row = i; found = e; follows = Follows-refl i })
Changed-Holds c h i xs ys (inr (inl (id, did))) e = rw did (record {
  row = revise (is_open id) (set_consumed c) i;
  found = find-update_by (has_hash h) (is_open id) (set_consumed c) xs (λ x. refl) ∙ rw e;
  follows = elim (Bool-cases (is_open id i)) [
    | inl t ↦ rw t (record {
      same_email = refl;
      same_role = refl;
      same_expiry = refl;
      stays_consumed = inl (ground arith);
    })
    | inr t ↦ rw t (Follows-refl i)
  ];
})
Changed-Holds c h i xs ys (inr (inr (new, did))) e =
    rw did
      (record { row = i; found = find-insert_by (has_hash h) new i xs e; follows = Follows-refl i })

module _ (collates : Text → Text → Bool) where
  pub user_of-invites :
      (o : Option ℤ) (name : Text) (db : Db) → (user_of o name db).1.invites ≡ db.invites
  user_of-invites none name db = refl
  user_of-invites (some uid) name db = refl

  accept-Changed :
      (c : Call) (h email hash name : Text) (db : Db)
      → Changed c db.invites (accept_invite collates c h email hash name db).1.invites
  unfolding accept_invite accept_row accept_for Changed
  accept-Changed c h email hash name db = go (find (has_hash h) db.invites) refl
    where
      after : Text → Db
      after h = (accept_invite collates c h email hash name db).1

      with_role :
          (i : Invite) (found : Option PlatformRole)
          → find (has_hash h) db.invites ≡ some i
          → find (λ (r : PlatformRole). collates r.name i.role_name) db.roles ≡ found
          → (after h ≡ db) ⊎ (after h).invites ≡ update (is_open i.id) (set_consumed c) db.invites
      with_role i none e f = inl (ground (arith, e, f))
      with_role i (some role) e f =
          let same = user_of-invites (positive_id i.linked_user_id) (display_name name i) db in
          ground (arith, e, f, same)

      go :
          (found : Option Invite)
          → find (has_hash h) db.invites ≡ found
          → Changed c db.invites (after h).invites
      go none e = inl (ground (arith, e))
      go (some i) e =
          elim (with_role i (find (λ (r : PlatformRole). collates r.name i.role_name) db.roles) e
            refl) [ inl same ↦ inl (rw same) | inr did ↦ inr (inl (i.id, did)) ]

  create-Changed :
      (c : Call) (h email name role : Text) (linked by : Option ℤ) (exp : ℕ) (meta : Text) (db : Db)
      → Changed c db.invites (create_invite c h email name role linked by exp meta db).1.invites
  unfolding create_invite Changed
  create-Changed c h email name role linked by exp meta db =
      let new = new_invite db.next_invite h email name role linked by exp meta in
      let either : ((create_invite c h email name role linked by exp meta db).1.invites
            ≡ db.invites)
          ⊎ ((create_invite c h email name role linked by exp meta db).1.invites
              ≡ insert new db.invites) =
        ground arith in
      elim either [ inl same ↦ inl same | inr did ↦ inr (inr (new, did)) ]

  ensure-same :
      (c : Call) (issuer subject name : Text) (db : Db)
      → (ensure_oidc_user collates c issuer subject name db).1.invites ≡ db.invites
  unfolding ensure_oidc_user
  ensure-same c issuer subject name db = ground arith

  apply-Changed :
      (c : Call) (q : Step) (db : Db) → Changed c db.invites (apply collates c q db).invites
  unfolding apply Changed create_registered_user touch_login update_password_hash
  apply-Changed c (invite_for h email name role linked by exp meta) db =
      create-Changed c h email name role linked by exp meta db
  apply-Changed c (accept_by h email hash name) db = accept-Changed c h email hash name db
  apply-Changed c (register_as email name hash) db = inl (ground arith)
  apply-Changed c (touch_at email) db = inl (ground arith)
  apply-Changed c (set_password uid hash) db = inl refl
  apply-Changed c (ensure_for issuer subject name) db = inl (ensure-same c issuer subject name db)

  pub run-Holds :
      (calls : List (Call × Step)) (db : Db) (h : Text) (i : Invite)
      → find (has_hash h) db.invites ≡ some i
      → Holds h i (run collates calls db).invites
  unfolding run
  run-Holds [] db h i e = record { row = i; found = e; follows = Follows-refl i }
  run-Holds ((c, q) ∷ calls) db h i e =
      let one =
        Changed-Holds c h i db.invites (apply collates c q db).invites (apply-Changed c q db) e in
      let rest = run-Holds calls (apply collates c q db) h one.row one.found in
      record {
        row = rest.row;
        found = rest.found;
        follows = Follows-trans one.follows rest.follows;
      }
