-- ===== src/Oidc/Stable.antt =====
-- TryResolveAuthSubject over sequences of calls of the store.
use go_lab.Prelude.{
  ◌≡◌, refl, ◌∙◌, sym, ap, ◌⊎◌, inl, inr, ℤ, pos, Text, Bool, true, false, Option, none, some, List,
  [], ◌∷◌, arith,
}
use mathlib.Core.Path.{fun_ext}
use go_lab.Sql.{Call, Result, ok, err}
use go_lab.Sql.Rows.{find, insert}
use go_lab.Sql.Keys.{find-insert_by, find-insert_absent, find-none}
use go_lab.Rbac.Roles.{PlatformRole}
use go_lab.Accounts.{
  AccountError, Identity, Invite, Db, is_identity, create_registered_user, update_password_hash,
  touch_login, ensure_oidc_user,
}
use go_lab.Accounts.Invites.{
  create_invite, accept_for, accept_row, accept_invite, user_of, positive_id, display_name,
}
use go_lab.Accounts.Steps.{
  Step, invite_for, accept_by, register_as, touch_at, set_password, ensure_for, apply, run,
}
use go_lab.Http.Subject.{user_subject}
use go_lab.Strings.{trim_space}
use go_lab.Oidc.{IdToken, clients, has_suffix, or_else, resolved, resolve_user, try_resolve}

-- What a call makes of the identities: nothing, or one more.
Grown : List Identity → List Identity → Type 0
Grown xs ys = (ys ≡ xs) ⊎ ((i : Identity) × (ys ≡ insert i xs))

Grown-find :
    (p : Identity → Bool) (i : Identity) (xs ys : List Identity)
    → Grown xs ys
    → find p xs ≡ some i
    → find p ys ≡ some i
unfolding Grown
Grown-find p i xs ys (inl same) e = rw same e
Grown-find p i xs ys (inr (j, did)) e = rw did (find-insert_by p j i xs e)

module _ (collates : Text → Text → Bool) where
  ensure-Grown :
      (c : Call) (issuer subject name : Text) (db : Db)
      → Grown db.identities (ensure_oidc_user collates c issuer subject name db).1.identities
  unfolding ensure_oidc_user Grown
  ensure-Grown c issuer subject name db =
      let new : Identity = record {
        user_id = pos db.next_user;
        issuer = issuer;
        subject = subject;
      } in
      let either : ((ensure_oidc_user collates c issuer subject name db).1.identities
            ≡ db.identities)
          ⊎ ((ensure_oidc_user collates c issuer subject name db).1.identities
              ≡ insert new db.identities) =
        ground arith in
      elim either [ inl same ↦ inl same | inr did ↦ inr (new, did) ]

  -- A user that was resolved is the one of the identity that is then there.
  ensure-found :
      ((x : Text) → collates x x ≡ true)
      → (c : Call) (issuer subject name : Text) (db : Db) (uid : ℤ)
      → (ensure_oidc_user collates c issuer subject name db).0 ≡ ok uid
      → (i : Identity) × (find
            (is_identity collates issuer subject)
            (ensure_oidc_user collates c issuer subject name db).1.identities
          ≡ some i)
        × (i.user_id ≡ uid)
  unfolding ensure_oidc_user
  ensure-found itself c issuer subject name db uid h =
      go (find (is_identity collates issuer subject) db.identities) refl
    where
      go :
          (o : Option Identity)
          → find (is_identity collates issuer subject) db.identities ≡ o
          → (i : Identity) × (find
                (is_identity collates issuer subject)
                (ensure_oidc_user collates c issuer subject name db).1.identities
              ≡ some i)
            × (i.user_id ≡ uid)
      go (some i) e = (i, ground (arith, e, h), ground (arith, e, h))
      go none e =
          let new : Identity = record {
            user_id = pos db.next_user;
            issuer = issuer;
            subject = subject;
          } in
          let did : (ensure_oidc_user collates c issuer subject name db).1.identities
              ≡ insert new db.identities =
            ground (arith, e, h) in
          let mine : is_identity collates issuer subject new ≡ true =
            ground (arith, itself issuer, itself subject) in
          let found =
            find-insert_absent (is_identity collates issuer subject) new db.identities
              (find-none (is_identity collates issuer subject) db.identities e) mine in
          (new, rw did found, ground (arith, e, h))

  ensure-known :
      (c : Call) (issuer subject name : Text) (db : Db) (i : Identity) (uid : ℤ)
      → find (is_identity collates issuer subject) db.identities ≡ some i
      → (ensure_oidc_user collates c issuer subject name db).0 ≡ ok uid
      → i.user_id ≡ uid
  unfolding ensure_oidc_user
  ensure-known c issuer subject name db i uid e h = ground (arith, e, h)

  user_of-identities :
      (o : Option ℤ) (name : Text) (db : Db) → (user_of o name db).1.identities ≡ db.identities
  user_of-identities none name db = refl
  user_of-identities (some uid) name db = refl

  for-same :
      (c : Call) (i : Invite) (hash : Text) (role : PlatformRole) (before db : Db) (uid : ℤ)
      → db.identities ≡ before.identities
      → (accept_for collates c i hash role before (uid, db)).1.identities ≡ before.identities
  unfolding accept_for
  for-same c i hash role before db uid e = ground (arith, e)

  row-same :
      (c : Call) (i : Invite) (email hash name : Text) (db : Db)
      → (accept_row collates c i email hash name db).1.identities ≡ db.identities
  unfolding accept_row
  row-same c i email hash name db =
      go (find (λ (r : PlatformRole). collates r.name i.role_name) db.roles) refl
    where
      go :
          (o : Option PlatformRole)
          → find (λ (r : PlatformRole). collates r.name i.role_name) db.roles ≡ o
          → (accept_row collates c i email hash name db).1.identities ≡ db.identities
      go none e = ground (arith, e)
      go (some r) e =
          let user = user_of (positive_id i.linked_user_id) (display_name name i) db in
          let rest =
            for-same c i hash r db user.1 user.0
              (user_of-identities (positive_id i.linked_user_id) (display_name name i) db) in
          ground (arith, e, rest)

  accept-same :
      (c : Call) (h email hash name : Text) (db : Db)
      → (accept_invite collates c h email hash name db).1.identities ≡ db.identities
  unfolding accept_invite
  accept-same c h email hash name db =
      go (find (go_lab.Accounts.Invites.has_hash h) db.invites) refl
    where
      go :
          (o : Option Invite)
          → find (go_lab.Accounts.Invites.has_hash h) db.invites ≡ o
          → (accept_invite collates c h email hash name db).1.identities ≡ db.identities
      go none e = ground (arith, e)
      go (some i) e = let row = row-same c i email hash name db in ground (arith, e, row)

  apply-Grown :
      (c : Call) (q : Step) (db : Db) → Grown db.identities (apply collates c q db).identities
  unfolding apply Grown create_invite create_registered_user touch_login update_password_hash
  apply-Grown c (invite_for h email name role linked by exp meta) db = inl (ground arith)
  apply-Grown c (accept_by h email hash name) db = inl (accept-same c h email hash name db)
  apply-Grown c (register_as email name hash) db = inl (ground arith)
  apply-Grown c (touch_at email) db = inl (ground arith)
  apply-Grown c (set_password uid hash) db = inl (ground arith)
  apply-Grown c (ensure_for issuer subject name) db = ensure-Grown c issuer subject name db

  run-find :
      (calls : List (Call × Step)) (p : Identity → Bool) (i : Identity) (db : Db)
      → find p db.identities ≡ some i
      → find p (run collates calls db).identities ≡ some i
  unfolding run
  run-find [] p i db e = e
  run-find ((c, q) ∷ calls) p i db e =
      run-find calls p i (apply collates c q db)
        (Grown-find p i db.identities (apply collates c q db).identities (apply-Grown c q db) e)

  -- The database's `=` on texts is reflexive, and texts that it takes for equal have the same equals.
  pub record IsCollation : Type 0 where
    pub itself : (x : Text) → collates x x ≡ true
    pub alike : (x y z : Text) → collates x y ≡ true → collates z x ≡ collates z y

  module _ (law : IsCollation) where
    identity_alike :
        (issuer issuer' subject subject' : Text)
        → collates issuer' issuer ≡ true
        → collates subject' subject ≡ true
        → is_identity collates issuer' subject' ≡ is_identity collates issuer subject
    identity_alike issuer issuer' subject subject' h k =
        fun_ext
          λ i. rw (law.alike issuer' issuer i.issuer h, law.alike subject' subject i.subject k) refl

    resolve_user-same :
        (c c' : Call) (issuer_url sub sub' : Text) (t t' : IdToken) (db : Db) (s s' : Text)
        (calls : List (Call × Step))
        → collates
            (or_else (trim_space t'.issuer) issuer_url)
            (or_else (trim_space t.issuer) issuer_url)
          ≡ true
        → collates sub' sub ≡ true
        → (resolve_user collates c issuer_url t sub db).0 ≡ ok s
        → (resolve_user collates c' issuer_url t' sub'
            (run collates calls (resolve_user collates c issuer_url t sub db).1)).0
          ≡ ok s'
        → s' ≡ s
    unfolding resolve_user
    resolve_user-same c c' issuer_url sub sub' t t' db s s' calls same same' h h' =
        let issuer = or_else (trim_space t.issuer) issuer_url in
        let issuer' = or_else (trim_space t'.issuer) issuer_url in
        let display = or_else (trim_space t.name) (trim_space t.email) in
        let display' = or_else (trim_space t'.name) (trim_space t'.email) in
        let first = ensure_oidc_user collates c issuer sub display db in
        let db' = run collates calls first.1 in
        let (uid, e, its) = resolved-ok first.0 s h in
        let (uid', e', its') =
          resolved-ok (ensure_oidc_user collates c' issuer' sub' display' db').0 s' h' in
        let (i, found, id) = ensure-found law.itself c issuer sub display db uid e in
        let later = run-find calls (is_identity collates issuer sub) i first.1 found in
        let later' : find (is_identity collates issuer' sub') db'.identities ≡ some i =
          ap (λ p. find p db'.identities) (identity_alike issuer issuer' sub sub' same same')
          ∙ later in
        let id' = ensure-known c' issuer' sub' display' db' i uid' later' e' in
        its' ∙ ap user_subject (sym id' ∙ id) ∙ sym its
      where
        resolved-ok :
            (r : Result AccountError ℤ) (s : Text)
            → resolved r ≡ ok s
            → (uid : ℤ) × (r ≡ ok uid) × (s ≡ user_subject uid)
        resolved-ok (ok uid) s h = (uid, refl, ground (arith, h))
        resolved-ok (err e) s h = absurd (ground (arith, h))

    -- Two tokens of users whose trimmed subjects, and whose issuers up to white space and the default
    -- of the configured one, the database takes for equal stand for the same user, whatever the
    -- store's calls between them and however the driver answers, if both are resolved. The
    -- database's equality is reflexive and does not tell texts apart that it takes for equal.
    pub try_resolve-same :
        (verify : Text → Option IdToken) (c c' : Call) (issuer_url raw raw' : Text) (t t' : IdToken)
        (db db' : Db) (s s' : Text) (calls : List (Call × Step))
        → verify raw ≡ some t
        → verify raw' ≡ some t'
        → has_suffix (trim_space t.subject) clients ≡ false
        → has_suffix (trim_space t'.subject) clients ≡ false
        → collates (trim_space t'.subject) (trim_space t.subject) ≡ true
        → collates
            (or_else (trim_space t'.issuer) issuer_url)
            (or_else (trim_space t.issuer) issuer_url)
          ≡ true
        → try_resolve collates true verify c issuer_url raw (some db) ≡ (ok s, some db')
        → (try_resolve collates true verify c' issuer_url raw' (some (run collates calls db'))).0
          ≡ ok s'
        → s' ≡ s
    unfolding try_resolve
    try_resolve-same verify c c' issuer_url raw raw' t t' db db' s s' calls v v' user user' sub
          issuer h h' =
        let subject = trim_space t.subject in
        let subject' = trim_space t'.subject in
        let first : (resolve_user collates c issuer_url t subject db).0 ≡ ok s =
          ground (arith, v, user, h) in
        let left : (resolve_user collates c issuer_url t subject db).1 ≡ db' =
          ground (arith, v, user, h) in
        let second : (resolve_user collates c' issuer_url t' subject' (run collates calls db')).0
            ≡ ok s' =
          ground (arith, v', user', h') in
        resolve_user-same c c' issuer_url subject subject' t t' db s s' calls issuer sub first
          (rw left second)
