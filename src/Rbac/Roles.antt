-- ===== src/Rbac/Roles.antt =====
-- ListPlatformRoleNamesForUser of api/authstore/platform_rbac.go, and effectivePlatformRoles of
-- api/middleware/rbac.go.
use go_lab.Prelude.{
  ℕ, ℤ, is_positive, int_eq, Text, codes, text_eq, text_eq_iff, Bool, true, false, ◌&&◌, not,
  Option, none, some, List, [], ◌∷◌, any, filter, map, is_some, ltb, ◌==◌, if◌then◌else◌, ◌≡◌, refl,
  arith,
}
use go_lab.Sql.{Call, answered, Result, ok, err}
use go_lab.Session.{User}

pub data RoleError : Type 0 where
  nil_db invalid driver : RoleError

pub record PlatformRole : Type 0 where
  pub id : ℕ
  pub name : Text

pub record OperatorAccount : Type 0 where
  pub id : ℕ
  pub linked_user_id : Option ℤ
  pub status : Text

-- `account` and `role` of `operator_account_roles`.
pub record AccountRole : Type 0 where
  pub account : ℕ
  pub role : ℕ

-- `user_platform_roles`, the older table.
pub record UserRole : Type 0 where
  pub user : ℤ
  pub role : ℕ

-- Without `has_operator_tables` the first query ends in error 1146.
pub record RoleDb : Type 0 where
  pub connected : Bool
  pub has_operator_tables : Bool
  pub roles : List PlatformRole
  pub account_roles : List AccountRole
  pub accounts : List OperatorAccount
  pub users : List User
  pub user_roles : List UserRole

abbrev is_user : ℤ → Option ℤ → Bool
is_user uid none = false
is_user uid (some u) = int_eq u uid

abbrev pub is_active_account : ℤ → OperatorAccount → Bool
is_active_account uid oa = is_user uid oa.linked_user_id && text_eq oa.status (codes "active")

abbrev pub is_present : ℤ → User → Bool
is_present uid u = int_eq u.id uid && not (is_some u.deleted_at)

-- The joins of the first query: the user is there and an active account of theirs has the role.
abbrev pub has_role : RoleDb → ℤ → PlatformRole → Bool
has_role db uid r =
    any
      (λ oar.
        oar.role == r.id
        && any (λ oa. oa.id == oar.account && is_active_account uid oa) db.accounts)
      db.account_roles
    && any (is_present uid) db.users

-- The join of the second one.
abbrev pub had_role : RoleDb → ℤ → PlatformRole → Bool
had_role db uid r = any (λ ur. int_eq ur.user uid && ur.role == r.id) db.user_roles

-- The order of Go's texts.
unfoldable pub text_lt : Text → Text → Bool
text_lt [] [] = false
text_lt [] (b ∷ t) = true
text_lt (a ∷ s) [] = false
text_lt (a ∷ s) (b ∷ t) =
    let rest = text_lt s t in if ltb a b then true else if a == b then rest else false

insert_sorted : Text → List Text → List Text
insert_sorted s [] = s ∷ []
insert_sorted s (t ∷ ts) =
    let rest = insert_sorted s ts in if text_lt t s then t ∷ rest else s ∷ t ∷ ts

-- `slices.Sort`
unfoldable pub sort : List Text → List Text
unfolding insert_sorted
sort [] = []
sort (s ∷ ts) = insert_sorted s (sort ts)

abbrev cons_new : Text → List Text → List Text
cons_new s [] = s ∷ []
cons_new s (t ∷ ts) = if text_eq s t then t ∷ ts else s ∷ t ∷ ts

-- `slices.Compact`; DISTINCT on a sorted column as well.
unfoldable pub compact : List Text → List Text
compact [] = []
compact (s ∷ ts) = cons_new s (compact ts)

abbrev names_of : (PlatformRole → Bool) → RoleDb → List Text
names_of p db = compact (sort (map (λ (r : PlatformRole). r.name) (filter p db.roles)))

-- `ListPlatformRoleNamesForUser`
unfoldable pub list_role_names : Call → ℤ → RoleDb → Result RoleError (List Text)
list_role_names c uid db =
    if not db.connected
    then err nil_db
    else if not (is_positive uid)
    then err invalid
    else if db.has_operator_tables
    then (if answered (c.driver 0) then ok (names_of (has_role db uid) db) else err driver)
    else if answered (c.driver 1)
    then ok (names_of (had_role db uid) db)
    else err driver

abbrev sorted_names : Result RoleError (List Text) → Result RoleError (List Text)
sorted_names (err e) = err e
sorted_names (ok names) = ok (compact (sort names))

-- `effectivePlatformRoles`, with `none` for a store that is nil.
unfoldable pub effective_roles : Call → Option RoleDb → ℤ → Result RoleError (List Text)
effective_roles c none uid = ok (compact (sort []))
effective_roles c (some db) uid = sorted_names (list_role_names c uid db)

any-insert_sorted :
    (q : Text → Bool) (s : Text) (ts : List Text) → any q (insert_sorted s ts) ≡ any q (s ∷ ts)
unfolding insert_sorted
any-insert_sorted q s [] = refl
any-insert_sorted q s (t ∷ ts) = ground (arith, any-insert_sorted q s ts)

-- Sorting and compacting keep what a list contains.
pub any-sort : (q : Text → Bool) (ts : List Text) → any q (sort ts) ≡ any q ts
unfolding sort
any-sort q [] = refl
any-sort q (s ∷ ts) = ground (arith, any-insert_sorted q s (sort ts), any-sort q ts)

any-cons_new :
    (q : Text → Bool) (s : Text) (ts : List Text) → any q (cons_new s ts) ≡ any q (s ∷ ts)
any-cons_new q s [] = refl
any-cons_new q s (t ∷ ts) = let same = (text_eq_iff s t).0 in ground (arith, same)

pub any-compact : (q : Text → Bool) (ts : List Text) → any q (compact ts) ≡ any q ts
unfolding compact
any-compact q [] = refl
any-compact q (s ∷ ts) = ground (arith, any-cons_new q s (compact ts), any-compact q ts)

pub any-names :
    (q : Text → Bool) (p : PlatformRole → Bool) (rs : List PlatformRole)
    → any q (map (λ (r : PlatformRole). r.name) (filter p rs)) ≡ any (λ r. p r && q r.name) rs
any-names q p [] = refl
any-names q p (r ∷ rs) = ground (arith, any-names q p rs)
