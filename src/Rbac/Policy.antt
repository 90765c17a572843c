-- ===== src/Rbac/Policy.antt =====
-- The duties that the role table of permissions.go separates.
use go_lab.Prelude.{
  ◌≡◌, refl, Bool-cases, ◌⊎◌, inl, inr, Text, codes, text_eq, text_eq_iff, Bool, true, false, ◌||◌,
  List, [], ◌∷◌, arith, any,
}
use go_lab.Rbac.Perm
use go_lab.Rbac.{permissions_for_role, grants, has_permission}

-- The role is "operator" or `name`.
abbrev pub is_operator_or : Text → Text → Bool
is_operator_or name role = text_eq role (codes "operator") || text_eq role name

any-congr : (p q : Text → Bool) (xs : List Text) → ((x : Text) → p x ≡ q x) → any p xs ≡ any q xs
any-congr p q [] h = refl
any-congr p q (x ∷ xs) h = ground (arith, h x, any-congr p q xs h)

-- Two tests agree on every role if they agree on the four of the table and on the others.
by_roles :
    (f g : Text → Bool)
    → f (codes "operator") ≡ g (codes "operator")
    → f (codes "support") ≡ g (codes "support")
    → f (codes "security_admin") ≡ g (codes "security_admin")
    → f (codes "gm_liveops") ≡ g (codes "gm_liveops")
    → ((r : Text)
        → text_eq r (codes "operator") ≡ false
        → text_eq r (codes "support") ≡ false
        → text_eq r (codes "security_admin") ≡ false
        → text_eq r (codes "gm_liveops") ≡ false
        → f r ≡ g r)
    → (role : Text) → f role ≡ g role
by_roles f g a b c d other role = elim (Bool-cases (text_eq role (codes "operator"))) [
  | inl e ↦ rw ((text_eq_iff role (codes "operator")).0 e) a
  | inr not_a ↦ elim (Bool-cases (text_eq role (codes "support"))) [
    | inl e ↦ rw ((text_eq_iff role (codes "support")).0 e) b
    | inr not_b ↦ elim (Bool-cases (text_eq role (codes "security_admin"))) [
      | inl e ↦ rw ((text_eq_iff role (codes "security_admin")).0 e) c
      | inr not_c ↦ elim (Bool-cases (text_eq role (codes "gm_liveops"))) [
        | inl e ↦ rw ((text_eq_iff role (codes "gm_liveops")).0 e) d
        | inr not_d ↦ other role not_a not_b not_c not_d
      ]
    ]
  ]
]

module _ (name required : Text) where
  abbrev OnTable : Type 0
  OnTable =
      ((any (grants required) (permissions_for_role (codes "support"))
          ≡ is_operator_or name (codes "support"))
        × (any (grants required) (permissions_for_role (codes "security_admin"))
            ≡ is_operator_or name (codes "security_admin"))
        × (any (grants required) (permissions_for_role (codes "gm_liveops"))
            ≡ is_operator_or name (codes "gm_liveops")))

  duty :
      (text_eq name (codes "support") ≡ true) ⊎ (text_eq name (codes "security_admin") ≡ true)
      → OnTable
      → (roles : List Text) → has_permission roles required ≡ any (is_operator_or name) roles
  unfolding has_permission permissions_for_role text_eq
  duty known (b, c, d) roles =
      any-congr (λ r. any (grants required) (permissions_for_role r)) (is_operator_or name) roles
        (by_roles (λ r. any (grants required) (permissions_for_role r)) (is_operator_or name) refl b
          c d
          (λ r a' b' c' d'. elim known [
            | inl k ↦
                let e = (text_eq_iff name (codes "support")).0 k in rw (e, a', b', c', d') refl
            | inr k ↦
                let e = (text_eq_iff name (codes "security_admin")).0 k in
                rw (e, a', b', c', d') refl
          ]))

-- For every list of roles: who may approve or fulfil a restore, delete a user, or write security
-- settings or audit rows, has the role "operator" or "security_admin"; who may request a restore
-- has the role "operator" or "support"; and each of these roles suffices.
pub duties :
    (roles : List Text)
    → (has_permission roles Perm.backups_restore_approve
        ≡ any (is_operator_or (codes "security_admin")) roles)
      × (has_permission roles Perm.backups_restore_fulfill
          ≡ any (is_operator_or (codes "security_admin")) roles)
      × (has_permission roles Perm.users_delete
          ≡ any (is_operator_or (codes "security_admin")) roles)
      × (has_permission roles Perm.security_write
          ≡ any (is_operator_or (codes "security_admin")) roles)
      × (has_permission roles Perm.audit_write
          ≡ any (is_operator_or (codes "security_admin")) roles)
      × (has_permission roles Perm.backups_restore_request
          ≡ any (is_operator_or (codes "support")) roles)
unfolding permissions_for_role text_eq
duties roles = (
  duty (codes "security_admin") Perm.backups_restore_approve (inr refl) (refl, refl, refl) roles,
  duty (codes "security_admin") Perm.backups_restore_fulfill (inr refl) (refl, refl, refl) roles,
  duty (codes "security_admin") Perm.users_delete (inr refl) (refl, refl, refl) roles,
  duty (codes "security_admin") Perm.security_write (inr refl) (refl, refl, refl) roles,
  duty (codes "security_admin") Perm.audit_write (inr refl) (refl, refl, refl) roles,
  duty (codes "support") Perm.backups_restore_request (inl refl) (refl, refl, refl) roles,
)
