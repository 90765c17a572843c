-- ===== src/Platform/Effective.antt =====
-- The list of GetSecurityMeRoles against the check of one permission.
use go_lab.Prelude.{
  ℕ, ℤ, ◌⊎◌, ◌≡◌, refl, ◌∙◌, Text, text_eq, text_eq_iff, Bool, true, false, ◌||◌, Option, none,
  some, List, [], ◌∷◌, ◌++◌, any, All, arith, Bool-cases, inl, inr,
}
use go_lab.Http.{Context, success, auth_user_id}
use go_lab.Rbac.{permissions_for_role, grants, has_permission}
use go_lab.Platform.{collect, all_permissions, MeRoles, get_me_roles}

-- No permission twice.
abbrev pub Distinct : List Text → Type 0
Distinct [] = Unit
Distinct (p ∷ ps) = All (λ q. text_eq q p ≡ false) ps × Distinct ps

any-append : (q : Text → Bool) (ps rs : List Text) → any q (ps ++ rs) ≡ (any q ps || any q rs)
any-append q [] rs = refl
any-append q (p ∷ ps) rs = ground (arith, any-append q ps rs)

any-seen :
    (q : Text → Bool) (p : Text) (seen : List Text)
    → any (text_eq p) seen ≡ true
    → q p ≡ true
    → any q seen ≡ true
any-seen q p [] e h = absurd (ground (arith, e))
any-seen q p (s ∷ seen) e h = elim (Bool-cases (text_eq p s)) [
  | inl same ↦ let at = (text_eq_iff p s).0 same in let qs : q s ≡ true = rw at at h in rw qs
  | inr other ↦
      let rest : any q seen ≡ true = any-seen q p seen (ground (arith, e, other)) h in
      ground (arith, rest)
]

any-collect :
    (q : Text → Bool) (seen ps : List Text)
    → (any q seen || any q (collect seen ps)) ≡ (any q seen || any q ps)
unfolding collect
any-collect q seen [] = refl
any-collect q seen (p ∷ ps) =
    let in_seen = any-seen q p seen in
    let rest = any-collect q seen ps in
    let rest' = any-collect q (p ∷ seen) ps in ground (arith, in_seen, rest, rest')

collect-unseen :
    (seen ps : List Text) (p : Text)
    → any (text_eq p) seen ≡ true
    → All (λ q. text_eq q p ≡ false) (collect seen ps)
unfolding collect
collect-unseen seen [] p h = tt
collect-unseen seen (r ∷ ps) p h = elim (Bool-cases (any (text_eq r) seen)) [
  | inl there ↦ rw there (collect-unseen seen ps p h)
  | inr fresh ↦
      let same = (text_eq_iff r p).0 in
      let moved : (text_eq r p ≡ true) → any (text_eq r) seen ≡ true = λ e. rw (same e) h in
      rw fresh (
        differ (Bool-cases (text_eq r p)) moved fresh,
        collect-unseen (r ∷ seen) ps p (ground (arith, h)),
      )
]
  where
    differ :
        (text_eq r p ≡ true) ⊎ (text_eq r p ≡ false)
        → ((text_eq r p ≡ true) → any (text_eq r) seen ≡ true)
        → any (text_eq r) seen ≡ false
        → text_eq r p ≡ false
    differ (inr other) moved fresh = other
    differ (inl same) moved fresh = let there = moved same in absurd (ground (arith, there, fresh))

collect-Distinct : (seen ps : List Text) → Distinct (collect seen ps)
unfolding collect
collect-Distinct seen [] = tt
collect-Distinct seen (p ∷ ps) = elim (Bool-cases (any (text_eq p) seen)) [
  | inl there ↦ rw there (collect-Distinct seen ps)
  | inr fresh ↦
      let self = (text_eq_iff p p).1 refl in
      rw fresh
        (collect-unseen (p ∷ seen) ps p (ground (arith, self)), collect-Distinct (p ∷ seen) ps)
]

any-all_permissions :
    (q : Text → Bool) (roles : List Text)
    → any q (all_permissions roles) ≡ any (λ r. any q (permissions_for_role r)) roles
unfolding all_permissions
any-all_permissions q [] = refl
any-all_permissions q (r ∷ roles) =
    any-append q (permissions_for_role r) (all_permissions roles)
    ∙ ground (arith, any-all_permissions q roles)

-- A user who asks for the own roles is shown them with a list of permissions without repetitions, and
-- the list grants a permission exactly if the check of that permission does for these roles.
pub get_me_roles-grants :
    (ctx : Context) (roles : List Text) (n : ℕ) (me : MeRoles)
    → get_me_roles ctx roles ≡ success n me
    → (auth_user_id ctx.auth_subject ≡ some me.user_id)
      × (me.roles ≡ roles)
      × Distinct me.effective_permissions
      × ((permission : Text)
          → any (grants permission) me.effective_permissions ≡ has_permission roles permission)
unfolding get_me_roles has_permission
get_me_roles-grants ctx roles n me h = go (auth_user_id ctx.auth_subject) refl
  where
    go :
        (o : Option ℤ)
        → auth_user_id ctx.auth_subject ≡ o
        → (auth_user_id ctx.auth_subject ≡ some me.user_id)
          × (me.roles ≡ roles)
          × Distinct me.effective_permissions
          × ((permission : Text)
              → any (grants permission) me.effective_permissions ≡ has_permission roles permission)
    go none e = absurd (ground (arith, e, h))
    go (some uid) e =
        let shown : me.effective_permissions ≡ collect [] (all_permissions roles) =
          ground (arith, e, h) in
        (
          ground (arith, e, h),
          ground (arith, e, h),
          rw shown (collect-Distinct [] (all_permissions roles)),
          λ permission. rw shown (
              any-collect (grants permission) [] (all_permissions roles)
              ∙ any-all_permissions (grants permission) roles),
        )
