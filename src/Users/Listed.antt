-- ===== src/Users/Listed.antt =====
-- The rows of GetUsers and their order.
use go_lab.Prelude.{
  ◌≡◌, refl, ◌∙◌, ℤ, pos, negsuc, int_eq, ltb_ℤ, Bool, true, false, ◌&&◌, ◌||◌, none, List, [], ◌∷◌,
  map, filter, any, All, All-map, arith, Bool-cases, inl, inr,
}
use go_lab.Sql.{Call, answered}
use go_lab.Http.{success}
use go_lab.Accounts.{UserRow}
use go_lab.Users.{World, User, shown, is_kept, ranks_before, place, ranked, get_users}

-- No row ranks before one that it comes after.
abbrev pub Ranked : List UserRow → Type 0
Ranked [] = Unit
Ranked (u ∷ us) = All (λ v. ranks_before v u ≡ false) us × Ranked us

ltb_ℤ-trans : (a b c : ℤ) → ltb_ℤ b a ≡ false → ltb_ℤ c b ≡ false → ltb_ℤ c a ≡ false
unfolding ltb_ℤ
ltb_ℤ-trans a b c h k = ground (arith, h, k)

ranks_before-asym : (u v : UserRow) → ranks_before v u ≡ true → ranks_before u v ≡ false
unfolding ltb_ℤ int_eq
ranks_before-asym u v h = compare u.pennies v.pennies u.id v.id h
  where
    compare :
        (p q a b : ℤ)
        → (ltb_ℤ p q || (int_eq p q && ltb_ℤ b a)) ≡ true
        → (ltb_ℤ q p || (int_eq q p && ltb_ℤ a b)) ≡ false
    compare (pos p) (pos q) a b h = ground (arith, h)
    compare (pos p) (negsuc q) a b h = ground (arith, h)
    compare (negsuc p) (pos q) a b h = ground (arith, h)
    compare (negsuc p) (negsuc q) a b h = ground (arith, h)

ranks_before_trans :
    (u v x : UserRow)
    → ranks_before x v ≡ false
    → ranks_before v u ≡ false
    → ranks_before x u ≡ false
unfolding ltb_ℤ int_eq
ranks_before_trans u v x h k = compare u.pennies v.pennies x.pennies u.id v.id x.id h k
  where
    compare :
        (p q r a b d : ℤ)
        → (ltb_ℤ q r || (int_eq q r && ltb_ℤ d b)) ≡ false
        → (ltb_ℤ p q || (int_eq p q && ltb_ℤ b a)) ≡ false
        → (ltb_ℤ p r || (int_eq p r && ltb_ℤ d a)) ≡ false
    compare (pos p) (pos q) (pos r) a b d h k = ground (arith, h, k)
    compare (pos p) (pos q) (negsuc r) a b d h k = ground (arith, h, k)
    compare (pos p) (negsuc q) (pos r) a b d h k = ground (arith, h, k)
    compare (pos p) (negsuc q) (negsuc r) a b d h k = ground (arith, h, k)
    compare (negsuc p) (pos q) (pos r) a b d h k = ground (arith, h, k)
    compare (negsuc p) (pos q) (negsuc r) a b d h k = ground (arith, h, k)
    compare (negsuc p) (negsuc q) (pos r) a b d h k = ground (arith, h, k)
    compare (negsuc p) (negsuc q) (negsuc r) a b d h k = ground (arith, h, k)

All-place :
    (P : UserRow → Type 0) (u : UserRow) (us : List UserRow) → P u → All P us → All P (place u us)
unfolding place
All-place P u [] pu h = (pu, tt)
All-place P u (v ∷ vs) pu h = elim (Bool-cases (ranks_before v u)) [
  | inl before ↦ rw before (h.0, All-place P u vs pu h.1)
  | inr behind ↦ rw behind (pu, h)
]

place-Ranked : (u : UserRow) (us : List UserRow) → Ranked us → Ranked (place u us)
unfolding place
place-Ranked u [] h = (tt, tt)
place-Ranked u (v ∷ vs) (h, rest) = elim (Bool-cases (ranks_before v u)) [
  | inl before ↦ rw before (
    All-place (λ x. ranks_before x v ≡ false) u vs (ranks_before-asym u v before) h,
    place-Ranked u vs rest,
  )
  | inr behind ↦ rw behind (
    (
      behind,
      All-map (λ x. ranks_before x v ≡ false) (λ x. ranks_before x u ≡ false) vs
          (λ x below. ranks_before_trans u v x below behind) h,
    ),
    (h, rest),
  )
]

any-place :
    (q : UserRow → Bool) (u : UserRow) (us : List UserRow) → any q (place u us) ≡ any q (u ∷ us)
unfolding place
any-place q u [] = refl
any-place q u (v ∷ vs) = ground (arith, any-place q u vs)

ranked-Ranked : (us : List UserRow) → Ranked (ranked us)
unfolding ranked
ranked-Ranked [] = tt
ranked-Ranked (u ∷ us) = place-Ranked u (ranked us) (ranked-Ranked us)

any-ranked : (q : UserRow → Bool) (us : List UserRow) → any q (ranked us) ≡ any q us
unfolding ranked
any-ranked q [] = refl
any-ranked q (u ∷ us) = ground (arith, any-place q u (ranked us), any-ranked q us)

any-filter :
    (q p : UserRow → Bool) (us : List UserRow) → any q (filter p us) ≡ any (λ u. p u && q u) us
any-filter q p [] = refl
any-filter q p (u ∷ us) = ground (arith, any-filter q p us)

-- Where the database answers and the connection does not break while the rows are read, the list
-- of users comes from rows of which none ranks before an earlier one, by pennies and then by id; and
-- some listed user passes a test exactly if some user passes it who is not deleted.
pub get_users-lists :
    (c : Call) (w : World)
    → answered (c.driver 0) ≡ true
    → (us : List UserRow) × (get_users c none w ≡ success 200 (map shown us))
      × Ranked us
      × ((q : User → Bool)
          → any (λ u. q (shown u)) us ≡ any (λ u. is_kept u && q (shown u)) w.accounts.users)
unfolding get_users
get_users-lists c w h =
    let us = ranked (filter is_kept w.accounts.users) in
    (
      us,
      ground (arith, h),
      ranked-Ranked (filter is_kept w.accounts.users),
      λ q.
          any-ranked (λ u. q (shown u)) (filter is_kept w.accounts.users)
          ∙ any-filter (λ u. q (shown u)) is_kept w.accounts.users,
    )
