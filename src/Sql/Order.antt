-- ===== src/Sql/Order.antt =====
-- SELECT … WHERE … ORDER BY id DESC LIMIT n: a page of the newest rows.
use go_lab.Prelude.{
  ℕ, zero, suc, ◌≤◌, ◌≡◌, refl, ◌≢◌, ◌∙◌, ap, ◌⊎◌, inl, inr, Bool, true, some, List, [], ◌∷◌, arith,
  ltb, ◌==◌, if◌then◌else◌, All, All-map, All-take, length, length-take-le, take, filter,
  Bool-cases, ℤ, pos, negsuc,
}
use go_lab.Sql.Rows.{find, find-All, find-holds}
use go_lab.Sql.Keys.{Unique}

module _ {ℓ} {A : Type ℓ} (key : A → ℕ) where
  pub insert_desc : A → List A → List A
  insert_desc a [] = a ∷ []
  insert_desc a (x ∷ xs) =
      let rest = insert_desc a xs in if ltb (key x) (key a) then a ∷ x ∷ xs else x ∷ rest

  pub order_desc : List A → List A
  unfolding insert_desc
  order_desc [] = []
  order_desc (x ∷ xs) = insert_desc x (order_desc xs)

  unfoldable pub select_page : (A → Bool) → ℕ → List A → List A
  unfolding order_desc
  select_page p n rows = take n (order_desc (filter p rows))

  abbrev pub Descending : List A → Type 0
  Descending [] = Unit
  Descending (x ∷ xs) = All (λ y. key y ≤ key x) xs × Descending xs

  All-insert_desc {κ} :
      (P : A → Type κ) (a : A) (xs : List A) → P a → All P xs → All P (insert_desc a xs)
  unfolding insert_desc
  All-insert_desc P a [] pa h = (pa, tt)
  All-insert_desc P a (x ∷ xs) pa h = elim (Bool-cases (ltb (key x) (key a))) [
    | inl less ↦ rw less (pa, h)
    | inr more ↦ rw more (h.0, All-insert_desc P a xs pa h.1)
  ]

  All-order_desc {κ} : (P : A → Type κ) (xs : List A) → All P xs → All P (order_desc xs)
  unfolding order_desc
  All-order_desc P [] h = tt
  All-order_desc P (x ∷ xs) h = All-insert_desc P x (order_desc xs) h.0 (All-order_desc P xs h.1)

  insert_desc-Descending : (a : A) (xs : List A) → Descending xs → Descending (insert_desc a xs)
  unfolding insert_desc
  insert_desc-Descending a [] d = (tt, tt)
  insert_desc-Descending a (x ∷ xs) d = elim (Bool-cases (ltb (key x) (key a))) [
    | inl less ↦ rw less (
      (
        ground arith,
        All-map (λ y. key y ≤ key x) (λ y. key y ≤ key a) xs (λ y h. ground arith) d.0,
      ),
      d,
    )
    | inr more ↦ rw more (
      All-insert_desc (λ y. key y ≤ key x) a xs (ground arith) d.0,
      insert_desc-Descending a xs d.1,
    )
  ]

  order_desc-Descending : (xs : List A) → Descending (order_desc xs)
  unfolding order_desc
  order_desc-Descending [] = tt
  order_desc-Descending (x ∷ xs) =
      insert_desc-Descending x (order_desc xs) (order_desc-Descending xs)

  take-Descending : (n : ℕ) (xs : List A) → Descending xs → Descending (take n xs)
  take-Descending zero xs d = tt
  take-Descending (suc n) [] d = tt
  take-Descending (suc n) (x ∷ xs) d =
      (All-take (λ y. key y ≤ key x) n xs d.0, take-Descending n xs d.1)

  All-filter {κ} : (P : A → Type κ) (p : A → Bool) (xs : List A) → All P xs → All P (filter p xs)
  All-filter P p [] h = tt
  All-filter P p (x ∷ xs) h = elim (Bool-cases (p x)) [
    | inl in_ ↦ rw in_ (h.0, All-filter P p xs h.1)
    | inr out ↦ rw out (All-filter P p xs h.1)
  ]

  filter-holds : (p : A → Bool) (xs : List A) → All (λ x. p x ≡ true) (filter p xs)
  filter-holds p [] = tt
  filter-holds p (x ∷ xs) = elim (Bool-cases (p x)) [
    | inl in_ ↦ rw in_ (in_, filter-holds p xs)
    | inr out ↦ rw out (filter-holds p xs)
  ]

  find-insert_desc :
      (k : ℕ) (a : A) (xs : List A)
      → All (λ y. key y ≢ key a) xs
      → find (λ x. key x == k) (insert_desc a xs)
        ≡ (if key a == k then some a else find (λ x. key x == k) xs)
  unfolding insert_desc
  find-insert_desc k a [] h = refl
  find-insert_desc k a (x ∷ xs) h = ground (arith, h.0, find-insert_desc k a xs h.1)

  find-order_desc :
      (k : ℕ) (xs : List A)
      → Unique key xs
      → find (λ x. key x == k) (order_desc xs) ≡ find (λ x. key x == k) xs
  unfolding order_desc
  find-order_desc k [] u = refl
  find-order_desc k (x ∷ xs) u =
      find-insert_desc k x (order_desc xs) (All-order_desc (λ y. key y ≢ key x) xs u.0)
      ∙ ap (λ o. if key x == k then some x else o) (find-order_desc k xs u.1)

  Unique-filter : (p : A → Bool) (xs : List A) → Unique key xs → Unique key (filter p xs)
  Unique-filter p [] u = tt
  Unique-filter p (x ∷ xs) u = elim (Bool-cases (p x)) [
    | inl in_ ↦ rw in_ (All-filter (λ y. key y ≢ key x) p xs u.0, Unique-filter p xs u.1)
    | inr out ↦ rw out (Unique-filter p xs u.1)
  ]

  find-filter :
      (k : ℕ) (p : A → Bool) (xs : List A) (r : A)
      → find (λ x. key x == k) xs ≡ some r
      → p r ≡ true
      → find (λ x. key x == k) (filter p xs) ≡ some r
  find-filter k p [] r e h = e
  find-filter k p (x ∷ xs) r e h = elim (Bool-cases (key x == k)) [
    | inl same ↦ let q : x ≡ r = ground arith in rw (q) (ground arith)
    | inr other ↦ ground (arith, find-filter k p xs r)
  ]

  -- A row of an ordered list is on its first page, or the page is full of rows above it.
  find-take :
      (k n : ℕ) (xs : List A) (r : A)
      → Descending xs
      → find (λ x. key x == k) xs ≡ some r
      → (find (λ x. key x == k) (take n xs) ≡ some r)
        ⊎ (length (take n xs) ≡ n) × All (λ x. k ≤ key x) (take n xs)
  find-take k zero xs r d e = inr (refl, tt)
  find-take k (suc n) [] r d e = absurd (cc)
  find-take k (suc n) (x ∷ xs) r d e = elim (Bool-cases (key x == k)) [
    | inl same ↦ inl (ground arith)
    | inr other ↦
        let later : find (λ x. key x == k) xs ≡ some r = ground arith in
        let at = find-holds (λ x. key x == k) xs later in
        let below = find-All (λ y. key y ≤ key x) (λ x. key x == k) xs d.0 later in
        elim (find-take k n xs r d.1 later) [
          | inl found ↦ inl (rw other found)
          | inr (full, above) ↦ inr (ap suc full, (ground arith, above))
        ]
  ]

  -- A page holds matching rows only, in descending order of their keys, and no more than its size;
  -- a matching row that is not on it has a key no greater than those of a full page.
  pub select_page_lem :
      (p : A → Bool) (n : ℕ) (xs : List A)
      → All (λ x. p x ≡ true) (select_page p n xs)
        × Descending (select_page p n xs)
        × (length (select_page p n xs) ≤ n)
  unfolding select_page
  select_page_lem p n xs = (
    All-take (λ x. p x ≡ true) n (order_desc (filter p xs))
        (All-order_desc (λ x. p x ≡ true) (filter p xs) (filter-holds p xs)),
    take-Descending n (order_desc (filter p xs)) (order_desc-Descending (filter p xs)),
    length-take-le n (order_desc (filter p xs)),
  )

  pub select_page_complete :
      (p : A → Bool) (n k : ℕ) (xs : List A) (r : A)
      → Unique key xs
      → find (λ x. key x == k) xs ≡ some r
      → p r ≡ true
      → (find (λ x. key x == k) (select_page p n xs) ≡ some r)
        ⊎ (length (select_page p n xs) ≡ n) × All (λ x. k ≤ key x) (select_page p n xs)
  unfolding select_page
  select_page_complete p n k xs r u e h =
      find-take k n (order_desc (filter p xs)) r (order_desc-Descending (filter p xs))
        (find-order_desc k (filter p xs) (Unique-filter p xs u) ∙ find-filter k p xs r e h)

-- The limit of a list query: a default below 1, and a maximum.
unfoldable pub page_limit : ℕ → ℕ → ℤ → ℕ
page_limit default_size max_size (negsuc n) = default_size
page_limit default_size max_size (pos n) =
    if ltb n 1 then default_size else if ltb max_size n then max_size else n

pub page_limit_bounds :
    (default_size max_size : ℕ) (limit : ℤ)
    → 1 ≤ default_size
    → default_size ≤ max_size
    → (1 ≤ page_limit default_size max_size limit)
      × (page_limit default_size max_size limit ≤ max_size)
unfolding page_limit
page_limit_bounds default_size max_size (pos n) h h' = ground arith
page_limit_bounds default_size max_size (negsuc n) h h' = ground arith
