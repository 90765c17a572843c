-- ===== src/Sql/Keys.antt =====
-- Tables with a unique key: which row a search finds after an UPDATE or an INSERT.
use go_lab.Prelude.{
  ℕ, ◌<◌, ◌≡◌, refl, ◌≢◌, sym, ◌∙◌, ◌⊎◌, inl, inr, Bool, true, false, Option, none, some, List, [],
  ◌∷◌, arith, ◌==◌, if◌then◌else◌, All, All-intro, Bool-cases, any,
}
use go_lab.Sql.Rows.{find, update, matching, insert, All-update, All-insert}

-- No two rows have the same key.
module _ {ℓ} {A : Type ℓ} {B : Type 0} where
  abbrev pub Unique : (A → B) → List A → Type 0
  Unique key [] = Unit
  Unique key (x ∷ xs) = All (λ y. key y ≢ key x) xs × Unique key xs

module _ {ℓ} {A : Type ℓ} {B : Type 0} (key : A → B) where
  fresh-update :
      (p : A → Bool) (f : A → A) (k : B) (xs : List A)
      → ((x : A) → key (f x) ≡ key x)
      → All (λ y. key y ≢ k) xs
      → All (λ y. key y ≢ k) (update p f xs)
  fresh-update p f k xs same h =
      All-update (λ y. key y ≢ k) p f xs
        (All-intro (λ x. p x ≡ true → key x ≢ k → key (f x) ≢ k) xs
          (λ x _ ne e. ne (sym (same x) ∙ e)))
        h

  pub Unique-update :
      (p : A → Bool) (f : A → A) (xs : List A)
      → ((x : A) → key (f x) ≡ key x)
      → Unique key xs
      → Unique key (update p f xs)
  Unique-update p f [] same h = tt
  Unique-update p f (x ∷ xs) same h = (
    rw (kept (Bool-cases (p x))) (fresh-update p f (key x) xs same h.0),
    Unique-update p f xs same h.1,
  )
    where
      kept : (p x ≡ true) ⊎ (p x ≡ false) → key (if p x then f x else x) ≡ key x
      kept (inl e) = rw e (same x)
      kept (inr e) = rw e

  pub Unique-insert_new :
      (a : A) (xs : List A) → All (λ y. key y ≢ key a) xs → Unique key xs → Unique key (insert a xs)
  Unique-insert_new a [] other h = (tt, tt)
  Unique-insert_new a (x ∷ xs) other h = (
    All-insert (λ y. key y ≢ key x) a xs (λ e. other.0 (sym e)) h.0,
    Unique-insert_new a xs other.1 h.1,
  )

module _ {ℓ} {A : Type ℓ} (key : A → ℕ) where
  pub Unique-insert :
      (a : A) (xs : List A) → All (λ y. key y < key a) xs → Unique key xs → Unique key (insert a xs)
  Unique-insert a [] below h = (tt, tt)
  Unique-insert a (x ∷ xs) below h =
      (All-insert (λ y. key y ≢ key x) a xs (omega arith) h.0, Unique-insert a xs below.1 h.1)

  absent : (k : ℕ) (r : A) (xs : List A) → All (λ y. key y ≢ k) xs → All (λ x. key x ≡ k → x ≡ r) xs
  absent k r [] h = tt
  absent k r (x ∷ xs) h = (λ e. absurd (h.0 e), absent k r xs h.1)

  -- Every row with the key is the one that the search finds.
  pub find-Unique :
      (k : ℕ) (r : A) (xs : List A)
      → Unique key xs
      → find (λ x. key x == k) xs ≡ some r
      → All (λ x. key x ≡ k → x ≡ r) xs
  find-Unique k r [] h e = tt
  find-Unique k r (x ∷ xs) h e = elim (Bool-cases (key x == k)) [
    | inl same ↦
        let found : x ≡ r = ground arith in
        let at : key x ≡ k = ground arith in (λ _. found, absent k r xs (rw at at h.0))
    | inr other ↦ (λ at. absurd (ground arith), find-Unique k r xs h.1 (ground arith))
  ]

abbrev map_option {ℓ κ} : {A : Type ℓ} {B : Type κ} → (A → B) → Option A → Option B
map_option f none = none
map_option f (some a) = some (f a)

-- What an UPDATE makes of one row.
abbrev pub revise {ℓ} : {A : Type ℓ} → (A → Bool) → (A → A) → A → A
revise p f x = if p x then f x else x

module _ {ℓ} {A : Type ℓ} (key : A → ℕ) where
  -- A search by key after an UPDATE finds the row that it found before, revised.
  pub find-update :
      (k : ℕ) (p : A → Bool) (f : A → A) (xs : List A)
      → ((x : A) → key (f x) ≡ key x)
      → find (λ x. key x == k) (update p f xs) ≡ map_option (revise p f) (find (λ x. key x == k) xs)
  find-update k p f [] same = refl
  find-update k p f (x ∷ xs) same = ground (arith, same x, find-update k p f xs same)

  -- After an INSERT it finds what it found before, or else the new row if that has the key.
  pub find-insert :
      (k : ℕ) (a : A) (xs : List A)
      → find (λ x. key x == k) (insert a xs) ≡ (elim (find (λ x. key x == k) xs) [
        | none ↦ if key a == k then some a else none
        | some x ↦ some x
      ])
  find-insert k a [] = refl
  find-insert k a (x ∷ xs) = ground (arith, find-insert k a xs)

  -- A key above all those of the table is not found.
  pub find-below :
      (k : ℕ) (xs : List A) → All (λ x. key x < k) xs → find (λ x. key x == k) xs ≡ none
  find-below k [] h = refl
  find-below k (x ∷ xs) h = ground (arith, find-below k xs h.1)

  unmatched :
      (k : ℕ) (p : A → Bool) (xs : List A)
      → ((x : A) → p x ≡ true → key x ≡ k)
      → All (λ x. key x ≢ k) xs
      → matching p xs ≡ 0
  unmatched k p [] at h = refl
  unmatched k p (x ∷ xs) at h = ground (arith, at x, h.0, unmatched k p xs at h.1)

  -- A WHERE that fixes the key matches the row with that key, if it holds there, and no other.
  pub matching-key :
      (k : ℕ) (p : A → Bool) (xs : List A)
      → ((x : A) → p x ≡ true → key x ≡ k)
      → Unique key xs
      → matching p xs
        ≡ (elim (find (λ x. key x == k) xs) [ none ↦ 0 | some x ↦ if p x then 1 else 0 ])
  matching-key k p [] at u = refl
  matching-key k p (x ∷ xs) at u = elim (Bool-cases (key x == k)) [
    | inl same ↦
        let none_left : matching p xs ≡ 0 = unmatched k p xs at (rw (keyed same) at u.0) in
        rw same (ground arith)
    | inr other ↦ ground (arith, at x, matching-key k p xs at u.1)
  ]
    where
      keyed : (key x == k) ≡ true → key x ≡ k
      keyed h = ground arith

-- The same for any test that an UPDATE does not touch, and for an INSERT.
module _ {ℓ} {A : Type ℓ} where
  pub find-update_by :
      (q p : A → Bool) (f : A → A) (xs : List A)
      → ((x : A) → q (f x) ≡ q x)
      → find q (update p f xs) ≡ map_option (revise p f) (find q xs)
  find-update_by q p f [] same = refl
  find-update_by q p f (x ∷ xs) same = ground (arith, same x, find-update_by q p f xs same)

  pub find-insert_by :
      (q : A → Bool) (a r : A) (xs : List A) → find q xs ≡ some r → find q (insert a xs) ≡ some r
  find-insert_by q a r [] e = absurd (cc)
  find-insert_by q a r (x ∷ xs) e = ground (arith, find-insert_by q a r xs)

  -- A new row that passes is found where no row passed before.
  pub find-insert_absent :
      (q : A → Bool) (a : A) (xs : List A)
      → any q xs ≡ false
      → q a ≡ true
      → find q (insert a xs) ≡ some a
  find-insert_absent q a [] e h = rw h
  find-insert_absent q a (x ∷ xs) e h = ground (arith, find-insert_absent q a xs)

  pub find-none : (q : A → Bool) (xs : List A) → find q xs ≡ none → any q xs ≡ false
  find-none q [] e = refl
  find-none q (x ∷ xs) e = ground (arith, e, find-none q xs)
