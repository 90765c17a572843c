-- ===== src/Sql/Rows.antt =====
-- SELECT … WHERE, UPDATE … WHERE and the count of matching rows.
use go_lab.Prelude.{
  ℕ, suc, ◌≡◌, refl, ◌⊎◌, inl, inr, Bool, true, false, Option, none, some, List, [], ◌∷◌, arith,
  if◌then◌else◌, All, Bool-cases, any,
}

module _ {ℓ} {A : Type ℓ} where
  -- The first row that matches; the key that is searched is unique in the schema.
  abbrev pub find : (A → Bool) → List A → Option A
  find p [] = none
  find p (x ∷ xs) = let rest = find p xs in if p x then some x else rest

  abbrev pub update : (A → Bool) → (A → A) → List A → List A
  update p f [] = []
  update p f (x ∷ xs) = (if p x then f x else x) ∷ update p f xs

  -- The rows that an UPDATE changes, where it changes every row that it matches.
  abbrev pub matching : (A → Bool) → List A → ℕ
  matching p [] = 0
  matching p (x ∷ xs) = let rest = matching p xs in if p x then suc rest else rest

  abbrev pub insert : A → List A → List A
  insert a [] = a ∷ []
  insert a (x ∷ xs) = x ∷ insert a xs

module _ {ℓ} {A : Type ℓ} where
  pub All-update {κ} :
      (P : A → Type κ) (p : A → Bool) (f : A → A) (xs : List A)
      → All (λ x. p x ≡ true → P x → P (f x)) xs
      → All P xs
      → All P (update p f xs)
  All-update P p f [] keep h = tt
  All-update P p f (x ∷ xs) keep h = (head (Bool-cases (p x)), All-update P p f xs keep.1 h.1)
    where
      head : (p x ≡ true) ⊎ (p x ≡ false) → P (if p x then f x else x)
      head (inl e) = rw e (keep.0 e h.0)
      head (inr e) = rw e h.0

  pub All-insert {κ} : (P : A → Type κ) (a : A) (xs : List A) → P a → All P xs → All P (insert a xs)
  All-insert P a [] pa h = (pa, tt)
  All-insert P a (x ∷ xs) pa h = (h.0, All-insert P a xs pa h.1)

  pub find-All {κ} :
      (P : A → Type κ) (p : A → Bool) (xs : List A) {x : A} → All P xs → find p xs ≡ some x → P x
  find-All P p [] h e = absurd (cc)
  find-All P p (y ∷ xs) {x} h e = elim (Bool-cases (p y)) [
    | inl yes_y ↦ let q : y ≡ x = ground (arith) in rw (q) at h.0
    | inr no_y ↦ find-All P p xs h.1 (ground arith)
  ]

  pub find-holds : (p : A → Bool) (xs : List A) {x : A} → find p xs ≡ some x → p x ≡ true
  find-holds p [] e = cc
  find-holds p (y ∷ xs) {x} e = elim (Bool-cases (p y)) [
    | inl yes_y ↦ ground arith
    | inr no_y ↦ find-holds p xs (ground arith)
  ]

  -- An UPDATE that matches no row leaves the table as it was.
  pub update-none :
      (p : A → Bool) (f : A → A) (xs : List A) → matching p xs ≡ 0 → update p f xs ≡ xs
  update-none p f [] h = refl
  update-none p f (x ∷ xs) h = elim (Bool-cases (p x)) [
    | inl e ↦ absurd (ground arith)
    | inr e ↦ ground (arith, update-none p f xs)
  ]

  -- Where no row passes one test, none passes a narrower one.
  pub no_match :
      (p q : A → Bool) (xs : List A)
      → ((x : A) → p x ≡ false → q x ≡ false)
      → any p xs ≡ false
      → any q xs ≡ false
  no_match p q [] h e = refl
  no_match p q (x ∷ xs) h e = ground (arith, h x, no_match p q xs h)
