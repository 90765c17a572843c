-- ===== src/Strconv/RoundTrip.antt =====
-- Itoa and then Atoi.
use go_lab.Prelude.{
  ℕ, zero, suc, ◌+◌, ◌-◌, ◌*◌, ◌/◌, ◌%◌, ◌≤◌, ◌<◌, ◌≡◌, refl, ◌∙◌, pos, Text, some, [], ◌∷◌, ◌++◌,
  arith, ltb, All, All-map, ◌≢◌, inl, inr, Bool-cases,
}
use go_lab.Strings.Trim.{IsVisible, All-append}
use go_lab.Strconv.{int_limit, is_digit, parse_digits, digits, itoa, atoi}

parse_digits-append :
    (acc n : ℕ) (s t : Text)
    → parse_digits acc s ≡ some n
    → parse_digits acc (s ++ t) ≡ parse_digits n t
unfolding parse_digits
parse_digits-append acc n [] t h = ground arith
parse_digits-append acc n (c ∷ s) t h = elim (Bool-cases (is_digit c)) [
  | inl e ↦ rw e (parse_digits-append (acc * 10 + (c - 48)) n s t (rw e at h))
  | inr e ↦ absurd (ground arith)
]

parse_digits-digits : (fuel n : ℕ) → n < fuel → parse_digits 0 (digits fuel n) ≡ some n
unfolding digits parse_digits
parse_digits-digits zero n h = elim h [ ]
parse_digits-digits (suc fuel) n h = elim (Bool-cases (ltb n 10)) [
  | inl small ↦ rw small (ground arith)
  | inr large ↦ rw large (
      parse_digits-append 0 (n / 10) (digits fuel (n / 10)) ((48 + n % 10) ∷ [])
        (parse_digits-digits fuel (n / 10) (ground arith))
      ∙ ground arith)
]

abbrev IsDigit : ℕ → Type 0
IsDigit c = (48 ≤ c) × (c ≤ 57)

digits-IsDigit : (fuel n : ℕ) → All IsDigit (digits fuel n)
unfolding digits
digits-IsDigit zero n = tt
digits-IsDigit (suc fuel) n = elim (Bool-cases (ltb n 10)) [
  | inl small ↦ rw small (ground arith)
  | inr large ↦
      rw large
        (All-append IsDigit (digits fuel (n / 10)) _ (digits-IsDigit fuel (n / 10)) (omega arith))
]

digits-IsVisible : (fuel n : ℕ) → All IsVisible (digits fuel n)
digits-IsVisible fuel n =
    All-map IsDigit IsVisible (digits fuel n) (λ c h. omega arith) (digits-IsDigit fuel n)

-- Digits in front of `atoi` carry no sign.
atoi-unsigned :
    (s : Text) (n : ℕ)
    → All IsDigit s
    → parse_digits 0 s ≡ some n
    → s ≢ []
    → n < int_limit
    → atoi s ≡ some (pos n)
unfolding atoi
atoi-unsigned [] n d h ne lt = absurd (ne refl)
atoi-unsigned (c ∷ s) n d h ne lt = ground arith

append-ne-nil : (xs : Text) (c : ℕ) → xs ++ c ∷ [] ≢ []
append-ne-nil [] c e = cc
append-ne-nil (x ∷ xs) c e = cc

digits-ne-nil : (n : ℕ) → digits (suc n) n ≢ []
unfolding digits
digits-ne-nil n = elim (Bool-cases (ltb n 10)) [
  | inl small ↦ rw small (λ e. cc)
  | inr large ↦ rw large (append-ne-nil (digits n (n / 10)) (48 + n % 10))
]

pub itoa-IsVisible : (n : ℕ) → All IsVisible (itoa (pos n))
unfolding itoa
itoa-IsVisible n = digits-IsVisible (suc n) n

-- A number that is printed and read again is the same, in the range of int64.
pub atoi-itoa : (n : ℕ) → n < int_limit → atoi (itoa (pos n)) ≡ some (pos n)
unfolding itoa
atoi-itoa n h =
    atoi-unsigned (digits (suc n) n) n (digits-IsDigit (suc n) n)
      (parse_digits-digits (suc n) n (omega arith)) (digits-ne-nil n) h
