-- ===== src/Strings/Trim.antt =====
-- What TrimSpace leaves.
use go_lab.Prelude.{
  is_empty, false, ℕ, zero, suc, ◌≤◌, ◌≡◌, refl, ◌∙◌, ap, Text, List, [], ◌∷◌, ◌++◌, reverse, arith,
  All, length, length-append, drop,
}
use mathlib.Core.List.{append_assoc, reverse-append, reverse-reverse}
use go_lab.Strings.{strip, space_width, space_width_back, trim_space}

abbrev pub IsVisible : ℕ → Type 0
IsVisible c = (33 ≤ c) × (c ≤ 126)

drop-shorter {ℓ} :
    {A : Type ℓ} (n : ℕ) (x : A) (xs : List A) → length (drop (suc n) (x ∷ xs)) ≤ length xs
drop-shorter zero x xs = omega arith
drop-shorter (suc n) x [] = omega arith
drop-shorter (suc n) x (y ∷ xs) = omega (arith, drop-shorter n y xs)

-- With fuel for its length, `strip` leaves nothing to strip.
strip-done :
    (width : Text → ℕ) (fuel : ℕ) (s : Text)
    → width [] ≡ 0
    → length s ≤ fuel
    → width (strip width fuel s) ≡ 0
unfolding strip
strip-done width zero [] e h = e
strip-done width zero (c ∷ s) e h = absurd (omega arith)
strip-done width (suc fuel) [] e h = rw (e, strip) e
strip-done width (suc fuel) (c ∷ s) e h =
    go (width (c ∷ s)) refl
      (λ n. strip-done width fuel (drop (suc n) (c ∷ s)) e (omega (arith, drop-shorter n c s)))
  where
    go :
        (n : ℕ)
        → width (c ∷ s) ≡ n
        → ((m : ℕ) → width (strip width fuel (drop (suc m) (c ∷ s))) ≡ 0)
        → width (strip width (suc fuel) (c ∷ s)) ≡ 0
    go zero q rest = rw (q, strip) q
    go (suc n) q rest = rw (q, strip) (rest n)

-- What is left is an end of the text.
drop-suffix {ℓ} : {A : Type ℓ} (n : ℕ) (xs : List A) → (p : List A) × (p ++ drop n xs ≡ xs)
drop-suffix zero xs = ([], refl)
drop-suffix (suc n) [] = ([], refl)
drop-suffix (suc n) (x ∷ xs) = let (p, e) = drop-suffix n xs in (x ∷ p, ap (λ l. x ∷ l) e)

strip-suffix : (width : Text → ℕ) (fuel : ℕ) (s : Text) → (p : Text) × (p ++ strip width fuel s ≡ s)
unfolding strip
strip-suffix width zero s = ([], refl)
strip-suffix width (suc fuel) s = go (width s) refl (λ n. strip-suffix width fuel (drop (suc n) s))
  where
    go :
        (n : ℕ)
        → width s ≡ n
        → ((m : ℕ) → (p : Text) × (p ++ strip width fuel (drop (suc m) s) ≡ drop (suc m) s))
        → (p : Text) × (p ++ strip width (suc fuel) s ≡ s)
    go zero q rest = ([], rw (q, strip) refl)
    go (suc n) q rest =
        let (p, e) = rest n in
        let (p', e') = drop-suffix (suc n) s in
        (p' ++ p, rw (q, strip) (append_assoc p' p _ ∙ ap (λ l. p' ++ l) e ∙ e'))

-- A beginning of a text has no white space at its front that the text does not have.
space_width-prefix : (xs ys : Text) → space_width (xs ++ ys) ≡ 0 → space_width xs ≡ 0
unfolding space_width
space_width-prefix [] ys h = refl
space_width-prefix (a ∷ []) [] h = h
space_width-prefix (a ∷ []) (b ∷ []) h = ground arith
space_width-prefix (a ∷ []) (b ∷ c ∷ ys) h = ground arith
space_width-prefix (a ∷ b ∷ []) [] h = h
space_width-prefix (a ∷ b ∷ []) (c ∷ ys) h = ground arith
space_width-prefix (a ∷ b ∷ c ∷ xs) ys h = h

length-reverse : (s : Text) → length (reverse s) ≡ length s
length-reverse [] = refl
length-reverse (c ∷ s) =
    rw (reverse-append (c ∷ []) s)
      (omega (arith, length-append (reverse s) (reverse (c ∷ [])), length-reverse s))

-- Nothing can be stripped from a text that begins with a visible character.
strip-visible : (width : Text → ℕ) (fuel : ℕ) (s : Text) → width s ≡ 0 → strip width fuel s ≡ s
unfolding strip
strip-visible width zero s e = refl
strip-visible width (suc fuel) s e = rw (e, strip)

space_width-visible : (s : Text) → All IsVisible s → space_width s ≡ 0
unfolding space_width
space_width-visible [] h = refl
space_width-visible (a ∷ []) h = ground arith
space_width-visible (a ∷ b ∷ []) h = ground arith
space_width-visible (a ∷ b ∷ c ∷ s) h = ground arith

space_width_back-visible : (s : Text) → All IsVisible s → space_width_back s ≡ 0
unfolding space_width_back
space_width_back-visible [] h = refl
space_width_back-visible (a ∷ []) h = ground arith
space_width_back-visible (a ∷ b ∷ []) h = ground arith
space_width_back-visible (a ∷ b ∷ c ∷ s) h = ground arith

pub All-append {ℓ κ} :
    {A : Type ℓ} (P : A → Type κ) (xs ys : List A) → All P xs → All P ys → All P (xs ++ ys)
All-append P [] ys hx hy = hy
All-append P (x ∷ xs) ys hx hy = (hx.0, All-append P xs ys hx.1 hy)

All-reverse : (s : Text) → All IsVisible s → All IsVisible (reverse s)
All-reverse [] h = tt
All-reverse (c ∷ s) h =
    rw (reverse-append (c ∷ []) s)
      (All-append IsVisible (reverse s) (reverse (c ∷ [])) (All-reverse s h.1) (h.0, tt))

-- TrimSpace leaves a text of visible ASCII characters as it is.
pub trim_space-visible : (s : Text) → All IsVisible s → trim_space s ≡ s
unfolding trim_space
trim_space-visible s h =
    rw
      (
        strip-visible space_width (length s) s (space_width-visible s h),
        strip-visible space_width_back (length s) (reverse s)
            (space_width_back-visible (reverse s) (All-reverse s h)),
      )
      (reverse-reverse s)

-- TrimSpace leaves no white space at either end of a text.
pub trim_space-trimmed :
    (s : Text) → (space_width (trim_space s) ≡ 0) × (space_width_back (reverse (trim_space s)) ≡ 0)
unfolding trim_space
trim_space-trimmed s =
    let t = strip space_width (length s) s in
    let kept = strip space_width_back (length t) (reverse t) in
    let (p, e) = strip-suffix space_width_back (length t) (reverse t) in
    let front : space_width (reverse kept ++ reverse p) ≡ 0 =
      rw (← reverse-append p kept, e, reverse-reverse t)
        (strip-done space_width (length s) s refl (omega arith)) in
    (
      space_width-prefix (reverse kept) (reverse p) front,
      rw (reverse-reverse kept) (
          strip-done space_width_back (length t) (reverse t) refl
            (omega (arith, length-reverse t))),
    )

pub trim_space-is_empty : (s : Text) → is_empty (trim_space s) ≡ false → is_empty s ≡ false
unfolding trim_space
trim_space-is_empty [] h = h
trim_space-is_empty (c ∷ s) h = refl
