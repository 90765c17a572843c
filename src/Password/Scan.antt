-- ===== src/Password/Scan.antt =====
-- `strings.Split` on "$" and `fmt.Sscanf` with "m=%d,t=%d,p=%d", as api/auth/password.go uses them.
use go_lab.Prelude.{
  ℕ, zero, suc, ◌≡◌, refl, ◌≢◌, ℤ, Text, codes, Bool, false, ◌&&◌, ◌||◌, Option, none, some, [],
  ◌∷◌, ◌++◌, arith, length, drop, is_empty, ◌==◌, if◌then◌else◌, All,
}
use go_lab.Strings.{space_width, has_prefix, split}
use go_lab.Strconv.{is_digit, atoi}

pub split-plain : (s : Text) → All (λ c. c ≢ 36) s → split b'$' s ≡ s ∷ []
unfolding split
split-plain [] h = refl
split-plain (c ∷ s) (h, rest) = ground (arith, h, split-plain s rest)

pub split-append : (s t : Text) → All (λ c. c ≢ 36) s → split b'$' (s ++ 36 ∷ t) ≡ s ∷ split b'$' t
unfolding split
split-append [] t h = refl
split-append (c ∷ s) t (h, rest) = ground (arith, h, split-append s t rest)

-- `SkipSpace`: a line end is an error. The length of the text is enough fuel.
abbrev is_line_end : Text → Bool
is_line_end [] = false
is_line_end (c ∷ []) = c == 10
is_line_end (c ∷ d ∷ s) = c == 10 || ((c == 13) && (d == 10))

skip_space : ℕ → Text → Option Text
skip_space zero s = some s
skip_space (suc fuel) s =
    if is_line_end s
    then none
    else elim (space_width s) [ zero ↦ some s | suc n ↦ skip_space fuel (drop (suc n) s) ]

-- The digits that a text begins with, and what is behind them.
span_digits : Text → Text × Text
span_digits [] = ([], [])
span_digits (c ∷ s) =
    let (ds, rest) = span_digits s in if is_digit c then (c ∷ ds, rest) else ([], c ∷ s)

abbrev number : Text → Text → Text → Option (ℤ × Text)
number sign ds rest =
    if is_empty ds then none else elim (atoi (sign ++ ds)) [ none ↦ none | some n ↦ some (n, rest) ]

abbrev signed : Text → Option (ℤ × Text)
signed [] = none
signed (c ∷ s) =
    let (ds, rest) = span_digits s in
    let (all_ds, all_rest) = span_digits (c ∷ s) in
    if c == b'-' || c == b'+' then number (c ∷ []) ds rest else number [] all_ds all_rest

-- The verb %d.
unfoldable pub scan_int : Text → Option (ℤ × Text)
unfolding skip_space span_digits space_width
scan_int s = elim (skip_space (length s) s) [ none ↦ none | some t ↦ signed t ]

-- A literal text and then %d.
abbrev scan_field : Text → Text → Option (ℤ × Text)
scan_field literal s = if has_prefix s literal then scan_int (drop (length literal) s) else none

-- `fmt.Sscanf(s, "m=%d,t=%d,p=%d", …)`, which passes over what is left of the text.
unfoldable pub scan_params : Text → Option (ℤ × ℤ × ℤ)
scan_params s = elim (scan_field (codes "m=") s) [
  | none ↦ none
  | some (m, s1) ↦ elim (scan_field (codes ",t=") s1) [
    | none ↦ none
    | some (t, s2) ↦ elim (scan_field (codes ",p=") s2) [
      | none ↦ none
      | some (p, s3) ↦ some (m, t, p)
    ]
  ]
]
