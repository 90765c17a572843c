-- ===== src/Strings.antt =====
-- The functions of package `strings` that the program calls, on bytes.
pub mod Trim
use go_lab.Prelude.{
  ℕ, zero, suc, Text, Bool, true, false, ◌&&◌, ◌||◌, List, [], ◌∷◌, reverse, leb, ◌+◌, ◌-◌, ◌==◌,
  if◌then◌else◌, length, drop, map, text_eq,
}

-- `strings.HasPrefix`, and `s[len(prefix):]` behind it.
unfoldable pub has_prefix : Text → Text → Bool
has_prefix s [] = true
has_prefix [] (p ∷ ps) = false
has_prefix (c ∷ s) (p ∷ ps) = (c == p) && has_prefix s ps

-- The width of the white-space rune (`unicode.IsSpace`) that a text begins with, in UTF-8; 0 if
-- it begins with none.
abbrev is_ascii_space : ℕ → Bool
is_ascii_space a = (leb 9 a && leb a 13) || (a == 32)

abbrev is_space_2 : ℕ → ℕ → Bool
is_space_2 a b = (a == 0xc2) && ((b == 0x85) || (b == 0xa0))

abbrev is_space_3 : ℕ → ℕ → ℕ → Bool
is_space_3 a b c =
    (a == 0xe1) && (b == 0x9a) && (c == 0x80)
    || (a == 0xe2)
      && (b == 0x80)
      && (leb 0x80 c && leb c 0x8a || c == 0xa8 || c == 0xa9 || c == 0xaf)
    || (a == 0xe2) && (b == 0x81) && (c == 0x9f)
    || (a == 0xe3) && (b == 0x80) && (c == 0x80)

unfoldable pub space_width : Text → ℕ
space_width [] = 0
space_width (a ∷ []) = if is_ascii_space a then 1 else 0
space_width (a ∷ b ∷ []) = if is_ascii_space a then 1 else if is_space_2 a b then 2 else 0
space_width (a ∷ b ∷ c ∷ _) =
    if is_ascii_space a then 1 else if is_space_2 a b then 2 else if is_space_3 a b c then 3 else 0

-- The same at the end of a text, which is given in reverse.
pub space_width_back : Text → ℕ
space_width_back [] = 0
space_width_back (a ∷ []) = if is_ascii_space a then 1 else 0
space_width_back (a ∷ b ∷ []) = if is_ascii_space a then 1 else if is_space_2 b a then 2 else 0
space_width_back (a ∷ b ∷ c ∷ _) =
    if is_ascii_space a then 1 else if is_space_2 b a then 2 else if is_space_3 c b a then 3 else 0

-- A text has no more runes than bytes, so its length is enough fuel.
strip : (Text → ℕ) → ℕ → Text → Text
strip width zero s = s
strip width (suc fuel) s = elim (width s) [ zero ↦ s | suc n ↦ strip width fuel (drop (suc n) s) ]

-- `strings.TrimSpace`
unfoldable pub trim_space : Text → Text
unfolding strip space_width space_width_back
trim_space s =
    let t = strip space_width (length s) s in
    reverse (strip space_width_back (length t) (reverse t))

-- `strings.EqualFold` and `strings.ToLower` on ASCII letters.
abbrev pub lower_byte : ℕ → ℕ
lower_byte c = if leb b'A' c && leb c b'Z' then c + 32 else c

unfoldable pub equal_fold : Text → Text → Bool
equal_fold s t = text_eq (map lower_byte s) (map lower_byte t)

abbrev cons_head : ℕ → List Text → List Text
cons_head c [] = (c ∷ []) ∷ []
cons_head c (part ∷ parts) = (c ∷ part) ∷ parts

-- `strings.Split`, with a separator of one byte.
unfoldable pub split : ℕ → Text → List Text
split sep [] = [] ∷ []
split sep (c ∷ s) = let rest = split sep s in if c == sep then [] ∷ rest else cons_head c rest

abbrev pub to_lower : Text → Text
to_lower s = map lower_byte s
