-- ===== src/Strconv.antt =====
-- The functions of package `strconv` that the program calls: Atoi (and ParseInt in base 10, which
-- has the same range on a 64-bit platform) and Itoa, on bytes.
pub mod RoundTrip
use go_lab.Prelude.{
  ℕ, zero, suc, ◌+◌, ◌-◌, ◌*◌, ◌/◌, ◌%◌, ◌^◌, ℤ, pos, negsuc, Text, Bool, true, false, ◌&&◌, Option,
  none, some, List, [], ◌∷◌, ◌++◌, ltb, leb, ◌==◌, if◌then◌else◌, is_empty,
}

-- `math.MaxInt64 + 1`
abbrev pub int_limit : ℕ
int_limit = 9223372036854775808

abbrev pub is_digit : ℕ → Bool
is_digit c = leb b'0' c && leb c b'9'

pub parse_digits : ℕ → Text → Option ℕ
parse_digits acc [] = some acc
parse_digits acc (c ∷ s) = if is_digit c then parse_digits (acc * 10 + (c - 48)) s else none

-- `-n`
abbrev negate : ℕ → ℤ
negate zero = pos 0
negate (suc n) = negsuc n

abbrev positive : Option ℕ → Option ℤ
positive none = none
positive (some n) = if ltb n int_limit then some (pos n) else none

abbrev negative : Option ℕ → Option ℤ
negative none = none
negative (some n) = if leb n int_limit then some (negate n) else none

abbrev unsigned_digits : Text → Option ℕ
unsigned_digits s = if is_empty s then none else parse_digits 0 s

-- `none` is a syntax or a range error.
unfoldable pub atoi : Text → Option ℤ
unfolding parse_digits
atoi [] = none
atoi (c ∷ s) =
    if c == b'-'
    then negative (unsigned_digits s)
    else if c == b'+'
    then positive (unsigned_digits s)
    else positive (unsigned_digits (c ∷ s))

-- The decimal digits of `n`, which needs no more rounds than `n + 1`.
pub digits : ℕ → ℕ → Text
digits zero n = []
digits (suc fuel) n =
    let rest = digits fuel (n / 10) in
    if ltb n 10 then (48 + n) ∷ [] else rest ++ (48 + n % 10) ∷ []

unfoldable pub itoa : ℤ → Text
unfolding digits
itoa (pos n) = digits (suc n) n
itoa (negsuc n) = b'-' ∷ digits (suc (suc n)) (suc n)
