-- ===== src/Password/Base64.antt =====
-- `base64.RawStdEncoding`, which api/auth/password.go writes salts and keys in: six bits a
-- character, without padding.
use go_lab.Prelude.{
  ℕ, ◌+◌, ◌-◌, ◌*◌, ◌/◌, ◌%◌, ◌<◌, ◌≡◌, refl, ◌≢◌, Text, Bool, true, ◌&&◌, ◌||◌, not, Option, none,
  some, List, [], ◌∷◌, map, arith, filter, leb, ltb, ◌==◌, if◌then◌else◌, All,
}
use go_lab.Strings.Trim.{IsVisible}

abbrev digit : ℕ → ℕ
digit n =
    if ltb n 26
    then 65 + n
    else if ltb n 52
    then 71 + n
    else if ltb n 62
    then n - 4
    else if n == 62
    then 43
    else 47

-- Bytes in groups of six bits; the last group is filled up with zeros.
pack : List ℕ → List ℕ
pack [] = []
pack (a ∷ []) = (a / 4) ∷ (a % 4 * 16) ∷ []
pack (a ∷ b ∷ []) = (a / 4) ∷ (a % 4 * 16 + b / 16) ∷ (b % 16 * 4) ∷ []
pack (a ∷ b ∷ c ∷ bytes) =
    (a / 4) ∷ (a % 4 * 16 + b / 16) ∷ (b % 16 * 4 + c / 64) ∷ (c % 64) ∷ pack bytes

-- `EncodeToString`
unfoldable pub encode : List ℕ → Text
unfolding pack
encode bytes = map digit (pack bytes)

abbrev value : ℕ → Option ℕ
value c =
    if leb b'A' c && leb c b'Z'
    then some (c - 65)
    else if leb b'a' c && leb c b'z'
    then some (c - 71)
    else if leb b'0' c && leb c b'9'
    then some (c + 4)
    else if c == b'+'
    then some 62
    else if c == b'/'
    then some 63
    else none

abbrev cons_value : Option ℕ → Option (List ℕ) → Option (List ℕ)
cons_value none vs = none
cons_value (some v) none = none
cons_value (some v) (some vs) = some (v ∷ vs)

values : Text → Option (List ℕ)
values [] = some []
values (c ∷ s) = cons_value (value c) (values s)

abbrev append_to : ℕ → ℕ → ℕ → Option (List ℕ) → Option (List ℕ)
append_to a b c none = none
append_to a b c (some bytes) = some (a ∷ b ∷ c ∷ bytes)

-- The bytes of such groups; bits that are left over may be anything, a single group is an error.
unpack : List ℕ → Option (List ℕ)
unpack [] = some []
unpack (v ∷ []) = none
unpack (v ∷ w ∷ []) = some ((v * 4 + w / 16) ∷ [])
unpack (v ∷ w ∷ x ∷ []) = some ((v * 4 + w / 16) ∷ (w % 16 * 16 + x / 4) ∷ [])
unpack (v ∷ w ∷ x ∷ y ∷ vs) =
    append_to (v * 4 + w / 16) (w % 16 * 16 + x / 4) (x % 4 * 64 + y) (unpack vs)

abbrev unpacked : Option (List ℕ) → Option (List ℕ)
unpacked none = none
unpacked (some vs) = unpack vs

abbrev is_kept : ℕ → Bool
is_kept c = not (c == 10 || c == 13)

-- `DecodeString`, which passes over line ends.
unfoldable pub decode : Text → Option (List ℕ)
unfolding values unpack
decode s = unpacked (values (filter is_kept s))

abbrev pub IsByte : ℕ → Type 0
IsByte b = b < 256

pack-small : (bytes : List ℕ) → All IsByte bytes → All (λ v. v < 64) (pack bytes)
unfolding pack
pack-small [] h = tt
pack-small (a ∷ []) h = (omega arith, (omega arith, tt))
pack-small (a ∷ b ∷ []) (h, (k, _)) = (omega arith, (omega arith, (omega arith, tt)))
pack-small (a ∷ b ∷ c ∷ bytes) (h, (k, (l, rest))) =
    (omega arith, (omega arith, (omega arith, (omega arith, pack-small bytes rest))))

unpack-pack : (bytes : List ℕ) → All IsByte bytes → unpack (pack bytes) ≡ some bytes
unfolding pack unpack
unpack-pack [] h = refl
unpack-pack (a ∷ []) (h, _) = ground arith
unpack-pack (a ∷ b ∷ []) (h, (k, _)) = ground arith
unpack-pack (a ∷ b ∷ c ∷ bytes) (h, (k, (l, rest))) = ground (arith, unpack-pack bytes rest)

value-digit : (v : ℕ) → v < 64 → value (digit v) ≡ some v
value-digit v h = ground arith

values-digits : (vs : List ℕ) → All (λ v. v < 64) vs → values (map digit vs) ≡ some vs
unfolding values
values-digits [] h = refl
values-digits (v ∷ vs) (h, rest) = rw (value-digit v h, values-digits vs rest) refl

-- No character is a line end or a "$".
is_kept-digit : (v : ℕ) → v < 64 → is_kept (digit v) ≡ true
is_kept-digit v h = ground arith

kept : (vs : List ℕ) → All (λ v. v < 64) vs → filter is_kept (map digit vs) ≡ map digit vs
kept [] h = refl
kept (v ∷ vs) (h, rest) = rw (is_kept-digit v h, kept vs rest) refl

digit-plain : (v : ℕ) → v < 64 → digit v ≢ 36
digit-plain v h e = ground arith

digits-plain : (vs : List ℕ) → All (λ v. v < 64) vs → All (λ c. c ≢ 36) (map digit vs)
digits-plain [] h = tt
digits-plain (v ∷ vs) (h, rest) = (digit-plain v h, digits-plain vs rest)

pub encode-plain : (bytes : List ℕ) → All IsByte bytes → All (λ c. c ≢ 36) (encode bytes)
unfolding encode
encode-plain bytes h = digits-plain (pack bytes) (pack-small bytes h)

-- Bytes are read back from their encoding.
pub decode-encode : (bytes : List ℕ) → All IsByte bytes → decode (encode bytes) ≡ some bytes
unfolding encode decode
decode-encode bytes h =
    let small = pack-small bytes h in
    rw (kept (pack bytes) small, values-digits (pack bytes) small) (unpack-pack bytes h)

digits-IsVisible : (vs : List ℕ) → All (λ v. v < 64) vs → All IsVisible (map digit vs)
digits-IsVisible [] h = tt
digits-IsVisible (v ∷ vs) (h, rest) = (ground arith, digits-IsVisible vs rest)

pub encode-IsVisible : (bytes : List ℕ) → All IsByte bytes → All IsVisible (encode bytes)
unfolding encode
encode-IsVisible bytes h = digits-IsVisible (pack bytes) (pack-small bytes h)
