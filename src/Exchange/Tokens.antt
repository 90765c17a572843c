-- ===== src/Exchange/Tokens.antt =====
-- The texts of the exchange: the codes that authstore/store.go draws, and the checks on codes,
-- challenges and verifiers of api/myhandlers/auth_handlers.go.
use go_lab.Prelude.{
  ℕ, ◌+◌, ◌*◌, ◌/◌, ◌%◌, ◌<◌, ◌≡◌, refl, Text, Bool, true, false, ◌&&◌, ◌||◌, not, List, [], ◌∷◌,
  arith, ltb, leb, ◌==◌, length, all, All, if◌then◌else◌,
}
use go_lab.Strings.{trim_space}
use go_lab.Strings.Trim.{IsVisible, trim_space-visible}

-- `hex.EncodeToString`
abbrev hex_digit : ℕ → ℕ
hex_digit d = if ltb d 10 then 48 + d else 87 + d

unfoldable pub hex_encode : List ℕ → Text
hex_encode [] = []
hex_encode (b ∷ bs) = hex_digit (b / 16) ∷ hex_digit (b % 16) ∷ hex_encode bs

-- `NewOpaqueToken`, on the 32 bytes that `rand.Read` has given.
abbrev pub new_opaque_token : List ℕ → Text
new_opaque_token random = hex_encode random

abbrev is_lower_hex : ℕ → Bool
is_lower_hex b = leb b'0' b && leb b b'9' || leb b'a' b && leb b b'f'

-- `isValidOpaqueCode`
unfoldable pub is_valid_opaque_code : Text → Bool
is_valid_opaque_code raw = if not (length raw == 64) then false else all is_lower_hex raw

abbrev is_alpha_num : ℕ → Bool
is_alpha_num b = leb b'a' b && leb b b'z' || leb b'A' b && leb b b'Z' || leb b'0' b && leb b b'9'

-- `isValidCodeChallenge`
unfoldable pub is_valid_code_challenge : Text → Bool
is_valid_code_challenge v =
    if not (length v == 43) then false else all (λ b. is_alpha_num b || b == b'-' || b == b'_') v

-- `isValidCodeVerifier`
unfoldable pub is_valid_code_verifier : Text → Bool
is_valid_code_verifier v =
    if ltb (length v) 43 || ltb 128 (length v)
    then false
    else all (λ b. is_alpha_num b || b == b'-' || b == b'.' || b == b'_' || b == b'~') v

abbrev pub IsByte : ℕ → Type 0
IsByte b = b < 256

hex_encode-length : (bs : List ℕ) → length (hex_encode bs) ≡ 2 * length bs
unfolding hex_encode
hex_encode-length [] = refl
hex_encode-length (b ∷ bs) = ground (arith, hex_encode-length bs)

hex_encode-digits : (bs : List ℕ) → All IsByte bs → all is_lower_hex (hex_encode bs) ≡ true
unfolding hex_encode
hex_encode-digits [] h = refl
hex_encode-digits (b ∷ bs) (small, h) = ground (arith, hex_encode-digits bs h)

-- A text of hexadecimal digits has nothing to trim.
hex-IsVisible : (s : Text) → all is_lower_hex s ≡ true → All IsVisible s
hex-IsVisible [] h = tt
hex-IsVisible (b ∷ s) h = (ground arith, hex-IsVisible s (ground arith))

-- A token made of 32 random bytes is as it stands after trimming, and has the form of an exchange
-- code.
pub opaque_token_accepted :
    (random : List ℕ)
    → length random ≡ 32
    → All IsByte random
    → (trim_space (new_opaque_token random) ≡ new_opaque_token random)
      × (is_valid_opaque_code (new_opaque_token random) ≡ true)
unfolding is_valid_opaque_code
opaque_token_accepted random size bytes =
    let digits = hex_encode-digits random bytes in
    let len = hex_encode-length random in
    (
      trim_space-visible (hex_encode random) (hex-IsVisible (hex_encode random) digits),
      ground (arith, size, len, digits),
    )

-- A valid challenge has nothing to trim.
pub challenge-IsVisible : (v : Text) → is_valid_code_challenge v ≡ true → All IsVisible v
unfolding is_valid_code_challenge
challenge-IsVisible v h = go v (ground arith)
  where
    go : (s : Text) → all (λ b. is_alpha_num b || b == b'-' || b == b'_') s ≡ true → All IsVisible s
    go [] e = tt
    go (b ∷ s) e = (ground arith, go s (ground arith))
