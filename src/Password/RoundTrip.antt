-- ===== src/Password/RoundTrip.antt =====
-- HashPassword and then VerifyPassword.
use go_lab.Prelude.{
  ℕ, ◌≡◌, refl, ◌∙◌, int_eq, Text, text_eq, text_eq_iff, codes, true, false, ◌&&◌, some, [], ◌∷◌,
  ◌++◌, arith, length, leb, ltb, All, is_empty,
}
use go_lab.Strings.{has_prefix, space_width, trim_space, split}
use go_lab.Strings.Trim.{IsVisible, All-append, trim_space-visible}
use go_lab.Strconv.{itoa, atoi}
use go_lab.Sql.{ok}
use go_lab.Password.{
  argon2_key_len, hash_text, are_params, parse_encoded, key_of, hash_password, verify_password,
}
use go_lab.Password.Base64.{encode, IsByte, encode-plain, encode-IsVisible, decode-encode}
use go_lab.Password.Scan.{split-plain, split-append, scan_int, scan_params}

split-hash_text :
    (salt key : Text)
    → All IsByte salt
    → All IsByte key
    → split b'$' (hash_text salt key)
      ≡ []
        ∷ codes "argon2id"
        ∷ codes "v=19"
        ∷ codes "m=65536,t=3,p=2"
        ∷ encode salt
        ∷ encode key
        ∷ []
unfolding split itoa
split-hash_text salt key s k =
    let front : split b'$' (hash_text salt key)
        ≡ []
          ∷ codes "argon2id"
          ∷ codes "v=19"
          ∷ codes "m=65536,t=3,p=2"
          ∷ split b'$' (encode salt ++ 36 ∷ encode key) =
      refl in
    front
    ∙ rw
        (
          split-append (encode salt) (encode key) (encode-plain salt s),
          split-plain (encode key) (encode-plain key k),
        )
        refl

params_lem : are_params (scan_params (codes "m=65536,t=3,p=2")) ≡ true
unfolding scan_params scan_int has_prefix atoi int_eq space_width
params_lem = refl

parse-hash_text :
    (salt key : Text)
    → All IsByte salt
    → All IsByte key
    → length salt ≡ 16
    → length key ≡ 32
    → parse_encoded (hash_text salt key) ≡ some (salt, key)
unfolding parse_encoded text_eq
parse-hash_text salt key s k sl kl =
    rw (split-hash_text salt key s k, params_lem, decode-encode salt s, decode-encode key k, sl, kl)
      refl

-- The text of a hash is not blank.
pub hash_text-visible :
    (salt key : Text)
    → All IsByte salt
    → All IsByte key
    → is_empty (trim_space (hash_text salt key)) ≡ false
unfolding itoa
hash_text-visible salt key s k =
    let back =
      All-append IsVisible (encode salt) (b'$' ∷ encode key) (encode-IsVisible salt s)
        (omega arith, encode-IsVisible key k) in
    let whole : All IsVisible (hash_text salt key) =
      All-append IsVisible (codes "$argon2id$v=19$m=65536,t=3,p=2$")
        (encode salt ++ (b'$' ∷ encode key)) (omega arith) back in
    rw (trim_space-visible (hash_text salt key) whole) refl

module _ (id_key : Text → Text → ℕ → ℕ → ℕ → ℕ → Text) where
  -- Where Argon2id gives keys of bytes and of the length that is asked for, a text that was made from
  -- a password and a salt of 16 bytes verifies a second password exactly if that has at most 200
  -- bytes and the same key under the salt; so it verifies the first one.
  pub verify-hash_password :
      (salt password other encoded : Text)
      → ((p s : Text) (t m k n : ℕ) → length (id_key p s t m k n) ≡ n)
      → ((p s : Text) (t m k n : ℕ) → All IsByte (id_key p s t m k n))
      → All IsByte salt
      → length salt ≡ 16
      → hash_password id_key (some salt) password ≡ ok encoded
      → (verify_password id_key other encoded
          ≡ ok (
              leb (length other) 200
              && text_eq (key_of id_key other salt 32) (key_of id_key password salt 32)))
        × (verify_password id_key password encoded ≡ ok true)
  unfolding hash_password verify_password
  verify-hash_password salt password other encoded lengths bytes s sl made =
      let key = key_of id_key password salt argon2_key_len in
      let text : encoded ≡ hash_text salt key = ground (arith, made) in
      let parsed =
        parse-hash_text salt key s (bytes password salt 3 65536 2 32) sl
          (lengths password salt 3 65536 2 32) in
      let long = lengths password salt 3 65536 2 32 in
      let same = (text_eq_iff key key).1 refl in
      let short : ltb 200 (length password) ≡ false = ground (arith, made) in
      (
        rw (text, parsed, long) (ground arith),
        rw (text, parsed, long, short) (ground (arith, same)),
      )
