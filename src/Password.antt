-- ===== src/Password.antt =====
-- api/auth/password.go: the policy of passwords, their Argon2id hashes as text, and the check of a
-- password against such a text. `argon2.IDKey` and the bytes of `rand.Read` are parameters.
pub mod Base64
pub mod Scan
pub mod RoundTrip
pub mod Sample
mod Tests
use go_lab.Prelude.{
  ℕ, ◌/◌, ◌*◌, ℤ, pos, int_eq, Text, codes, text_eq, is_empty, Bool, true, false, ◌&&◌, ◌||◌, not,
  Option, none, some, List, [], ◌∷◌, ◌++◌, length, leb, ltb, ◌==◌, if◌then◌else◌,
}
use go_lab.Strconv.{itoa}
use go_lab.Sql.{Result, ok, err}
use go_lab.Password.Base64.{encode, decode}
use go_lab.Strings.{split}
use go_lab.Password.Scan.{scan_params}

abbrev pub argon2_time : ℕ
argon2_time = 3

abbrev pub argon2_memory : ℕ
argon2_memory = 65536

abbrev pub argon2_threads : ℕ
argon2_threads = 2

abbrev pub argon2_key_len : ℕ
argon2_key_len = 32

abbrev pub argon2_salt_len : ℕ
argon2_salt_len = 16

abbrev pub password_min_len : ℕ
password_min_len = 8

abbrev pub password_max_len : ℕ
password_max_len = 200

pub data PasswordError : Type 0 where
  too_short too_long invalid_hash no_random : PasswordError

-- `ValidatePasswordLength`
unfoldable pub validate_length : Text → Result PasswordError (Unit {0})
validate_length password =
    if ltb (length password) password_min_len
    then err too_short
    else if ltb password_max_len (length password)
    then err too_long
    else ok tt

-- `PasswordPolicySummary`
unfoldable pub policy_summary : Text
unfolding itoa
policy_summary =
    codes "argon2id m="
    ++ itoa (pos (argon2_memory / 1024))
    ++ codes "KiB t="
    ++ itoa (pos argon2_time)
    ++ codes " p="
    ++ itoa (pos argon2_threads)
    ++ codes " key="
    ++ itoa (pos argon2_key_len)
    ++ codes "B salt="
    ++ itoa (pos argon2_salt_len)
    ++ codes "B minLen="
    ++ itoa (pos password_min_len)

-- The text of a hash, as `fmt.Sprintf` makes it.
abbrev pub hash_text : Text → Text → Text
hash_text salt key =
    codes "$argon2id$v=19$m="
    ++ itoa (pos argon2_memory)
    ++ codes ",t="
    ++ itoa (pos argon2_time)
    ++ codes ",p="
    ++ itoa (pos argon2_threads)
    ++ codes "$"
    ++ (encode salt ++ (b'$' ∷ encode key))

-- Three numbers that are the parameters above.
abbrev pub are_params : Option (ℤ × ℤ × ℤ) → Bool
are_params none = false
are_params (some (mem, time, threads)) =
    int_eq mem (pos argon2_memory)
    && (int_eq time (pos argon2_time) && int_eq threads (pos argon2_threads))

abbrev of_length : ℕ → Option Text → Option Text
of_length n none = none
of_length n (some s) = if length s == n then some s else none

abbrev both : Option Text → Option Text → Option (Text × Text)
both none key = none
both (some salt) none = none
both (some salt) (some key) = some (salt, key)

abbrev read_parts : List Text → Option (Text × Text)
read_parts (_ ∷ name ∷ version ∷ params ∷ salt ∷ key ∷ []) =
    if not (text_eq name (codes "argon2id")) || not (text_eq version (codes "v=19"))
    then none
    else if not (are_params (scan_params params))
    then none
    else both (of_length argon2_salt_len (decode salt)) (of_length argon2_key_len (decode key))
read_parts _ = none

-- `parseArgon2IDEncoded`; its one error is `ErrInvalidHash`.
unfoldable pub parse_encoded : Text → Option (Text × Text)
parse_encoded encoded = read_parts (split b'$' encoded)

abbrev mem_of : Option (ℤ × ℤ × ℤ) → ℤ
mem_of none = pos 0
mem_of (some (mem, time, threads)) = mem

abbrev mem_part : List Text → ℤ
mem_part (_ ∷ _ ∷ _ ∷ params ∷ _ ∷ _ ∷ []) = mem_of (scan_params params)
mem_part _ = pos 0

-- `ParseArgon2MemoryFromEncoded`
unfoldable pub parse_memory : Text → ℤ
parse_memory encoded = mem_part (split b'$' encoded)

-- `argon2.IDKey`, on password, salt, time, memory, threads and length of the key.
module _ (id_key : Text → Text → ℕ → ℕ → ℕ → ℕ → Text) where
  abbrev pub key_of : Text → Text → ℕ → Text
  key_of password salt len = id_key password salt argon2_time argon2_memory argon2_threads len

  -- `HashPassword`
  unfoldable pub hash_password : Option Text → Text → Result PasswordError Text
  hash_password random password =
      if ltb (length password) password_min_len
      then err too_short
      else if ltb password_max_len (length password)
      then err too_long
      else elim random [
        | none ↦ err no_random
        | some salt ↦ ok (hash_text salt (key_of password salt argon2_key_len))
      ]

  -- `VerifyPassword`; ConstantTimeCompare is the equality of texts.
  unfoldable pub verify_password : Text → Text → Result PasswordError Bool
  verify_password password encoded =
      if is_empty encoded then ok false else elim (parse_encoded encoded) [
        | none ↦ err invalid_hash
        | some (salt, key) ↦
            if ltb password_max_len (length password)
            then ok false
            else ok (text_eq (key_of password salt (length key)) key)
      ]
