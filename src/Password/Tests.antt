-- ===== src/Password/Tests.antt =====
-- Hashes of passwords, with a key function that is easily computed.
use go_lab.Strconv.{atoi}
use go_lab.Strings.{has_prefix, split}
use go_lab.Password.Scan.{scan_int, scan_params}
use go_lab.Prelude.{text_eq, ◌≡◌, refl, codes, true, false, none, some, pos}
use go_lab.Sql.{ok, err}
use go_lab.Password.{
  too_short, hash_text, policy_summary, parse_memory, hash_password, verify_password,
}
use go_lab.Password.Base64.{encode, decode}
use go_lab.Password.Sample.{
  replicate, fake_key, fake_key-length, fake_key-IsByte, salt, salt-IsByte,
}
use go_lab.Password.RoundTrip.{verify-hash_password}

encode_text : encode (codes "any carnal pleas") ≡ codes "YW55IGNhcm5hbCBwbGVhcw"
unfolding encode
encode_text = refl

decode_text : decode (codes "YW55I\nGNhcm5hbCBwbGVhcx") ≡ some (codes "any carnal pleas")
unfolding decode
decode_text = refl

decode_padded : decode (codes "YW55IGNhcm5hbCBwbGVhcw==") ≡ none
unfolding decode
decode_padded = refl

summary : policy_summary ≡ codes "argon2id m=64KiB t=3 p=2 key=32B salt=16B minLen=8"
unfolding policy_summary
summary = refl

memory : parse_memory (codes "$argon2id$v=19$m= 4096,t=3,p=1$c2FsdA$a2V5") ≡ pos 4096
unfolding parse_memory split scan_params has_prefix scan_int atoi
memory = refl

short : hash_password fake_key (some salt) (codes "1234567") ≡ err too_short
unfolding hash_password
short = refl

verify-hash_password_example :
    (verify_password fake_key (codes "12345678?") (hash_text salt (replicate 32 8)) ≡ ok false)
    × (verify_password fake_key (codes "12345678") (hash_text salt (replicate 32 8)) ≡ ok true)
unfolding hash_password text_eq
verify-hash_password_example =
    verify-hash_password fake_key salt (codes "12345678") (codes "12345678?")
      (hash_text salt (replicate 32 8)) fake_key-length fake_key-IsByte salt-IsByte refl refl
