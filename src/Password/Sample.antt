-- ===== src/Password/Sample.antt =====
-- A key function that is easily computed, and a salt, for tests of what uses passwords.
use go_lab.Prelude.{ℕ, zero, suc, ◌%◌, ◌≡◌, refl, Text, codes, [], ◌∷◌, arith, length, All}
use go_lab.Password.Base64.{IsByte}

abbrev pub replicate : ℕ → ℕ → Text
replicate zero b = []
replicate (suc n) b = b ∷ replicate n b

-- A key that shows the length of the password.
abbrev pub fake_key : Text → Text → ℕ → ℕ → ℕ → ℕ → Text
fake_key password salt t m k n = replicate n (length password % 256)

length-replicate : (n b : ℕ) → length (replicate n b) ≡ n
length-replicate zero b = refl
length-replicate (suc n) b = omega (arith, length-replicate n b)

replicate-IsByte : (n b : ℕ) → All IsByte (replicate n (b % 256))
replicate-IsByte zero b = tt
replicate-IsByte (suc n) b = (omega arith, replicate-IsByte n b)

pub fake_key-length : (p s : Text) (t m k n : ℕ) → length (fake_key p s t m k n) ≡ n
fake_key-length p s t m k n = length-replicate n (length p % 256)

pub fake_key-IsByte : (p s : Text) (t m k n : ℕ) → All IsByte (fake_key p s t m k n)
fake_key-IsByte p s t m k n = replicate-IsByte n (length p)

abbrev pub salt : Text
salt = codes "0123456789abcdef"

pub salt-IsByte : All IsByte salt
salt-IsByte = omega arith
