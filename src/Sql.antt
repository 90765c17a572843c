-- ===== src/Sql.antt =====
-- What package authstore uses of database/sql and of MySQL: how a statement can end, and the
-- SELECT, UPDATE and INSERT of its queries on a table that is a list of rows.
pub mod Rows
pub mod Keys
pub mod Order
use go_lab.Prelude.{
  ℕ, ◌+◌, Text, is_empty, Bool, true, false, Option, none, some, List, [], ◌∷◌, if◌then◌else◌, ◌≡◌,
  refl, arith,
}

-- How the server's answer to one statement reaches the program. A statement that is `lost` has
-- taken effect, but the program sees an error (the connection broke behind it).
pub data Outcome : Type 0 where
  done failed lost : Outcome

-- The program sees no error.
abbrev pub answered : Outcome → Bool
answered Outcome.done = true
answered Outcome.failed = false
answered Outcome.lost = false

-- The statement takes effect, if nothing rolls it back.
abbrev pub applied : Outcome → Bool
applied Outcome.done = true
applied Outcome.failed = false
applied Outcome.lost = true

-- What one call of the store meets: how its statements end, by their number in the call's order,
-- the program's clock and the database's.
pub record Call : Type 0 where
  pub driver : ℕ → Outcome
  pub now : ℕ
  pub db_now : ℕ

-- Every statement is answered.
abbrev pub steady : ℕ → ℕ → Call
steady now db_now = record { driver = λ _. Outcome.done; now = now; db_now = db_now }

pub data Result (E A : Type 0) : Type 0 where
  ok : A → Result E A
  err : E → Result E A

-- A chain of steps that can fail is a `do` block.
infixl 5 ◌>>=◌ ◌>>◌
abbrev pub ◌>>=◌ : {E A B : Type 0} → Result E A → (A → Result E B) → Result E B
ok a >>= f = f a
err e >>= f = err e

abbrev pub ◌>>◌ : {E B : Type 0} → Result E (Unit {0}) → Result E B → Result E B
m >> k = m >>= λ _. k

-- `if !test { return …, e }`
abbrev pub guard : {E : Type 0} → Bool → E → Result E (Unit {0})
guard test e = if test then ok tt else err e

-- A chain that succeeds has succeeded in its first step.
pub >>=-ok :
    {E A B : Type 0} (m : Result E A) (f : A → Result E B) {b : B}
    → (m >>= f) ≡ ok b
    → (a : A) × (m ≡ ok a) × (f a ≡ ok b)
>>=-ok (ok a) f h = (a, refl, h)
>>=-ok (err e) f h = absurd (ground (arith, h))

pub guard-ok : {E : Type 0} (test : Bool) (e : E) {u : Unit {0}} → guard test e ≡ ok u → test ≡ true
guard-ok true e h = refl
guard-ok false e h = absurd (ground (arith, h))

module _ {ℓ} {A : Type ℓ} where
  -- A table after a write that is committed on its own, or after a COMMIT.
  abbrev pub settle : Outcome → A → A → A
  settle o before after = if applied o then after else before

-- `nullStr`: the empty text is stored as NULL.
abbrev pub null_str : Text → Option Text
null_str s = if is_empty s then none else some s

-- The statements of a call from number `n` on, for a method that is called after others.
abbrev pub after : ℕ → Call → Call
after n c = record c { driver = λ k. c.driver (n + k) }
