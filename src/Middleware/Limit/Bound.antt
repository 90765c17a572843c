-- ===== src/Middleware/Limit/Bound.antt =====
-- Counting what the in-process limiter of ratelimit.go lets through.
use go_lab.Prelude.{
  ℕ, ◌+◌, ◌-◌, ◌*◌, ◌≤◌, ◌<◌, ◌≡◌, refl, ◌⊎◌, inl, inr, Text, text_eq, text_eq_iff, Bool, true,
  false, ◌&&◌, Option, none, some, List, [], ◌∷◌, arith, All, leb, if◌then◌else◌, Bool-cases,
}
use go_lab.Middleware.Limit.{IpWindow, Limiter, win, allow_local, swept}

abbrev pub bit : Bool → ℕ
bit true = 1
bit false = 0

-- The requests of `ip` that pass, among those at the given times and from the given addresses.
unfoldable pub admitted : ℕ → Text → List (ℕ × Text) → Limiter → ℕ
admitted rpm ip [] l = 0
admitted rpm ip ((now, k) ∷ calls) l =
    bit (text_eq k ip && (allow_local rpm now k l).0)
    + admitted rpm ip calls (allow_local rpm now k l).1

abbrev pub requests : Text → List (ℕ × Text) → ℕ
requests ip [] = 0
requests ip ((now, k) ∷ calls) = bit (text_eq k ip) + requests ip calls

abbrev pub min : ℕ → ℕ → ℕ
min a b = if leb a b then a else b

-- A request in the minute from `t` on.
abbrev pub Within : ℕ → ℕ × Text → Type 0
Within t (now, k) = (t ≤ now) × (now < t + win)

-- What an address may still send in that minute: its window may end once, if it began before.
budget : ℕ → ℕ → Option IpWindow → ℕ
budget rpm t none = rpm
budget rpm t (some w) = if leb t w.window_start then rpm - w.count else rpm + (rpm - w.count)

-- The window of the address began in that minute, if there is one.
IsYoung : ℕ → Option IpWindow → Type 0
IsYoung t none = Unit
IsYoung t (some w) = t ≤ w.window_start

-- A sweep makes no room, and it leaves a young window.
swept-budget :
    (rpm t now : ℕ) (ip : Text) (l : Limiter)
    → now < t + win
    → budget rpm t ((swept now l).by_ip ip) ≤ budget rpm t (l.by_ip ip)
unfolding budget
swept-budget rpm t now ip l to = go (l.by_ip ip) refl
  where
    go :
        (o : Option IpWindow)
        → l.by_ip ip ≡ o
        → budget rpm t ((swept now l).by_ip ip) ≤ budget rpm t o
    go none e = ground (arith, e)
    go (some w) e = ground (arith, e)

own :
    (rpm t now : ℕ) (ip : Text) (l : Limiter)
    → t ≤ now
    → now < t + win
    → bit (allow_local rpm now ip l).0 + budget rpm t ((allow_local rpm now ip l).1.by_ip ip)
      ≤ budget rpm t (l.by_ip ip)
unfolding allow_local budget
own rpm t now ip l from to = go (l.by_ip ip) refl
  where
    go :
        (o : Option IpWindow)
        → l.by_ip ip ≡ o
        → bit (allow_local rpm now ip l).0 + budget rpm t ((allow_local rpm now ip l).1.by_ip ip)
          ≤ budget rpm t o
    go none e = let same = (text_eq_iff ip ip).1 refl in ground (arith, e, same)
    go (some w) e = let same = (text_eq_iff ip ip).1 refl in ground (arith, e, same)

other :
    (rpm t now : ℕ) (k ip : Text) (l : Limiter)
    → text_eq k ip ≡ false
    → (allow_local rpm now k l).1.by_ip ip ≡ (swept now l).by_ip ip
unfolding allow_local
other rpm t now k ip l h = ground (arith, h)

spent :
    (rpm t now : ℕ) (k ip : Text) (l : Limiter)
    → t ≤ now
    → now < t + win
    → bit (text_eq k ip && (allow_local rpm now k l).0)
        + budget rpm t ((allow_local rpm now k l).1.by_ip ip)
      ≤ budget rpm t (l.by_ip ip)
spent rpm t now k ip l from to = elim (Bool-cases (text_eq k ip)) [
  | inl e ↦ rw (e, (text_eq_iff k ip).0 e) (own rpm t now ip l from to)
  | inr e ↦
      let kept = swept-budget rpm t now ip l to in
      let same = other rpm t now k ip l e in ground (arith, e, kept, same)
]

spent_all :
    (rpm t : ℕ) (ip : Text) (calls : List (ℕ × Text)) (l : Limiter)
    → All (Within t) calls
    → admitted rpm ip calls l ≤ budget rpm t (l.by_ip ip)
unfolding admitted
spent_all rpm t ip [] l h = omega arith
spent_all rpm t ip ((now, k) ∷ calls) l (w, h) =
    let one = spent rpm t now k ip l w.0 w.1 in
    let rest = spent_all rpm t ip calls (allow_local rpm now k l).1 h in omega (arith, one, rest)

budget-le : (rpm t : ℕ) (o : Option IpWindow) → budget rpm t o ≤ 2 * rpm
unfolding budget
budget-le rpm t none = omega arith
budget-le rpm t (some w) = ground arith

-- In any minute, whatever the limiter has seen before and whoever else sends, at most twice the
-- limit of an address's requests pass.
pub admitted_bound :
    (rpm t : ℕ) (ip : Text) (calls : List (ℕ × Text)) (l : Limiter)
    → All (Within t) calls
    → admitted rpm ip calls l ≤ 2 * rpm
admitted_bound rpm t ip calls l h =
    let all = spent_all rpm t ip calls l h in
    let most : budget rpm t (l.by_ip ip) ≤ 2 * rpm = budget-le rpm t (l.by_ip ip) in
    omega (arith, all, most)

room : ℕ → Option IpWindow → ℕ
room rpm none = rpm
room rpm (some w) = rpm - w.count

-- The window is still young, and the request passes while there is room, which it takes.
Fair : ℕ → ℕ → ℕ → Option IpWindow → Option IpWindow → Type 0
Fair rpm t passed o o' =
    IsYoung t o' × (passed + room rpm o' ≡ room rpm o) × ((passed ≡ 1) ⊎ (room rpm o ≡ 0))

own-young :
    (rpm t now : ℕ) (ip : Text) (l : Limiter)
    → t ≤ now
    → now < t + win
    → IsYoung t (l.by_ip ip)
    → Fair rpm t
        (bit (allow_local rpm now ip l).0)
        (l.by_ip ip)
        ((allow_local rpm now ip l).1.by_ip ip)
unfolding allow_local IsYoung Fair room
own-young rpm t now ip l from to y = go (l.by_ip ip) refl y
  where
    go :
        (o : Option IpWindow)
        → l.by_ip ip ≡ o
        → IsYoung t o
        → Fair rpm t (bit (allow_local rpm now ip l).0) o ((allow_local rpm now ip l).1.by_ip ip)
    go none e y = let same = (text_eq_iff ip ip).1 refl in ground (arith, e, same)
    go (some w) e y = let same = (text_eq_iff ip ip).1 refl in ground (arith, e, same, y)

other-young :
    (rpm t now : ℕ) (k ip : Text) (l : Limiter)
    → now < t + win
    → text_eq k ip ≡ false
    → IsYoung t (l.by_ip ip)
    → (allow_local rpm now k l).1.by_ip ip ≡ l.by_ip ip
unfolding IsYoung
other-young rpm t now k ip l to h y = go (l.by_ip ip) refl y
  where
    go :
        (o : Option IpWindow)
        → l.by_ip ip ≡ o
        → IsYoung t o
        → (allow_local rpm now k l).1.by_ip ip ≡ o
    go none e y = let it = other rpm t now k ip l h in ground (arith, e, it)
    go (some w) e y = let it = other rpm t now k ip l h in ground (arith, e, it, y)

fair_all :
    (rpm t : ℕ) (ip : Text) (calls : List (ℕ × Text)) (l : Limiter)
    → All (Within t) calls
    → IsYoung t (l.by_ip ip)
    → admitted rpm ip calls l ≡ min (requests ip calls) (room rpm (l.by_ip ip))
unfolding admitted Fair
fair_all rpm t ip [] l h y = ground arith
fair_all rpm t ip ((now, k) ∷ calls) l (w, h) y = elim (Bool-cases (text_eq k ip)) [
  | inl e ↦
      let one : Fair rpm t (bit (allow_local rpm now k l).0) (l.by_ip ip)
          ((allow_local rpm now k l).1.by_ip ip) =
        rw ((text_eq_iff k ip).0 e) (own-young rpm t now ip l w.0 w.1 y) in
      let (young, taken, full) = one in
      let rest = fair_all rpm t ip calls (allow_local rpm now k l).1 h young in
      ground (arith, e, taken, full, rest)
  | inr e ↦
      let same = other-young rpm t now k ip l w.1 e y in
      let rest = fair_all rpm t ip calls (allow_local rpm now k l).1 h (rw same y) in
      ground (arith, e, same, rest)
]

-- An address that the limiter does not know at the start of a minute has exactly its first `rpm`
-- requests of that minute pass, whoever else sends.
pub admitted_fresh :
    (rpm t : ℕ) (ip : Text) (calls : List (ℕ × Text)) (l : Limiter)
    → All (Within t) calls
    → l.by_ip ip ≡ none
    → admitted rpm ip calls l ≡ min (requests ip calls) rpm
unfolding IsYoung room
admitted_fresh rpm t ip calls l h e =
    let all = fair_all rpm t ip calls l h (rw e tt) in ground (arith, e, all)
