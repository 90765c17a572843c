-- ===== src/Exchange/Once.antt =====
-- Exchange codes over sequences of calls.
use go_lab.Prelude.{
  ℕ, ◌+◌, ◌<◌, ◌≡◌, refl, ◌≢◌, ◌∙◌, ◌⊎◌, inl, inr, ℤ, pos_part, Text, text_eq_iff, true, false,
  Option, none, some, List, [], ◌∷◌, arith, is_some, Bool-cases, any,
}
use go_lab.Sql.{Call, Outcome, ok}
use go_lab.Sql.Rows.{find, update, insert}
use go_lab.Sql.Keys.{find-update_by, find-insert_by, find-insert_absent, revise}
use go_lab.Exchange.{
  CodeRow, DesktopExchangeCode, Db, has_hash, exec, insert_code, binding, is_unconsumed,
  set_consumed, new_code, create_code, redeem_code,
}

pub data Step : Type 0 where
  create_for : ℤ → Text → Text → Text → Text → ℤ → Step
  redeem_by : Text → Step

-- A code keeps all but its consumption, and that stays as it is.
pub record Follows (r r' : CodeRow) : Type 0 where
  pub same_binding : binding r' ≡ binding r
  pub same_expiry : r'.expires_at ≡ r.expires_at
  pub stays_consumed : (r.consumed_at ≡ none) ⊎ (r'.consumed_at ≡ r.consumed_at)

Follows-refl : (r : CodeRow) → Follows r r
Follows-refl r = record { same_binding = refl; same_expiry = refl; stays_consumed = inr refl }

Follows-trans : {r s t : CodeRow} → Follows r s → Follows s t → Follows r t
Follows-trans a b = record {
  same_binding = b.same_binding ∙ a.same_binding;
  same_expiry = b.same_expiry ∙ a.same_expiry;
  stays_consumed = ground (arith, a.stays_consumed, b.stays_consumed);
}

pub record Holds (h : Text) (r : CodeRow) (db : Db) : Type 0 where
  pub row : CodeRow
  pub found : find (has_hash h) db.codes ≡ some row
  pub follows : Follows r row

Holds-same : (h : Text) (r : CodeRow) (db : Db) → find (has_hash h) db.codes ≡ some r → Holds h r db
Holds-same h r db e = record { row = r; found = e; follows = Follows-refl r }

updated :
    (c : Call) (id : ℕ) (db : Db) (h : Text) (r : CodeRow)
    → find (has_hash h) db.codes ≡ some r
    → Holds h r (record db { codes = update (is_unconsumed id) (set_consumed c) db.codes })
updated c id db h r e = record {
  row = revise (is_unconsumed id) (set_consumed c) r;
  found =
      find-update_by (has_hash h) (is_unconsumed id) (set_consumed c) db.codes (λ x. refl) ∙ rw e;
  follows = elim (Bool-cases (is_unconsumed id r)) [
    | inl t ↦
        rw t
          (record { same_binding = refl; same_expiry = refl; stays_consumed = inl (ground arith) })
    | inr t ↦ rw t (Follows-refl r)
  ];
}

exec-Holds :
    (o : Outcome) (c : Call) (id : ℕ) (db : Db) (h : Text) (r : CodeRow)
    → find (has_hash h) db.codes ≡ some r
    → Holds h r (exec o db (update (is_unconsumed id) (set_consumed c) db.codes))
exec-Holds Outcome.failed c id db h r e = Holds-same h r db e
exec-Holds Outcome.done c id db h r e = updated c id db h r e
exec-Holds Outcome.lost c id db h r e = updated c id db h r e

insert_code-Holds :
    (o : Outcome) (new : CodeRow) (db : Db) (h : Text) (r : CodeRow)
    → find (has_hash h) db.codes ≡ some r
    → Holds h r (insert_code o new db)
insert_code-Holds Outcome.failed new db h r e = Holds-same h r db e
insert_code-Holds Outcome.done new db h r e = record {
  row = r;
  found = find-insert_by (has_hash h) new r db.codes e;
  follows = Follows-refl r;
}
insert_code-Holds Outcome.lost new db h r e = record {
  row = r;
  found = find-insert_by (has_hash h) new r db.codes e;
  follows = Follows-refl r;
}

module _ (hash : Text → Text) where
  unfoldable pub apply : Call → Step → Db → Db
  apply c (create_for uid raw_code challenge session_id uri ttl) db =
      (create_code hash c uid raw_code challenge session_id uri ttl db).1
  apply c (redeem_by raw_code) db = (redeem_code hash c raw_code db).1

  unfoldable pub run : List (Call × Step) → Db → Db
  run [] db = db
  run ((c, q) ∷ calls) db = run calls (apply c q db)

  redeem-effect :
      (c : Call) (raw_code : Text) (db : Db)
      → ((redeem_code hash c raw_code db).1 ≡ db)
        ⊎ (x : CodeRow) × ((redeem_code hash c raw_code db).1
            ≡ exec (c.driver 4) db (update (is_unconsumed x.id) (set_consumed c) db.codes))
  unfolding redeem_code
  redeem-effect c raw_code db = go (find (has_hash (hash raw_code)) db.codes) refl
    where
      go :
          (found : Option CodeRow)
          → find (has_hash (hash raw_code)) db.codes ≡ found
          → ((redeem_code hash c raw_code db).1 ≡ db)
            ⊎ (x : CodeRow) × ((redeem_code hash c raw_code db).1
                ≡ exec (c.driver 4) db (update (is_unconsumed x.id) (set_consumed c) db.codes))
      go none e = inl (ground arith)
      go (some x) e =
          let either : ((redeem_code hash c raw_code db).1 ≡ db)
              ⊎ ((redeem_code hash c raw_code db).1
                  ≡ exec (c.driver 4) db (update (is_unconsumed x.id) (set_consumed c) db.codes)) =
            ground arith in
          elim either [ inl same ↦ inl same | inr did ↦ inr (x, did) ]

  apply-Holds :
      (c : Call) (q : Step) (db : Db) (h : Text) (r : CodeRow)
      → find (has_hash h) db.codes ≡ some r
      → Holds h r (apply c q db)
  unfolding apply create_code
  apply-Holds c (create_for uid raw_code challenge session_id uri ttl) db h r e =
      let new = new_code hash c uid raw_code challenge session_id uri ttl db in
      let either : ((create_code hash c uid raw_code challenge session_id uri ttl db).1 ≡ db)
          ⊎ ((create_code hash c uid raw_code challenge session_id uri ttl db).1
              ≡ insert_code (c.driver 0) new db) =
        ground arith in
      elim either [
        | inl same ↦ rw same (Holds-same h r db e)
        | inr did ↦ rw did (insert_code-Holds (c.driver 0) new db h r e)
      ]
  apply-Holds c (redeem_by raw_code) db h r e = elim (redeem-effect c raw_code db) [
    | inl same ↦ rw same (Holds-same h r db e)
    | inr (x, did) ↦ rw did (exec-Holds (c.driver 4) c x.id db h r e)
  ]

  run-Holds :
      (calls : List (Call × Step)) (db : Db) (h : Text) (r : CodeRow)
      → find (has_hash h) db.codes ≡ some r
      → Holds h r (run calls db)
  unfolding run
  run-Holds [] db h r e = Holds-same h r db e
  run-Holds ((c, q) ∷ calls) db h r e =
      let one = apply-Holds c q db h r e in
      let rest = run-Holds calls (apply c q db) h one.row one.found in
      record {
        row = rest.row;
        found = rest.found;
        follows = Follows-trans one.follows rest.follows;
      }

  -- A redemption that succeeds has found a code that is not consumed and not expired, returns what
  -- it is bound to, and leaves it consumed.
  pub redeem_found :
      (c : Call) (raw_code : Text) (db : Db) (b : DesktopExchangeCode)
      → (redeem_code hash c raw_code db).0 ≡ ok b
      → (r : CodeRow) × (r' : CodeRow) × (find (has_hash (hash raw_code)) db.codes ≡ some r)
        × (r.consumed_at ≡ none)
        × (c.now < r.expires_at)
        × (binding r ≡ b)
        × (find (has_hash (hash raw_code)) (redeem_code hash c raw_code db).1.codes ≡ some r')
        × (is_some r'.consumed_at ≡ true)
  unfolding redeem_code
  redeem_found c raw_code db b h = go (find (has_hash (hash raw_code)) db.codes) refl h
    where
      go :
          (found : Option CodeRow)
          → find (has_hash (hash raw_code)) db.codes ≡ found
          → (redeem_code hash c raw_code db).0 ≡ ok b
          → (r : CodeRow) × (r' : CodeRow) × (find (has_hash (hash raw_code)) db.codes ≡ some r)
            × (r.consumed_at ≡ none)
            × (c.now < r.expires_at)
            × (binding r ≡ b)
            × (find (has_hash (hash raw_code)) (redeem_code hash c raw_code db).1.codes ≡ some r')
            × (is_some r'.consumed_at ≡ true)
      go none e h = ground arith
      go (some r) e h =
          let one : r.consumed_at ≡ none = ground arith in
          let live : c.now < r.expires_at = ground arith in
          let bound : binding r ≡ b = ground arith in
          let did : (redeem_code hash c raw_code db).1.codes
              ≡ update (is_unconsumed r.id) (set_consumed c) db.codes =
            ground arith in
          let mine : is_unconsumed r.id r ≡ true = ground arith in
          (
            r,
            set_consumed c r,
            e,
            one,
            live,
            bound,
            rw did (
                find-update_by (has_hash (hash raw_code)) (is_unconsumed r.id) (set_consumed c)
                  db.codes (λ x. refl)
                ∙ rw (e, mine) refl),
            refl,
          )

  -- After a redemption of a code that succeeded, no redemption of it succeeds any more, whatever
  -- calls come between and however the driver answers.
  pub redeem_once :
      (c c' : Call) (raw_code : Text) (db : Db) (b b' : DesktopExchangeCode)
      (calls : List (Call × Step))
      → (redeem_code hash c raw_code db).0 ≡ ok b
      → (redeem_code hash c' raw_code (run calls (redeem_code hash c raw_code db).1)).0 ≢ ok b'
  redeem_once c c' raw_code db b b' calls h again =
      let (r, r', _, _, _, _, found, consumed) = redeem_found c raw_code db b h in
      let later = run-Holds calls (redeem_code hash c raw_code db).1 (hash raw_code) r' found in
      let (s, _, found', unconsumed, _, _, _, _) =
        redeem_found c' raw_code (run calls (redeem_code hash c raw_code db).1) b' again in
      let same : later.row ≡ s = ground (arith, later.found, found') in
      let kept = later.follows.stays_consumed in ground (arith, same, kept, consumed, unconsumed)

  -- A code that was created is redeemed, after any calls and however the driver answers, only
  -- before its time to live has passed since, and for the user, the session and the challenge that
  -- it was created for.
  pub redeem_bound :
      (c c' : Call) (user_id : ℤ) (raw_code challenge session_id uri : Text) (ttl : ℤ) (db : Db)
      (b : DesktopExchangeCode) (calls : List (Call × Step))
      → (create_code hash c user_id raw_code challenge session_id uri ttl db).0 ≡ ok tt
      → (redeem_code hash c' raw_code
          (run calls (create_code hash c user_id raw_code challenge session_id uri ttl db).1)).0
        ≡ ok b
      → (b ≡ record { user_id = user_id; session_id = session_id; code_challenge = challenge })
        × (c'.now < c.now + pos_part ttl)
  unfolding create_code
  redeem_bound c c' user_id raw_code challenge session_id uri ttl db b calls made h =
      let new = new_code hash c user_id raw_code challenge session_id uri ttl db in
      let absent : any (has_hash (hash raw_code)) db.codes ≡ false = ground arith in
      let did : (create_code hash c user_id raw_code challenge session_id uri ttl db).1.codes
          ≡ insert new db.codes =
        ground arith in
      let db' = (create_code hash c user_id raw_code challenge session_id uri ttl db).1 in
      let found : find (has_hash (hash raw_code)) db'.codes ≡ some new = rw did (
        find-insert_absent (has_hash (hash raw_code)) new db.codes absent
          ((text_eq_iff (hash raw_code) (hash raw_code)).1 refl)) in
      let later = run-Holds calls db' (hash raw_code) new found in
      let (s, _, found', unconsumed, live, bound, _, _) =
        redeem_found c' raw_code (run calls db') b h in
      let same : later.row ≡ s = ground (arith, later.found, found') in
      let kept = later.follows.same_binding in
      let expiry = later.follows.same_expiry in
      let bound' : binding later.row ≡ b = rw same bound in
      (ground (arith, bound', kept), ground (arith, same, expiry, live))
