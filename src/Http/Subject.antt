-- ===== src/Http/Subject.antt =====
-- The subject of a user, written by the authentication and read by the handlers.
use go_lab.Prelude.{
  ℕ, ◌<◌, ◌≡◌, refl, ℤ, pos, is_positive, Text, true, Option, none, some, ◌++◌, arith, All, drop,
}
use go_lab.Strings.{trim_space, has_prefix}
use go_lab.Strings.Trim.{IsVisible, All-append, trim_space-visible}
use go_lab.Strconv.{itoa, atoi, int_limit}
use go_lab.Strconv.RoundTrip.{itoa-IsVisible, atoi-itoa}
use go_lab.Http.{user_prefix, auth_user_id}

-- `fmt.Sprintf("user:%d", uid)` of BearerOrSession, and `"user:" + strconv.Itoa(id)` of the handlers.
unfoldable pub user_subject : ℤ → Text
user_subject uid = user_prefix ++ itoa uid

-- A user id that is positive and below the limit of int64, put into a subject and read from it
-- again, is the same.
pub auth_user_id-user_subject :
    (n : ℕ) → 0 < n → n < int_limit → auth_user_id (user_subject (pos n)) ≡ some (pos n)
unfolding auth_user_id user_subject has_prefix is_positive
auth_user_id-user_subject n above below =
    let seen : All IsVisible (user_prefix ++ itoa (pos n)) =
      All-append IsVisible user_prefix (itoa (pos n)) (omega arith) (itoa-IsVisible n) in
    rw
      (
        trim_space-visible (user_prefix ++ itoa (pos n)) seen,
        trim_space-visible (itoa (pos n)) (itoa-IsVisible n),
        atoi-itoa n below,
      )
      (ground arith)

-- A subject that is read as a user has a positive id.
pub auth_user_id_positive :
    (subject : Text) (id : ℤ) → auth_user_id subject ≡ some id → is_positive id ≡ true
unfolding auth_user_id
auth_user_id_positive subject id h = go (atoi (trim_space (drop 5 (trim_space subject)))) refl
  where
    go :
        (o : Option ℤ) → atoi (trim_space (drop 5 (trim_space subject))) ≡ o → is_positive id ≡ true
    go none e = absurd (ground arith)
    go (some x) e = ground arith
