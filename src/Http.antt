-- ===== src/Http.antt =====
-- What a handler sees of a request and what it answers: api/api/response.go, api/respond/gin.go,
-- api/middleware/platform_subject.go, and the helpers on path ids and reasons that handlers share.
pub mod Subject
pub mod Query
mod Tests
use go_lab.Prelude.{
  ℕ, ℤ, pos, negsuc, is_positive, Text, codes, is_empty, Bool, true, false, not, Option, none, some,
  List, drop, ltb, if◌then◌else◌,
}
use go_lab.Strings.{trim_space, has_prefix}
use go_lab.Strconv.{atoi}

-- The constants `Code…` of the error envelope.
pub data Code : Type 0 where
  validation not_found unauthorized forbidden conflict internal not_implemented rate_limited : Code

-- A response: a status with the data of an `OKEnvelope`, or with the code of an `ErrorEnvelope`.
pub data Reply (A : Type 0) : Type 0 where
  success : ℕ → A → Reply A
  error : ℕ → Code → Reply A

-- What the handlers read of `gin.Context`: an absent header or key reads as the empty text, but
-- `action_reason` is the value that RequirePlatformActionReason has set, if it ran.
pub record Context : Type 0 where
  pub auth_subject : Text
  pub id_param : Text
  pub reason_header : Text
  pub action_reason : Option Text
  pub request_id : Text
  pub client_ip : Text
  pub user_agent : Text

abbrev pub user_prefix : Text
user_prefix = codes "user:"

abbrev positive_only : Option ℤ → Option ℤ
positive_only none = none
positive_only (some id) = if is_positive id then some id else none

-- `AuthUserIDFromContext`
unfoldable pub auth_user_id : Text → Option ℤ
auth_user_id auth_subject =
    let sub = trim_space auth_subject in
    if not (has_prefix sub user_prefix)
    then none
    else positive_only (atoi (trim_space (drop 5 sub)))

abbrev row_id : Option ℤ → Option ℕ
row_id none = none
row_id (some (negsuc n)) = none
row_id (some (pos n)) = if ltb n 1 then none else some n

-- `parseInt64Param`; where it is `none` a 400 has been sent.
unfoldable pub id_of : Context → Option ℕ
id_of ctx = let s = trim_space ctx.id_param in if is_empty s then none else row_id (atoi s)

abbrev pub trimmed_reason : Option Text → Text
trimmed_reason none = codes ""
trimmed_reason (some v) = trim_space v

-- The reason that the handlers of a privileged action record.
unfoldable pub reason_of : Context → Text
reason_of ctx =
    let reason = trim_space ctx.reason_header in
    if is_empty reason then trimmed_reason ctx.action_reason else reason

-- What a middleware does: `c.Next()` with what it has set, or an error and `c.Abort()`.
pub data Gate (A : Type 0) : Type 0 where
  next : A → Gate A
  abort : ℕ → Code → Gate A

abbrev pub passes : {A : Type 0} → Gate A → Bool
passes (next _) = true
passes (abort _ _) = false
