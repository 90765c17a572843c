-- ===== src/Platform/Tests.antt =====
-- The platform handlers on concrete requests.
use go_lab.Sql.Order.{select_page}
use go_lab.Strconv.{atoi}
use go_lab.Strings.{trim_space, has_prefix}
use go_lab.Prelude.{
  is_positive, ◌≡◌, refl, pos, Text, codes, true, false, none, some, List, [], ◌∷◌, any,
}
use go_lab.Sql.{steady}
use go_lab.Http.{Context, success, auth_user_id}
use go_lab.Audit.{insert_admin_event}
use go_lab.Rbac.{grants, has_permission}
use go_lab.Platform.{
  MeRoles, get_me_roles, post_support_ack, ready, version_mismatch, readyz, collect,
  all_permissions,
}
use go_lab.Platform.Effective.{Distinct, get_me_roles-grants}

abbrev ctx : Context
ctx = record {
  auth_subject = codes "user:7";
  id_param = codes "";
  reason_header = codes "call";
  action_reason = none;
  request_id = codes "r";
  client_ip = codes "::1";
  user_agent = codes "curl";
}

abbrev roles : List Text
roles = codes "support" ∷ codes "operator" ∷ codes "support" ∷ []

abbrev me : MeRoles
me = record {
  user_id = pos 7;
  roles = roles;
  effective_permissions = collect [] (all_permissions roles);
}

acked : (post_support_ack (λ s. s) true (steady 5 5) ctx (codes " hi ") []).0 ≡ success 200 tt
unfolding post_support_ack auth_user_id has_prefix trim_space atoi is_positive insert_admin_event
acked = refl

shown : get_me_roles ctx roles ≡ success 200 me
unfolding get_me_roles auth_user_id has_prefix trim_space atoi is_positive
shown = refl

old_schema :
    readyz true 5 (steady 5 5) (record { version = 4; dirty = false } ∷ []) ≡ version_mismatch 4 5
unfolding readyz select_page
old_schema = refl

new_schema :
    readyz true 5
      (steady 5 5)
      (record { version = 4; dirty = true } ∷ record { version = 6; dirty = false } ∷ [])
    ≡ ready (some 6)
unfolding readyz select_page
new_schema = refl

get_me_roles-grants_example :
    (auth_user_id ctx.auth_subject ≡ some me.user_id)
    × (me.roles ≡ roles)
    × Distinct me.effective_permissions
    × ((permission : Text)
        → any (grants permission) me.effective_permissions ≡ has_permission roles permission)
get_me_roles-grants_example = get_me_roles-grants ctx roles 200 me shown
