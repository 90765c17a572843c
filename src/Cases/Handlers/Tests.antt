-- ===== src/Cases/Handlers/Tests.antt =====
-- The endpoints on a case of user 7, called by user 3.
use go_lab.Sql.Order.{page_limit, select_page}
use go_lab.Cases.Listing.{list_cases, list_notes}
use go_lab.Prelude.{
  int_eq, ltb_ℤ, ◌≡◌, refl, pos, is_positive, Text, codes, text_eq, map, true, Option, some, [],
  ◌∷◌,
}
use go_lab.Strings.{trim_space, has_prefix, lower_byte}
use go_lab.Strconv.{atoi}
use go_lab.Sql.{steady}
use go_lab.Http.{Context, success, auth_user_id, id_of, error, validation, not_found}
use go_lab.Cases.{new_case, get_case, add_action, new_note}
use go_lab.Cases.Handlers.{
  World, Payload, recovery, appeal, character_of, is_outcome, sanction_payload, post_sanction,
  post_recovery, post_appeal,
}
use go_lab.Cases.Handlers.Pages.{get_cases, get_notes, get_actions}
use go_lab.Cases.Handlers.Recorded.{
  Acted, post_sanction-Acted, post_recovery-Acted, post_appeal-Acted,
}

abbrev marshal : Payload → Text
marshal _ = codes "{}"

abbrev to_utc : Text → Option Text
to_utc t = some t

abbrev desk : Context
desk = record {
  auth_subject = codes "user:3";
  id_param = codes "1";
  reason_header = codes "verified";
  action_reason = some (codes "verified");
  request_id = codes "r1";
  client_ip = codes "10.0.0.1";
  user_agent = codes "";
}

abbrev office : World
office = record {
  cases = record {
    connected = true;
    cases =
        new_case (steady 1 1) 1 (pos 7) (some (codes "hero")) (codes "lost item") (codes "")
          (codes "high") (pos 3)
        ∷ [];
    notes = [];
    actions = [];
    next_case = 2;
    next_note = 1;
    next_action = 1;
  };
  users = [];
  events = [];
}

sanctioned :
    (post_sanction marshal to_utc
      (steady 5 5)
      desk
      (some (codes "mute", some (codes "2030-01-01T00:00:00Z")))
      office).0
    ≡ success 200 (codes "sanction")
unfolding post_sanction get_case add_action auth_user_id id_of trim_space has_prefix atoi
    is_positive
sanctioned = refl

post_sanction-Acted_run :
    Acted marshal
      (steady 5 5)
      desk
      (codes "sanction")
      (codes "case.sanction_recorded")
      (sanction_payload marshal to_utc (codes "mute") (some (codes "2030-01-01T00:00:00Z")))
      office
      (post_sanction marshal to_utc
        (steady 5 5)
        desk
        (some (codes "mute", some (codes "2030-01-01T00:00:00Z")))
        office).1
post_sanction-Acted_run =
    post_sanction-Acted marshal to_utc (steady 5 5) desk (codes "mute")
      (some (codes "2030-01-01T00:00:00Z")) office 200 (codes "sanction") sanctioned

requested :
    (post_recovery marshal (steady 5 5) desk (some (codes "")) office).0
    ≡ success 200 (codes "recovery_request")
unfolding post_recovery get_case add_action auth_user_id id_of trim_space has_prefix atoi
    is_positive
requested = refl

post_recovery-Acted_run :
    Acted marshal
      (steady 5 5)
      desk
      (codes "recovery_request")
      (codes "case.recovery_requested")
      (λ row. some (
        recovery
          (character_of marshal (trim_space (codes "")) row.subject_character_ref)
          row.subject_user_id))
      office
      (post_recovery marshal (steady 5 5) desk (some (codes "")) office).1
post_recovery-Acted_run =
    post_recovery-Acted marshal (steady 5 5) desk (codes "") office 200 (codes "recovery_request")
      requested

resolved :
    (post_appeal marshal (steady 5 5) desk (some (codes " Upheld", codes "")) office).0
    ≡ success 200 (codes "appeal_resolve")
unfolding post_appeal get_case add_action auth_user_id id_of trim_space has_prefix atoi is_positive
    text_eq
resolved = refl

post_appeal-Acted_example :
    Acted marshal
      (steady 5 5)
      desk
      (codes "appeal_resolve")
      (codes "case.appeal_resolved")
      (λ row. some (appeal (map lower_byte (trim_space (codes " Upheld"))) (trim_space (codes ""))))
      office
      (post_appeal marshal (steady 5 5) desk (some (codes " Upheld", codes "")) office).1
    × (is_outcome marshal (map lower_byte (trim_space (codes " Upheld"))) ≡ true)
post_appeal-Acted_example =
    post_appeal-Acted marshal (steady 5 5) desk (codes " Upheld") (codes "") office 200
      (codes "appeal_resolve") resolved

abbrev noted : World
noted = record office {
  cases = record office.cases {
    notes =
        new_note (steady 3 3) 1 1 (codes "first") (pos 3)
        ∷ new_note (steady 4 4) 2 9 (codes "other") (pos 3)
        ∷ new_note (steady 5 5) 3 1 (codes "second") (pos 4)
        ∷ [];
  };
}

oldest_first :
    get_notes (steady 6 6) desk noted
    ≡ success 200 (
        new_note (steady 3 3) 1 1 (codes "first") (pos 3)
        ∷ new_note (steady 5 5) 3 1 (codes "second") (pos 4)
        ∷ [])
unfolding get_notes id_of trim_space atoi get_case list_notes select_page
oldest_first = refl

actions_of_no_case :
    get_actions (steady 6 6) (record desk { id_param = codes "2" }) noted ≡ error 404 not_found
unfolding get_actions id_of trim_space atoi get_case
actions_of_no_case = refl

too_large_page :
    get_cases text_eq
      (steady 6 6)
      (record { limit = codes "201"; status = []; subject = []; before_id = [] })
      noted
    ≡ error 400 validation
unfolding get_cases trim_space atoi
too_large_page = refl

cases_before :
    get_cases text_eq
      (steady 6 6)
      (record {
        limit = codes " 5";
        status = codes "open ";
        subject = codes "7";
        before_id = codes "1";
      })
      noted
    ≡ success 200 ([], pos 5)
unfolding get_cases trim_space atoi list_cases select_page page_limit text_eq int_eq ltb_ℤ
cases_before = refl
