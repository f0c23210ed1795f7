-- ===== src/Oauth/ServiceTests.antt =====
-- Runs of the login, consent and userinfo services (internal/oauth).
use open_xai_connect.Base.{
  nat_eqs, string_eqs, contains, trim_space, fields, lookup, insert, delete, pos, int_eqs, ok, ℕ,
  ◌*◌, String, ◌≡◌, refl, true, some, List, [], ◌∷◌,
}
use open_xai_connect.Base.Exec.{failing_as, ◌>>=◌}
use open_xai_connect.Domain.Application.{second}
use open_xai_connect.Domain.Status.{status_eqs}
use open_xai_connect.Portal.World.{World, on_users, on_hydra, now, on_apps, on_consents}
use open_xai_connect.Store.Consents.{consent_key, put, delete_consent}
use open_xai_connect.Store.Users.{Users, get_by_subject}
use open_xai_connect.Store.Applications.{get_by_client_id}
use open_xai_connect.Identity.StatusSnapshot.{can_authenticate}
use open_xai_connect.Oauth.Scopes.{collect_scopes, filter_scopes, all_in, same_strings}
use open_xai_connect.Oauth.Request.{
  query_value, not_authorization_url, bad_scope, lacks_pkce_nonce, validate_query, validate_parsed,
  validate_login_request_with_pkce_nonce,
}
use open_xai_connect.Oauth.Login.{
  LoginService, denied, other_subject, accept_login_of, requires_pkce_nonce, begin_with, complete,
}
use open_xai_connect.Oauth.LoginSafety.{LoginEnd, complete-LoginEnd}
use open_xai_connect.Oauth.Grant.{
  available, refuse_unrequested, new_consent, select_filtered, select_scopes,
}
use open_xai_connect.Oauth.Consent.{
  ConsentService, request_with, answered, hand_over, store_consent, accept_request, accept,
}
use open_xai_connect.Oauth.Granted.{ConsentEnd}
use open_xai_connect.Oauth.ConsentEnd.{accept-ConsentEnd}
use open_xai_connect.Oauth.Withdrawn.{FailedEnd, accept-FailedEnd}
use open_xai_connect.Oauth.UserInfo.{
  text, Claims, add_profile, add_email, add_community, claims_of, inactive, claims_for, claims_with,
  claims,
}
use open_xai_connect.Oauth.Released.{IsInformed, claims-IsInformed}
use open_xai_connect.Oauth.Fixture.{a_library, refusal, a_hydra, a_lookup, no_faults, a_world}

abbrev logins : LoginService ℕ Users
logins = record {
  hydra = some a_hydra;
  status = some a_lookup;
  has_apps = true;
  remember_for = pos (60 * second);
}

login_run : (complete a_library no_faults logins "ch" "u1" a_world).0 ≡ ok "https://id.example/next"
unfolding complete begin_with requires_pkce_nonce accept_login_of on_hydra on_users on_apps ◌>>=◌
    failing_as get_by_client_id denied other_subject can_authenticate
    validate_login_request_with_pkce_nonce validate_parsed validate_query not_authorization_url
    bad_scope lacks_pkce_nonce query_value lookup filter_scopes collect_scopes same_strings all_in
    trim_space fields contains
login_run = refl

complete-LoginEnd_example :
    LoginEnd a_library no_faults a_hydra a_lookup true
      (pos (60 * second))
      "ch"
      "u1"
      a_world
      (complete a_library no_faults logins "ch" "u1" a_world)
complete-LoginEnd_example =
    complete-LoginEnd a_library no_faults a_hydra a_lookup true (pos (60 * second)) "ch" "u1"
      a_world

abbrev consents : ConsentService ℕ Users
consents = record {
  hydra = some a_hydra;
  status = some a_lookup;
  has_apps = true;
  has_consents = true;
  remember_for = pos second;
}

abbrev granted : List String
granted = "openid" ∷ []

accept-ConsentEnd_example :
    ConsentEnd no_faults a_hydra a_lookup
      (pos second)
      "ch"
      "u1"
      granted
      true
      a_world
      (accept no_faults consents "ch" "u1" granted true a_world)
accept-ConsentEnd_example =
    accept-ConsentEnd no_faults a_hydra a_lookup (pos second) "ch" "u1" granted true a_world

abbrev after_refusal : World ℕ Users
after_refusal = record a_world { step = 5 }

accept-FailedEnd_example : FailedEnd "u1" refusal [] []
unfolding accept request_with accept_request store_consent new_consent hand_over answered
    on_consents now put delete_consent on_hydra on_users on_apps ◌>>=◌ failing_as get_by_client_id
    available select_scopes select_filtered refuse_unrequested can_authenticate filter_scopes
    collect_scopes trim_space contains consent_key insert delete
accept-FailedEnd_example =
    accept-FailedEnd no_faults a_hydra a_lookup (pos second) "ch" "u1" granted true a_world
      after_refusal refusal refl

abbrev released : Claims
released = ("sub", text "u1") ∷ ("email", text "ann@forum.example") ∷ []

claims-IsInformed_example :
    IsInformed no_faults a_hydra a_lookup get_by_subject "t" a_world released
unfolding claims claims_with claims_for claims_of add_profile add_email add_community inactive
    on_hydra on_users on_apps ◌>>=◌ failing_as get_by_client_id get_by_subject can_authenticate
    filter_scopes collect_scopes trim_space contains fields insert lookup
claims-IsInformed_example =
    claims-IsInformed no_faults a_hydra a_lookup get_by_subject "t" a_world
      (record a_world { step = 1 }) released refl
