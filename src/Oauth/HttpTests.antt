-- ===== src/Oauth/HttpTests.antt =====
-- A run of the consent page (internal/oauth/http.go): a posted decision without a valid form token.
use open_xai_connect.Base.{
  nat_eqs, string_eqs, contains, trim_space, lookup, pos, int_eqs, ℕ, ◌≡◌, refl, true, some, [],
  ◌∷◌,
}
use open_xai_connect.Base.Exec.{◌>>=◌}
use open_xai_connect.Domain.Application.{second}
use open_xai_connect.Portal.World.{on_hydra, on_apps}
use open_xai_connect.Store.Users.{Users}
use open_xai_connect.Store.Applications.{get_by_client_id}
use open_xai_connect.Session.Http.{initialized, current, session_id}
use open_xai_connect.Session.Csrf.{verify, token, signed}
use open_xai_connect.Oauth.Scopes.{collect_scopes, filter_scopes}
use open_xai_connect.Oauth.Grant.{available}
use open_xai_connect.Oauth.Consent.{ConsentService, request_with, request_consent}
use open_xai_connect.Portal.Page.{Site, ask, ask_sessions, has_valid_token}
use open_xai_connect.Oauth.Http.{
  ConsentForm, error_page, ConsentHttpHandler, answer_form, handle_with,
}
use open_xai_connect.Oauth.Decided.{PageEnd, handle_with-PageEnd}
use open_xai_connect.Oauth.Fixture.{
  toy, browser, a_signer, a_library, a_hydra, a_lookup, no_faults, a_world,
}

abbrev a_service : ConsentService ℕ Users
a_service = record {
  hydra = some a_hydra;
  status = some a_lookup;
  has_apps = true;
  has_consents = true;
  remember_for = pos second;
}

abbrev a_handler : ConsentHttpHandler ℕ Users (Unit {0})
a_handler = record { service = some a_service; sessions = some browser; csrf = some a_signer }

abbrev a_form : ConsentForm
a_form = record {
  method = "POST";
  consent_challenge = "ch";
  login_challenge = "";
  cookies = ("connect", "sid") ∷ [];
  decision = "deny";
  scope = "";
  remember = "";
  csrf_token = "forged";
}

abbrev a_site : Site ℕ Users (Unit {0})
a_site = record { world = a_world; sessions = tt }

forged_run :
    (handle_with toy a_library
      (λ text. text)
      no_faults
      a_handler
      a_service
      browser
      a_form
      5
      a_site).0
    ≡ error_page 403
unfolding handle_with ask ask_sessions answer_form has_valid_token current initialized session_id
    request_consent request_with on_hydra on_apps get_by_client_id available filter_scopes
    collect_scopes verify token signed contains trim_space lookup ◌>>=◌
forged_run = refl

handle_with-PageEnd_example :
    PageEnd toy a_library
      (λ text. text)
      no_faults
      a_hydra
      a_service
      a_handler
      browser
      a_form
      5
      a_site
      (handle_with toy a_library
        (λ text. text)
        no_faults
        a_handler
        a_service
        browser
        a_form
        5
        a_site)
handle_with-PageEnd_example =
    handle_with-PageEnd toy a_library (λ text. text) no_faults a_hydra (some a_lookup) true
      (pos second) a_handler browser a_form 5 a_site
