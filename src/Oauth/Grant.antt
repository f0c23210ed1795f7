-- ===== src/Oauth/Grant.antt =====
-- internal/oauth/consent.go: what a consent grants, and to which application.
use open_xai_connect.Base.{
  if◌then◌else◌, ◌==◌, nat_eqs, string_eqs, contains, trim_space, int_eqs, OauthError, Error, oauth,
  wrapped, Result, ok, Check, ◌>>=◌, ◌>>◌, refuse_if, for_each, String, Bool, not, ◌&&◌, Option,
  none, some, List,
}
use open_xai_connect.Domain.Application.{Time, Duration, whole_seconds, Application}
use open_xai_connect.Domain.Status.{ApplicationStatus, status_eqs}
use open_xai_connect.Domain.Records.{Consent}
use open_xai_connect.Hydra.Client.{ConsentAcceptance}
use open_xai_connect.Identity.StatusSnapshot.{StatusSnapshot}
use open_xai_connect.Oauth.Scopes.{filter_scopes}

abbrev pub consent_denied : Error
consent_denied = oauth OauthError.consent_denied

abbrev pub app_unavailable : Error
app_unavailable = oauth OauthError.app_unavailable

unfoldable pub available : Application → Bool
available app = (app.status == ApplicationStatus.approved) && not (app.client_id == "")

-- The loop over the scopes that the user granted.
unfoldable pub refuse_unrequested : List String → List String → Check
refuse_unrequested requested = for_each (λ scope.
    refuse_if (not (contains requested scope)) (wrapped consent_denied "scope was not requested"))

-- The email address in the id token, where the scope is granted and the address is known.
unfoldable pub id_token_email : List String → StatusSnapshot → Option String
id_token_email selected status =
    if contains selected "email" && not (trim_space status.email == "")
    then some status.email
    else none

unfoldable pub new_consent : String → String → List String → Bool → Time → Consent
new_consent subject app_id selected remember now = record {
  user_subject = subject;
  application_id = app_id;
  scopes = selected;
  remember = remember;
  granted_at = now;
  last_used_at = now;
}

unfoldable pub consent_acceptance :
    Duration → List String → Bool → StatusSnapshot → ConsentAcceptance
unfolding id_token_email
consent_acceptance remember_for selected remember status = record {
  grant_scope = selected;
  remember = remember;
  remember_for = whole_seconds remember_for;
  id_token_email = id_token_email selected status;
}

-- The scopes that are granted: among those that the request asks for.
unfoldable pub select_filtered : Result (List String) → Result (List String) → Result (List String)
unfolding refuse_unrequested
select_filtered asked granted = do
  requested ← asked
  selected ← granted
  refuse_unrequested requested selected
  ok selected

unfoldable pub select_scopes : List String → List String → Result (List String)
unfolding select_filtered
select_scopes asked granted = select_filtered (filter_scopes asked) (filter_scopes granted)
