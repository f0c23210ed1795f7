-- ===== src/Oauth/Http.antt =====
-- internal/oauth/http.go: the page on which a user allows or denies what an application asks for. Pages
-- are named, without their text; url.QueryEscape is a parameter.
use Prim.Native.String.{◌++◌ as append}
use open_xai_connect.Base.{
  nat_eq, if◌then◌else◌, ◌==◌, nat_eqs, string_eqs, length, trim_space, fields, int_eqs, ℕ, String,
  Bool, false, not, ◌&&◌, Option, none, some, List,
}
use open_xai_connect.Domain.Application.{Time}
use open_xai_connect.Domain.Library.{Url, Library}
use open_xai_connect.Hydra.Client.{ConsentRequest}
use open_xai_connect.Portal.World.{Env, now}
use open_xai_connect.Session.Memory.{Session}
use open_xai_connect.Portal.Page.{Page, ask, ask_sessions, has_valid_token, csrf_token_of}
use open_xai_connect.Session.Http.{HttpHandler, Cookies, current, session_id}
use open_xai_connect.Session.Csrf.{Keyed, Csrf}
use open_xai_connect.Oauth.Consent.{ConsentService, request_consent, accept, reject_consent_request}

-- The parts of a request that the handler reads.
pub record ConsentForm : Type 0 where
  pub method : String
  pub consent_challenge : String
  pub login_challenge : String
  pub cookies : Cookies
  pub decision : String
  pub scope : String
  pub remember : String
  pub csrf_token : String

pub data Reply : Type 0 where
  error_page : ℕ → Reply
  redirect : ℕ → String → Reply
  consent_page : ConsentRequest → String → Reply
  method_not_allowed_for : String → Reply

pub record ConsentHttpHandler (H U S : Type 0) : Type 0 where
  pub service : Option (ConsentService H U)
  pub sessions : Option (HttpHandler S)
  pub csrf : Option Csrf

unfoldable pub is_https_redirect : Option Url → Bool
is_https_redirect none = false
is_https_redirect (some u) =
    (u.scheme == "https") && not (u.host == "") && not u.user && (u.fragment == "")

unfoldable pub login_address : (String → String) → ConsentForm → String → String
login_address escape form challenge =
    if trim_space form.login_challenge == ""
    then append "/connect/login?return_to="
        (escape (append "/connect/consent?consent_challenge=" challenge))
    else append "/connect/login?login_challenge=" (escape (trim_space form.login_challenge))

unfoldable pub granted_scopes : ConsentForm → ConsentRequest → List String
granted_scopes form request =
    let granted = fields form.scope in
    if nat_eq (length granted) 0 then request.requested_scope else granted

module _ {H U S : Type 0} (crypto : Keyed) (go : Library) (escape : String → String)
    (env : Env) where
  -- The service's answer: only an absolute https address is followed.
  unfoldable pub follow : String → Page Reply H U S
  unfolding is_https_redirect
  follow address s =
      if is_https_redirect (go.parse_url (trim_space address))
      then (redirect 303 address, s)
      else (error_page 500, s)

  unfoldable pub decide :
      ConsentService H U → ConsentForm → String → Session → ConsentRequest → Page Reply H U S
  unfolding follow granted_scopes
  decide service form challenge session request =
      if trim_space form.decision == "allow"
      then ask
          (accept env service challenge session.user_subject (granted_scopes form request)
            (form.remember == "1"))
          (λ e. error_page 400) follow
      else if trim_space form.decision == "deny"
      then ask (reject_consent_request service challenge "user_denied") (λ e. error_page 400) follow
      else (λ s. (error_page 400, s))

  unfoldable pub answer_form :
      ConsentHttpHandler H U S
      → ConsentService H U
      → HttpHandler S
      → ConsentForm
      → String
      → Session
      → ConsentRequest
      → Page Reply H U S
  unfolding decide has_valid_token csrf_token_of
  answer_form h service sessions form challenge session request s =
      if not (request.subject == "") && not (request.subject == session.user_subject)
      then (error_page 403, s)
      else if form.method == "GET"
      then (
        consent_page request (csrf_token_of crypto h.csrf (session_id sessions form.cookies)),
        s,
      )
      else if not (form.method == "POST")
      then (method_not_allowed_for "GET, POST", s)
      else if not (has_valid_token crypto h.csrf (session_id sessions form.cookies) form.csrf_token)
      then (error_page 403, s)
      else decide service form challenge session request s

  unfoldable pub handle_with :
      ConsentHttpHandler H U S
      → ConsentService H U
      → HttpHandler S
      → ConsentForm
      → Time
      → Page Reply H U S
  unfolding answer_form login_address
  handle_with h service sessions form now =
      let challenge = trim_space form.consent_challenge in
      if challenge == ""
      then (λ s. (error_page 400, s))
      else ask_sessions (current sessions form.cookies now)
          (λ e. redirect 302 (login_address escape form challenge))
          λ session.
            ask (request_consent env service challenge) (λ e. error_page 400)
              λ request. answer_form h service sessions form challenge session request

  unfoldable pub handle : ConsentHttpHandler H U S → ConsentForm → Time → Page Reply H U S
  unfolding handle_with
  handle h form now = elim h.service [
    | none ↦ (λ s. (error_page 503, s))
    | some service ↦ elim h.sessions [
      | none ↦ (λ s. (error_page 503, s))
      | some sessions ↦ handle_with h service sessions form now
    ]
  ]
