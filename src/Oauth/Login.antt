-- ===== src/Oauth/Login.antt =====
-- internal/oauth/login_service.go.
use open_xai_connect.Base.{
  if◌then◌else◌, ◌==◌, nat_eqs, string_eqs, pos, int_eqs, is_positive, OauthError, Error, oauth,
  message, wrapped, Result, ok, err, Check, refuse_if, ℕ, ◌*◌, String, Bool, true, not, ◌&&◌, ◌||◌,
  Option, none, some,
}
use open_xai_connect.Base.Exec.{pure, lift, failing_as, ◌>>=◌, ◌>>◌}
use open_xai_connect.Domain.Application.{Duration, minute, whole_seconds}
use open_xai_connect.Domain.Library.{Library}
use open_xai_connect.Hydra.Client.{LoginRequest, LoginAcceptance, Client}
use open_xai_connect.Portal.World.{Env, StatusLookup, M, on_users, on_hydra, on_apps}
use open_xai_connect.Store.Applications.{get_by_client_id}
use open_xai_connect.Identity.StatusSnapshot.{can_authenticate}
use open_xai_connect.Oauth.Request.{validate_login_request_with_pkce_nonce}

-- The repositories and clients may be nil.
pub record LoginService (H U : Type 0) : Type 0 where
  pub hydra : Option (Client H)
  pub status : Option (StatusLookup U)
  pub has_apps : Bool
  pub remember_for : Duration

-- The duration that a service is made with, or its own where that is not positive.
unfoldable pub remember_or : ℕ → Duration → Duration
remember_or days given = if is_positive given then given else pos (days * (24 * 60 * minute))

abbrev pub login_days : ℕ
login_days = 30

abbrev pub login_denied : Error
login_denied = oauth OauthError.login_denied

-- fmt.Errorf("%w: %v", ErrLoginDenied, err)
unfoldable pub denied : Check → Check
denied (ok _) = ok tt
denied (err e) = err (wrapped login_denied "the login request is not valid")

unfoldable pub missing_hydra : {A : Type 0} → Result A
missing_hydra = err (message "login service is not initialized")

unfoldable pub login_acceptance : Duration → String → LoginRequest → LoginAcceptance
login_acceptance remember_for subject request = record {
  subject = subject;
  remember = true;
  remember_for = whole_seconds remember_for;
  session_id = request.session_id;
}

-- The login is for another subject than the one that Hydra remembers.
unfoldable pub other_subject : String → LoginRequest → Bool
other_subject subject request =
    (subject == "") || (not (request.subject == "") && not (request.subject == subject))

module _ {H U : Type 0} where
  unfoldable pub new_login_service :
      Option (Client H) → Option (StatusLookup U) → Bool → Duration → LoginService H U
  unfolding remember_or
  new_login_service hydra status has_apps remember_for = record {
    hydra = hydra;
    status = status;
    has_apps = has_apps;
    remember_for = remember_or login_days remember_for;
  }

  unfoldable pub accept_login_of :
      Client H → StatusLookup U → Duration → String → String → LoginRequest → M H U String
  accept_login_of client status remember_for challenge subject request = do
    lift (refuse_if (other_subject subject request) login_denied)
    current ← on_users (status subject)
    lift (refuse_if (not (can_authenticate current)) login_denied)
    on_hydra (client.accept_login challenge (login_acceptance remember_for subject request))

  module _ (go : Library) (env : Env) where
    -- Whether PKCE and a nonce are required: always, or as the application says.
    unfoldable pub requires_pkce_nonce : Bool → String → M H U Bool
    requires_pkce_nonce has_apps client_id = if not has_apps then pure true else do
      app ←
          failing_as (λ e. wrapped e "load OAuth application settings")
            (on_apps env (get_by_client_id client_id))
      pure app.require_pkce_nonce

    unfoldable pub begin_with : Client H → Bool → String → M H U LoginRequest
    begin_with client has_apps challenge = do
      request ← on_hydra (client.get_login_request challenge)
      require ← requires_pkce_nonce has_apps request.client.id
      _ ← lift (denied (validate_login_request_with_pkce_nonce go request require))
      pure request

    unfoldable pub begin : LoginService H U → String → M H U LoginRequest
    begin s challenge = elim s.hydra [
      | none ↦ lift missing_hydra
      | some client ↦ begin_with client s.has_apps challenge
    ]

    complete_with : LoginService H U → String → String → Client H → StatusLookup U → M H U String
    complete_with s challenge subject client status = do
      request ← begin_with client s.has_apps challenge
      accept_login_of client status s.remember_for challenge subject request

    unfoldable pub complete : LoginService H U → String → String → M H U String
    unfolding complete_with
    complete s challenge subject = elim s.status [
      | none ↦ lift missing_hydra
      | some status ↦ elim s.hydra [
        | none ↦ lift missing_hydra
        | some client ↦ complete_with s challenge subject client status
      ]
    ]

  unfoldable pub reject : LoginService H U → String → String → M H U String
  reject s challenge reason = elim s.hydra [
    | none ↦ lift missing_hydra
    | some client ↦ on_hydra (
        client.reject_login challenge (record {
          error = "login_required";
          error_description = if reason == "" then "login_required" else reason;
          status_code = 401;
        }))
  ]
