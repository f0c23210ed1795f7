-- ===== src/Oauth/Consent.antt =====
-- internal/oauth/consent.go.
use open_xai_connect.Base.{
  if◌then◌else◌, ◌==◌, nat_eqs, string_eqs, int_eqs, Error, message, wrapped, Result, ok, err,
  refuse_if, ℕ, String, Bool, not, ◌||◌, Option, none, some, List,
}
use open_xai_connect.Base.Exec.{pure, raise, lift, failing_as, ◌>>=◌, ◌>>◌}
use open_xai_connect.Domain.Application.{Duration, Application}
use open_xai_connect.Domain.Status.{status_eqs}
use open_xai_connect.Hydra.Client.{ConsentRequest, ConsentAcceptance, Client}
use open_xai_connect.Portal.World.{
  Env, StatusLookup, M, on_users, on_hydra, now, on_apps, on_consents,
}
use open_xai_connect.Store.Applications.{get_by_client_id}
use open_xai_connect.Store.Consents.{put, delete_consent}
use open_xai_connect.Identity.StatusSnapshot.{StatusSnapshot, can_authenticate}
use open_xai_connect.Oauth.Scopes.{filter_scopes}
use open_xai_connect.Oauth.Grant.{
  consent_denied, app_unavailable, available, new_consent, consent_acceptance, select_scopes,
}
use open_xai_connect.Oauth.Login.{remember_or}

-- The repositories and clients may be nil.
pub record ConsentService (H U : Type 0) : Type 0 where
  pub hydra : Option (Client H)
  pub status : Option (StatusLookup U)
  pub has_apps : Bool
  pub has_consents : Bool
  pub remember_for : Duration

abbrev pub consent_days : ℕ
consent_days = 180

abbrev not_initialized : Error
not_initialized = message "consent service is not initialized"

module _ {H U : Type 0} where
  unfoldable pub new_consent_service :
      Option (Client H) → Option (StatusLookup U) → Bool → Bool → Duration → ConsentService H U
  new_consent_service hydra status has_apps has_consents remember_for = record {
    hydra = hydra;
    status = status;
    has_apps = has_apps;
    has_consents = has_consents;
    remember_for = remember_or consent_days remember_for;
  }

  module _ (env : Env) where
    unfoldable pub request_with : Client H → String → M H U ConsentRequest
    request_with client challenge = do
      request ← on_hydra (client.get_consent_request challenge)
      _ ← lift (filter_scopes request.requested_scope)
      app ← on_apps env (get_by_client_id request.client.id)
      lift (refuse_if (not (available app)) app_unavailable)
      pure request

    unfoldable pub request_consent : ConsentService H U → String → M H U ConsentRequest
    request_consent s challenge = elim s.hydra [
      | none ↦ raise not_initialized
      | some client ↦
          if not s.has_apps then raise not_initialized else request_with client challenge
    ]

    -- What follows Hydra's answer: the stored consent is taken back where it is an error.
    unfoldable pub answered : String → String → Result String → M H U String
    answered subject app_id (ok redirect) = pure redirect
    answered subject app_id (err e) =
        failing_as (λ x. wrapped x "Hydra consent failed and rollback failed")
          (on_consents env (delete_consent subject app_id))
        >> raise e

    unfoldable pub hand_over :
        Client H → String → String → String → ConsentAcceptance → M H U String
    unfolding answered
    hand_over client challenge subject app_id acceptance w =
        let (r, w') = on_hydra (client.accept_consent challenge acceptance) w in
        answered subject app_id r w'

    unfoldable pub store_consent :
        Client H
        → Duration
        → String
        → String
        → List String
        → Bool
        → StatusSnapshot
        → Application
        → M H U String
    unfolding hand_over new_consent
    store_consent client remember_for challenge subject selected remember status app = do
      at ← now env
      on_consents env (put (new_consent subject app.id selected remember at))
      hand_over client challenge subject app.id
          (consent_acceptance remember_for selected remember status)

    unfoldable pub accept_request :
        Client H
        → StatusLookup U
        → Duration
        → String
        → String
        → List String
        → Bool
        → ConsentRequest
        → M H U String
    unfolding store_consent
    accept_request client status remember_for challenge subject granted remember request = do
      lift (refuse_if (not (request.subject == subject) || (subject == "")) consent_denied)
      current ← on_users (status subject)
      lift (refuse_if (not (can_authenticate current)) consent_denied)
      selected ← lift (select_scopes request.requested_scope granted)
      app ← on_apps env (get_by_client_id request.client.id)
      store_consent client remember_for challenge subject selected remember current app

    accept_with :
        ConsentService H U
        → Client H
        → StatusLookup U
        → String
        → String
        → List String
        → Bool
        → M H U String
    accept_with s client status challenge subject granted remember = do
      request ← request_with client challenge
      accept_request client status s.remember_for challenge subject granted remember request

    unfoldable pub accept : ConsentService H U → String → String → List String → Bool → M H U String
    unfolding accept_with
    accept s challenge subject granted remember = elim s.status [
      | none ↦ raise not_initialized
      | some status ↦ if not s.has_consents then raise not_initialized else (elim s.hydra [
        | none ↦ raise not_initialized
        | some client ↦
            if not s.has_apps
            then raise not_initialized
            else accept_with s client status challenge subject granted remember
      ])
    ]

  unfoldable pub reject_consent_request : ConsentService H U → String → String → M H U String
  reject_consent_request s challenge reason = elim s.hydra [
    | none ↦ raise not_initialized
    | some client ↦ on_hydra (
        client.reject_consent challenge (record {
          error = "access_denied";
          error_description = if reason == "" then "user_denied" else reason;
          status_code = 403;
        }))
  ]
