-- ===== src/Apps/Secrets.antt =====
-- internal/apps/service.go: what an owner does with an approved application, and deletion.
use open_xai_connect.Base.{
  if◌then◌else◌, ◌==◌, nat_eqs, string_eqs, int_eqs, increment, AppsError, Error, apps, message,
  refuse_if, String, Bool, true, false, not, ◌||◌, Option, none, some, List,
}
use open_xai_connect.Base.Exec.{pure, raise, lift, ◌>>=◌, ◌>>◌}
use open_xai_connect.Domain.Status.{ApplicationStatus, status_eqs}
use open_xai_connect.Domain.Application.{Time, Application}
use open_xai_connect.Hydra.Client.{Client}
use open_xai_connect.Portal.World.{Env, M, on_hydra, now, draw, on_apps}
use open_xai_connect.Store.Applications.{list_by_owner, transition_app, save, delete_app}
use open_xai_connect.Apps.Deps.{
  Box, Service, secret_associated_data, ensure_eligible, get_owned, audit_event, confirmed,
}
use open_xai_connect.Apps.Service.{registration_of}

-- The statuses without a provisioning operation or a client to clean up.
unfoldable pub deletable_status : ApplicationStatus → Bool
deletable_status ApplicationStatus.draft = true
deletable_status ApplicationStatus.pending_review = true
deletable_status ApplicationStatus.rejected = true
deletable_status ApplicationStatus.changes_requested = true
deletable_status ApplicationStatus.revoked = true
deletable_status _ = false

unfoldable pub rotated : String → Time → Application → Application
rotated secret at app = record app {
  encrypted_client_secret = secret;
  secret_version = increment app.secret_version;
  updated_at = at;
}

module _ {H U : Type 0} where
  unfoldable pub need : {A : Type 0} → Option A → Error → M H U A
  need none e = raise e
  need (some a) e = pure a

  module _ (env : Env) where
    unfoldable pub list_mine : Service H U → String → M H U (List Application)
    list_mine s subject =
        if not s.has_apps
        then raise (message "application repository is not initialized")
        else on_apps env (list_by_owner subject)

    unfoldable pub view_secret : Service H U → String → String → Time → M H U String
    unfolding need
    view_secret s subject id confirmed_at = do
      app ← get_owned env s subject id
      lift (
          refuse_if
            (not (app.status == ApplicationStatus.approved)
              || (app.client_id == "")
              || (app.encrypted_client_secret == ""))
            (apps AppsError.invalid_state))
      recent ← confirmed env s confirmed_at
      lift (refuse_if (not recent) (apps AppsError.sensitive_confirmation))
      box ← need s.box (message "secret encryption is not initialized")
      secret ← lift (box.decrypt app.encrypted_client_secret (secret_associated_data app))
      audit_event env s subject id "application.secret_viewed"
      pure secret

    unfoldable pub both : Option Box → Option (Client H) → Error → M H U (Box × Client H)
    both (some box) (some hydra) e = pure (box, hydra)
    both _ _ e = raise e

    unfoldable pub rotate_secret : Service H U → String → String → Time → M H U Application
    unfolding need both rotated
    rotate_secret s subject id confirmed_at = do
      app ← get_owned env s subject id
      lift (
          refuse_if (not (app.status == ApplicationStatus.approved) || (app.client_id == ""))
            (apps AppsError.invalid_state))
      recent ← confirmed env s confirmed_at
      lift (refuse_if (not recent) (apps AppsError.sensitive_confirmation))
      (box, hydra) ← both s.box s.hydra (message "secret rotation dependencies are not initialized")
      drawn ← draw env
      plaintext ← need drawn (message "random source")
      credentials ← on_hydra (
          hydra.update_client app.client_id (
            registration_of app.client_id app.owner_subject app.name app.logo_url app.callback_urls
              plaintext))
      lift (
          refuse_if (not (credentials.id == app.client_id) || (credentials.secret == ""))
            (message "Hydra returned invalid rotated credentials"))
      nonce ← draw env
      encrypted ← lift (box.encrypt nonce credentials.secret (secret_associated_data app))
      at ← now env
      on_apps env (save (rotated encrypted at app))
      audit_event env s subject id "application.secret_rotated"
      pure (rotated encrypted at app)

    unfoldable pub revoke : Service H U → String → String → M H U (Unit {0})
    unfolding need
    revoke s subject id = do
      app ← get_owned env s subject id
      lift (
          refuse_if (not (app.status == ApplicationStatus.approved)) (apps AppsError.invalid_state))
      hydra ← need s.hydra (message "Hydra client is not initialized")
      on_hydra (hydra.delete_client app.client_id)
      at ← now env
      on_apps env (transition_app id ApplicationStatus.approved ApplicationStatus.revoked at)
      audit_event env s subject id "application.revoked"

    -- The cleanup that deletion needs, by status.
    unfoldable pub clean_up : Service H U → Application → M H U (Unit {0})
    unfolding need deletable_status
    clean_up s app =
        if not (app.status == ApplicationStatus.approved)
        then lift (refuse_if (not (deletable_status app.status)) (apps AppsError.not_deletable))
        else do
          hydra ← need s.hydra (message "Hydra client is not initialized")
          lift (
              refuse_if (app.client_id == "")
                (message "approved application client is not initialized"))
          on_hydra (hydra.delete_client app.client_id)

    unfoldable pub delete_application : Service H U → String → String → M H U (Unit {0})
    unfolding clean_up
    delete_application s subject id = do
      ensure_eligible s subject
      app ← get_owned env s subject id
      clean_up s app
      audit_event env s subject id "application.deleted"
      on_apps env (delete_app id)
