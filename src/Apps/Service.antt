-- ===== src/Apps/Service.antt =====
-- internal/apps/service.go: drafts, their submission, and the start of provisioning.
use Prim.Native.String.{◌++◌ as append}
use open_xai_connect.Base.{
  leb, if◌then◌else◌, ◌==◌, nat_eqs, string_eqs, trim_space, pos, int_eqs, AppsError, Error, apps,
  message, wrapped, Result, ok, err, refuse_if, String, Bool, true, false, not, ◌&&◌, ◌||◌, Option,
  none, some, List, [], ◌∷◌,
}
use open_xai_connect.Base.Exec.{pure, raise, lift, on_error, ◌>>=◌, ◌>>◌}
use open_xai_connect.Domain.Status.{ApplicationStatus, status_eqs}
use open_xai_connect.Domain.Application.{Time, Application}
use open_xai_connect.Domain.Records.{OutboxEvent}
use open_xai_connect.Domain.Library.{Library}
use open_xai_connect.Hydra.Client.{ClientRegistration, Client}
use open_xai_connect.Portal.World.{Env, M, on_hydra, now, draw, on_apps, on_outbox}
use open_xai_connect.Store.Applications.{create, count_open_by_owner, transition_app, save}
use open_xai_connect.Store.Outbox.{enqueue}
use open_xai_connect.Apps.Input.{DraftInput, enabled_pkce_nonce, normalize_domains, validate_input}
use open_xai_connect.Apps.Deps.{
  Box, Service, id_or, secret_associated_data, ensure_eligible, get_owned, audit_event,
}

unfoldable pub editable_application_status : ApplicationStatus → Bool
editable_application_status ApplicationStatus.draft = true
editable_application_status ApplicationStatus.changes_requested = true
editable_application_status ApplicationStatus.rejected = true
editable_application_status ApplicationStatus.approved = true
editable_application_status _ = false

-- What every registration of the portal's asks for.
abbrev pub registration_of :
    String → String → String → String → List String → String → ClientRegistration
registration_of id owner name logo callbacks secret = record {
  client_id = id;
  client_name = name;
  client_secret = secret;
  client_uri = "";
  policy_uri = "";
  logo_uri = logo;
  redirect_uris = callbacks;
  grant_types = "authorization_code" ∷ "refresh_token" ∷ [];
  response_types = "code" ∷ [];
  scope = "openid profile email community offline_access";
  token_endpoint_auth_method = "client_secret_basic";
  owner = owner;
  access_token_strategy = "";
  id_token_lifespan = "";
  access_token_lifespan = "";
  refresh_token_lifespan = "";
}

abbrev pub with_lifespans : ClientRegistration → ClientRegistration
with_lifespans r = record r {
  access_token_strategy = "opaque";
  id_token_lifespan = "1h";
  access_token_lifespan = "24h";
  refresh_token_lifespan = "4320h";
}

unfoldable pub draft_of :
    (String → String)
    → (List String → List String)
    → String
    → String
    → Time
    → DraftInput
    → Application
draft_of trim normalize id subject at input = record {
  id = id;
  owner_subject = subject;
  name = trim input.name;
  description = trim input.description;
  logo_url = trim input.logo_url;
  callback_urls = input.callback_urls;
  verified_domains = normalize input.verified_domains;
  status = ApplicationStatus.draft;
  require_pkce_nonce = enabled_pkce_nonce input.require_pkce_nonce;
  client_id = "";
  encrypted_client_secret = "";
  secret_version = pos 0;
  review_note = "";
  reviewed_by = "";
  created_at = at;
  updated_at = at;
}

-- An edit of an application that is not approved takes it back to a draft.
unfoldable pub reopened : Application → Application
reopened app = record app { review_note = ""; reviewed_by = ""; status = ApplicationStatus.draft }

unfoldable pub edited : (List String → List String) → DraftInput → Time → Application → Application
edited normalize input at app = record app {
  name = trim_space input.name;
  description = trim_space input.description;
  logo_url = trim_space input.logo_url;
  callback_urls = input.callback_urls;
  verified_domains = normalize input.verified_domains;
  require_pkce_nonce = elim input.require_pkce_nonce [
    | none ↦ app.require_pkce_nonce
    | some value ↦ value
  ];
  updated_at = at;
}

-- json.Marshal of the map with the one key; an id of the portal's needs no escapes
unfoldable pub provision_payload : String → String
provision_payload id = append "{\"application_id\":\"" (append id "\"}")

unfoldable pub provision_event : String → String → Time → OutboxEvent
unfolding provision_payload
provision_event event_id id at = record {
  id = event_id;
  idempotency_key = append "application:" (append id ":provision");
  kind = "application.provision";
  application_id = id;
  payload = provision_payload id;
  attempts = pos 0;
  available_at = at;
  claimed_at = none;
  completed_at = none;
  created_at = at;
}

-- newApplicationID fails where the random source does
unfoldable pub new_application_id : Option String → Result String
new_application_id none = err (message "random source")
new_application_id (some raw) = ok (append "app_" raw)

module _ {H U : Type 0} where
  unfoldable pub with_tools :
      Option Box
      → Option (Client H)
      → Error
      → (Box → Client H → M H U (Unit {0}))
      → M H U (Unit {0})
  with_tools (some box) (some hydra) e f = f box hydra
  with_tools _ _ e f = raise e

  unfoldable pub sync_with : Application → DraftInput → Box → Client H → M H U (Unit {0})
  sync_with app input box hydra =
      if (app.client_id == "") || (app.encrypted_client_secret == "")
      then raise (message "approved application credentials are not initialized")
      else do
        secret ← lift (elim (box.decrypt app.encrypted_client_secret (secret_associated_data app)) [
          | ok plain ↦ ok plain
          | err e ↦ err (wrapped e "decrypt existing application secret")
        ])
        credentials ← on_hydra (
            hydra.update_client app.client_id (
              with_lifespans (
                registration_of app.client_id app.owner_subject (trim_space input.name)
                  (trim_space input.logo_url) input.callback_urls secret)))
        lift (
            refuse_if (not (credentials.id == app.client_id) || not (credentials.secret == secret))
              (message "Hydra changed the application credentials during metadata update"))

  unfoldable pub sync_approved_client : Service H U → Application → DraftInput → M H U (Unit {0})
  unfolding with_tools sync_with
  sync_approved_client s app input =
      with_tools s.box s.hydra
        (message "approved application update dependencies are not initialized")
        (sync_with app input)

  module _ (env : Env) where
    unfoldable pub enqueue_provisioning : Application → M H U (Unit {0})
    enqueue_provisioning app = do
      at ← now env
      drawn ← draw env
      made ← now env
      on_outbox env (
          enqueue "outbox_" made
            (provision_event (id_or "outbox_" "outbox_fallback" drawn) app.id at))

    -- The rollback after a failed Enqueue; its own failure is ignored.
    unfoldable pub restore : ApplicationStatus → Application → M H U (Unit {0})
    restore status started = do
      at ← now env
      on_apps env (save (record started { status = status; updated_at = at }))

    unfoldable pub start_provisioning : Service H U → String → Application → M H U Application
    unfolding enqueue_provisioning restore
    start_provisioning s subject app =
        if not s.has_apps || not s.has_outbox
        then raise (message "provisioning dependencies are not initialized")
        else do
          at ← now env
          started ← on_apps env (transition_app app.id app.status ApplicationStatus.provisioning at)
          on_error (enqueue_provisioning started) (restore app.status started)
          audit_event env s subject app.id "application.provisioning_started"
          pure started

    unfoldable pub create_draft : Library → Service H U → String → DraftInput → M H U Application
    unfolding new_application_id draft_of
    create_draft go s subject input = do
      ensure_eligible s subject
      lift (refuse_if (not s.has_apps) (message "application repository is not initialized"))
      lift (
          refuse_if (not s.require_review && not s.has_outbox)
            (message "outbox repository is not initialized"))
      count ← on_apps env (count_open_by_owner subject)
      lift (refuse_if (leb s.max_open count) (apps AppsError.open_application_limit))
      lift (validate_input go subject input)
      at ← now env
      drawn ← draw env
      id ← lift (new_application_id drawn)
      filled ← now env
      on_apps env (create (draft_of trim_space (normalize_domains go) id subject at input) filled)
      audit_event env s subject id "application.created"
      if not s.require_review
          then start_provisioning s subject
              (draft_of trim_space (normalize_domains go) id subject at input)
          else pure (draft_of trim_space (normalize_domains go) id subject at input)

    unfoldable pub update_draft :
        Library → Service H U → String → String → DraftInput → M H U Application
    unfolding editable_application_status sync_approved_client reopened edited
    update_draft go s subject id input = do
      ensure_eligible s subject
      app ← get_owned env s subject id
      lift (refuse_if (not (editable_application_status app.status)) (apps AppsError.invalid_state))
      lift (validate_input go subject input)
      app' ←
          if app.status == ApplicationStatus.approved
          then (sync_approved_client s app input >> pure app)
          else pure (reopened app)
      at ← now env
      on_apps env (save (edited (normalize_domains go) input at app'))
      audit_event env s subject id "application.updated"
      pure (edited (normalize_domains go) input at app')

    -- A rejected or returned application becomes a draft first.
    unfoldable pub as_draft : String → Application → M H U Application
    as_draft id app =
        if not (app.status == ApplicationStatus.changes_requested)
          && not (app.status == ApplicationStatus.rejected)
        then pure app
        else do at ← now env; on_apps env (transition_app id app.status ApplicationStatus.draft at)

    unfoldable pub send : Service H U → String → String → Application → M H U Application
    unfolding start_provisioning
    send s subject id app = if not s.require_review then start_provisioning s subject app else do
      at ← now env
      pending ←
          on_apps env
            (transition_app id ApplicationStatus.draft ApplicationStatus.pending_review at)
      audit_event env s subject id "application.submitted"
      pure pending

    unfoldable pub submit : Service H U → String → String → M H U Application
    unfolding as_draft send
    submit s subject id = do
      ensure_eligible s subject
      lift (
          refuse_if (not s.require_review && not s.has_outbox)
            (message "outbox repository is not initialized"))
      app ← get_owned env s subject id
      app' ← as_draft id app
      lift (refuse_if (not (app'.status == ApplicationStatus.draft)) (apps AppsError.invalid_state))
      send s subject id app'
