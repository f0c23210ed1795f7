-- ===== src/Apps/Provisioner.antt =====
-- internal/apps/provisioner.go: the worker that registers approved applications with Ory Hydra. RunOnce
-- returns a Boolean and an error at once and keeps credentials between its runs, so a run here returns
-- a record of the three and never fails itself.
use open_xai_connect.Base.{
  nat_eq, if◌then◌else◌, ◌==◌, nat_eqs, string_eqs, length, trim_space, Map, lookup, insert, delete,
  pos, int_eqs, is_positive, Error, message, is_not_found, Result, ok, err, Check, refuse_if,
  String, Bool, true, false, not, ◌||◌, Option, none, some, List, [], ◌∷◌,
}
use open_xai_connect.Base.Exec.{pure, lift, ◌>>=◌, ◌>>◌}
use open_xai_connect.Domain.Status.{ApplicationStatus, status_eqs}
use open_xai_connect.Domain.Application.{Time, Duration, add, minute, Application}
use open_xai_connect.Domain.Records.{OutboxEvent}
use open_xai_connect.Hydra.Client.{ClientRegistration, ClientCredentials, Client}
use open_xai_connect.Portal.World.{Env, M, on_hydra, now, draw, on_apps, on_outbox, on_audit}
use open_xai_connect.Store.Applications
use open_xai_connect.Store.Applications.{
  Applications, with_default_status, with_times, create, get_by_client_id, values_if,
  sort_by_created, list_by_owner, list_by_status, count_open_by_owner, transition_app, save,
  delete_app,
}
use open_xai_connect.Store.Outbox.{claim_next, complete, retry}
use open_xai_connect.Store.Audit.{append_event}
use open_xai_connect.Apps.Deps.{Box, success, id_or, secret_associated_data}
use open_xai_connect.Apps.Service.{registration_of, with_lifespans}

abbrev pub Credentials : Type 0
Credentials = Map String ClientCredentials

-- The dependencies that RunOnce needs; without one of them it only returns an error.
pub record Provisioner (H : Type 0) : Type 0 where
  pub hydra : Client H
  pub box : Box
  pub has_audit : Bool
  pub retry_delay : Duration

-- NewProvisioner: a delay that is not positive gets the default.
unfoldable pub new_provisioner : {H : Type 0} → Provisioner H → Provisioner H
new_provisioner deps = record deps {
  retry_delay = if is_positive deps.retry_delay then deps.retry_delay else pos minute;
}

pub record Run : Type 0 where
  pub worked : Bool
  pub failure : Option Error
  pub credentials : Credentials

unfoldable pub failed : Error → Credentials → Run
failed e credentials = record { worked = false; failure = some e; credentials = credentials }

unfoldable pub done : Credentials → Run
done credentials = record { worked = true; failure = none; credentials = credentials }

unfoldable pub approved_app : String → String → Time → Application → Application
approved_app client_id secret at app = record app {
  client_id = client_id;
  encrypted_client_secret = secret;
  secret_version = pos 1;
  status = ApplicationStatus.approved;
  updated_at = at;
}

module _ {H U : Type 0} where
  -- What an action returned, as a value.
  unfoldable pub attempt : {A : Type 0} → M H U A → M H U (Result A)
  attempt m w = let (r, w') = m w in (ok r, w')

  unfoldable pub either :
      {A : Type 0} → (Error → M H U Run) → (A → M H U Run) → Result A → M H U Run
  either failure success_of (err e) = failure e
  either failure success_of (ok a) = success_of a

  unfoldable pub settle : {A : Type 0} → M H U A → (Error → M H U Run) → (A → M H U Run) → M H U Run
  unfolding attempt either
  settle m failure success_of = attempt m >>= either failure success_of

  module _ (env : Env) where
    unfoldable pub give_up : Provisioner H → String → Time → Credentials → Error → M H U Run
    unfolding attempt
    give_up p id at credentials e = do
      _ ← attempt (on_outbox env (retry id (add at p.retry_delay)))
      pure (failed e credentials)

    unfoldable pub audit_provisioned : Provisioner H → Application → Time → M H U (Unit {0})
    audit_provisioned p app at = if not p.has_audit then pure tt else do
      drawn ← draw env
      filled ← now env
      on_audit env (
          append_event filled (record {
            id = id_or "audit_" "audit_fallback" drawn;
            actor_subject = "system";
            action = "application.provisioned";
            application_id = app.id;
            metadata = success;
            created_at = at;
          }))

    unfoldable pub finish : Provisioner H → String → Time → Credentials → Application → M H U Run
    unfolding audit_provisioned
    finish p event at credentials app =
        settle (do on_outbox env (complete event at); audit_provisioned p app at)
          (λ e. pure (failed e credentials)) (λ _. pure (done credentials))

    -- From the credentials on: encrypt the secret, approve, complete the event.
    unfoldable pub approve :
        Provisioner H → String → Time → Credentials → Application → ClientCredentials → M H U Run
    unfolding settle give_up finish
    approve p event at credentials app made =
        if (made.id == "") || (made.secret == "")
        then give_up p event at credentials
            (message "Hydra returned incomplete provisioning credentials")
        else settle
            (do
              nonce ← draw env
              secret ← lift (
                  p.box.encrypt nonce made.secret
                    (secret_associated_data (record app { client_id = made.id })))
              on_apps env (save (approved_app made.id secret at app)))
            (give_up p event at credentials)
            (λ _. finish p event at (delete app.id credentials) app)

    -- with the credentials of an earlier run, if it got as far
    unfoldable pub register_with :
        Provisioner H
        → String
        → Time
        → Credentials
        → Application
        → Option ClientCredentials
        → M H U Run
    unfolding settle approve
    register_with p event at credentials app (some made) = approve p event at credentials app made
    register_with p event at credentials app none =
        settle
          (on_hydra (
            p.hydra.create_client (
              with_lifespans
                (registration_of "" app.owner_subject app.name app.logo_url app.callback_urls ""))))
          (give_up p event at credentials)
          (λ made. approve p event at (insert app.id made credentials) app made)

    unfoldable pub register : Provisioner H → String → Time → Credentials → Application → M H U Run
    unfolding register_with
    register p event at credentials app =
        register_with p event at credentials app (lookup app.id credentials)

    -- The event's application: one that is not waiting for provisioning completes the event.
    unfoldable pub provision : Provisioner H → String → Time → Credentials → Application → M H U Run
    unfolding register attempt
    provision p event at credentials app =
        if app.status == ApplicationStatus.provisioning
        then register p event at credentials app
        else do
          _ ← attempt (on_outbox env (complete event at))
          pure (done (delete app.id credentials))

    unfoldable pub handle : Provisioner H → Time → Credentials → OutboxEvent → M H U Run
    unfolding provision settle attempt
    handle p at credentials event =
        if event.kind == "application.provision"
        then settle (on_apps env (Applications.get event.application_id))
            (give_up p event.id at credentials) (provision p event.id at credentials)
        else do
          _ ← attempt (on_outbox env (complete event.id at))
          pure (record {
            worked = true;
            failure = some (message "unsupported outbox event kind");
            credentials = credentials;
          })

    unfoldable pub run_once : Provisioner H → Credentials → M H U Run
    unfolding handle settle
    run_once p credentials = do
      at ← now env
      settle (on_outbox env (claim_next at))
          (λ e. pure (
            if is_not_found e
            then record { worked = false; failure = none; credentials = credentials }
            else failed e credentials))
          (handle p at credentials)

-- ValidateProvisioningRegistration
unfoldable pub validate_provisioning_registration : ClientRegistration → Check
validate_provisioning_registration r =
    refuse_if
      ((trim_space r.client_name == "")
        || nat_eq (length r.redirect_uris) 0
        || not (r.token_endpoint_auth_method == "client_secret_basic")
        || not (only_code r.response_types))
      (message "registration does not satisfy confidential code-client contract")
  where
    only_code : List String → Bool
    only_code (kind ∷ []) = kind == "code"
    only_code _ = false
