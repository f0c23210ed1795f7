-- ===== src/Reviews/Service.antt =====
-- internal/reviews/service.go.
use open_xai_connect.Base.{
  if◌then◌else◌, ◌==◌, nat_eqs, string_eqs, trim_space, int_eqs, ReviewsError, reviews, message,
  refuse_if, String, Bool, not, Option, none, some, List,
}
use open_xai_connect.Base.Exec.{Exec, pure, raise, lift, ◌>>=◌, ◌>>◌}
use open_xai_connect.Domain.Status.{ApplicationStatus, status_eqs}
use open_xai_connect.Domain.Application.{Time, Application}
use open_xai_connect.Portal.World.{Env, M, on_users, now, draw, on_apps, on_outbox, on_audit}
use open_xai_connect.Store.Applications
use open_xai_connect.Store.Applications.{
  Applications, with_default_status, with_times, create, get_by_client_id, values_if,
  sort_by_created, list_by_owner, list_by_status, count_open_by_owner, transition_app, save,
  delete_app,
}
use open_xai_connect.Store.Outbox.{enqueue}
use open_xai_connect.Store.Audit.{append_event}
use open_xai_connect.Apps.Deps.{success, id_or}
use open_xai_connect.Apps.Service.{provision_event}

-- The access controller answers from a state of its own, the one the status lookup uses.
pub record Access (U : Type 0) : Type 0 where
  pub is_reviewer : String → Exec U Bool
  pub is_admin : String → Exec U Bool

-- The dependencies that may be nil.
pub record Reviewing (U : Type 0) : Type 0 where
  pub access : Option (Access U)
  pub has_apps : Bool
  pub has_outbox : Bool
  pub has_audit : Bool

unfoldable pub reviewed : ApplicationStatus → String → String → Time → Application → Application
reviewed status reviewer reason at app = record app {
  status = status;
  reviewed_by = reviewer;
  review_note = trim_space reason;
  updated_at = at;
}

module _ {H U : Type 0} where
  unfoldable pub asked : Access U → String → M H U (Unit {0})
  asked access subject = do
    allowed ← on_users (access.is_reviewer subject)
    if allowed then pure tt else do
      admin ← on_users (access.is_admin subject)
      lift (refuse_if (not admin) (reviews ReviewsError.not_reviewer))

  unfoldable pub require_from : Option (Access U) → String → M H U (Access U)
  unfolding asked
  require_from none subject = raise (reviews ReviewsError.not_reviewer)
  require_from (some access) subject =
      if subject == ""
      then raise (reviews ReviewsError.not_reviewer)
      else (asked access subject >> pure access)

  unfoldable pub require_reviewer : Reviewing U → String → M H U (Access U)
  unfolding require_from
  require_reviewer s subject = require_from s.access subject

  module _ (env : Env) where
    unfoldable pub audit_review : Reviewing U → String → String → String → M H U (Unit {0})
    audit_review s actor id action = if not s.has_audit then pure tt else do
      drawn ← draw env
      at ← now env
      filled ← now env
      on_audit env (
          append_event filled (record {
            id = id_or "event_" "event_fallback" drawn;
            actor_subject = actor;
            action = action;
            application_id = id;
            metadata = success;
            created_at = at;
          }))

    -- Only an administrator reviews an application of their own.
    unfoldable pub refuse_self_review : Access U → String → Application → M H U (Unit {0})
    refuse_self_review access reviewer app =
        if not (app.owner_subject == reviewer) then pure tt else do
          admin ← on_users (access.is_admin reviewer)
          lift (refuse_if (not admin) (reviews ReviewsError.self_review))

    unfoldable pub list_pending : Reviewing U → String → M H U (List Application)
    unfolding require_reviewer
    list_pending s reviewer = do
      _ ← require_reviewer s reviewer
      lift (refuse_if (not s.has_apps) (message "application repository is not initialized"))
      on_apps env (list_by_status ApplicationStatus.pending_review)

    unfoldable pub prepare_review : Reviewing U → String → String → String → M H U (Unit {0})
    unfolding require_reviewer refuse_self_review
    prepare_review s reviewer id reason = do
      access ← require_reviewer s reviewer
      lift (refuse_if (trim_space reason == "") (reviews ReviewsError.reason_required))
      app ← on_apps env (Applications.get id)
      refuse_self_review access reviewer app
      lift (
          refuse_if (not (app.status == ApplicationStatus.pending_review))
            (reviews ReviewsError.not_pending))

    -- Get, Transition and Save, which both kinds of decision share.
    unfoldable pub mark : String → String → String → ApplicationStatus → M H U (Unit {0})
    unfolding reviewed
    mark reviewer id reason target = do
      app ← on_apps env (Applications.get id)
      at ← now env
      on_apps env (transition_app id ApplicationStatus.pending_review target at)
      saved_at ← now env
      on_apps env (save (reviewed target reviewer reason saved_at app))

    unfoldable pub decide :
        Reviewing U → String → String → String → ApplicationStatus → String → M H U (Unit {0})
    unfolding prepare_review mark audit_review
    decide s reviewer id reason target action = do
      prepare_review s reviewer id reason
      mark reviewer id reason target
      audit_review s reviewer id action

    unfoldable pub reject : Reviewing U → String → String → String → M H U (Unit {0})
    unfolding decide
    reject s reviewer id reason =
        decide s reviewer id reason ApplicationStatus.rejected "application.rejected"

    unfoldable pub request_changes : Reviewing U → String → String → String → M H U (Unit {0})
    unfolding decide
    request_changes s reviewer id reason =
        decide s reviewer id reason ApplicationStatus.changes_requested
          "application.changes_requested"

    unfoldable pub approve : Reviewing U → String → String → String → M H U (Unit {0})
    unfolding prepare_review mark audit_review
    approve s reviewer id reason = do
      prepare_review s reviewer id reason
      lift (refuse_if (not s.has_outbox) (message "outbox repository is not initialized"))
      mark reviewer id reason ApplicationStatus.provisioning
      drawn ← draw env
      available ← now env
      created ← now env
      made ← now env
      on_outbox env (
          enqueue "outbox_" made
            (record (provision_event (id_or "event_" "event_fallback" drawn) id available) {
              created_at = created;
            }))
      audit_review s reviewer id "application.approved"
