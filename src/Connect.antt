-- ===== src/Connect.antt =====
-- The operations of the portal that write applications, as the HTTP handlers and the worker of
-- cmd/connect call them one after the other: internal/apps/service.go, internal/apps/provisioner.go
-- and internal/reviews/service.go.
mod Tests
use open_xai_connect.Base.{
  nat_eqs, string_eqs, lookup, int_eqs, apps, Result, ok, err, String, ◌≡◌, refl, some, List, [],
  ◌∷◌, subst,
}
use open_xai_connect.Base.Exec.{pure, ◌>>=◌}
use open_xai_connect.Domain.Status.{ApplicationStatus, revoked, status_eqs}
use open_xai_connect.Domain.Application.{Time, Application}
use open_xai_connect.Domain.Lifecycle.{Life-revoked}
use open_xai_connect.Domain.Library.{Library}
use open_xai_connect.Portal.World.{World, Env, M}
use open_xai_connect.Portal.Triple.{Outcome, Triple, Triple-pure, Triple-bind}
use open_xai_connect.Store.Applications
use open_xai_connect.Store.Applications.{Applications}
use open_xai_connect.Apps.Input.{DraftInput}
use open_xai_connect.Apps.Deps.{Service}
use open_xai_connect.Apps.Evolution.{Allowed, IsKeyed, Evolves, Evolves-IsKeyed}
use open_xai_connect.Apps.Secrets.{rotate_secret, revoke, delete_application}
use open_xai_connect.Apps.Service.{create_draft, update_draft, submit}
use open_xai_connect.Apps.Provisioner.{Credentials, Provisioner, run_once}
use open_xai_connect.Reviews.Service.{Reviewing, reject, request_changes, approve}
use open_xai_connect.Reviews.Evolution.{decide-Evolves, approve-Evolves}
use open_xai_connect.Apps.Evolution.Drafts.{submit-Evolves, update_draft-Evolves}
use open_xai_connect.Apps.Evolution.Creation.{create_draft-Evolves}
use open_xai_connect.Apps.Evolution.Approved.{
  rotate_secret-Evolves, revoke-Evolves, delete_application-Evolves,
}
use open_xai_connect.Apps.Evolution.Worker.{run_once-Evolves}

-- The services of one running portal.
pub record Portal (H U : Type 0) : Type 0 where
  pub go : Library
  pub service : Service H U
  pub reviewing : Reviewing U
  pub provisioner : Provisioner H

-- The first text is the subject of the signed-in user, who may be anyone.
pub data Action : Type 0 where
  create_draft_of : String → DraftInput → Action
  update_draft_of : String → String → DraftInput → Action
  submit_of revoke_of delete_of : String → String → Action
  rotate_of : String → String → Time → Action
  approve_of reject_of request_changes_of : String → String → String → Action
  work : Credentials → Action

module _ {H U : Type 0} where
  ignored : {A : Type 0} → M H U A → M H U (Unit {0})
  ignored m = m >>= λ _. pure tt

  unfoldable pub perform : Portal H U → Env → Action → M H U (Unit {0})
  unfolding ignored
  perform k env (create_draft_of subject input) =
      ignored (create_draft env k.go k.service subject input)
  perform k env (update_draft_of subject id input) =
      ignored (update_draft env k.go k.service subject id input)
  perform k env (submit_of subject id) = ignored (submit env k.service subject id)
  perform k env (rotate_of subject id at) = ignored (rotate_secret env k.service subject id at)
  perform k env (revoke_of subject id) = revoke env k.service subject id
  perform k env (delete_of subject id) = delete_application env k.service subject id
  perform k env (approve_of reviewer id reason) = approve env k.reviewing reviewer id reason
  perform k env (reject_of reviewer id reason) = reject env k.reviewing reviewer id reason
  perform k env (request_changes_of reviewer id reason) =
      request_changes env k.reviewing reviewer id reason
  perform k env (work credentials) = ignored (run_once env k.provisioner credentials)

  abbrev Safe : Applications → M H U (Unit {0}) → Type 0
  Safe a0 m = Triple (Evolves a0) (λ x. x ≡ a0) m (λ _. Evolves a0)

  ignored-Safe :
      {A : Type 0} (a0 : Applications) (m : M H U A)
      → Triple (Evolves a0) (λ x. x ≡ a0) m (λ _. Evolves a0)
      → Safe a0 (ignored m)
  unfolding ignored
  ignored-Safe a0 m t = Triple-bind _ _ t (λ _. Triple-pure tt (λ x h. h))

  perform-Safe :
      (k : Portal H U) (env : Env) (a0 : Applications)
      → IsKeyed a0
      → (action : Action) → Safe a0 (perform k env action)
  unfolding perform reject request_changes
  perform-Safe k env a0 h (create_draft_of subject input) =
      ignored-Safe a0 _ (create_draft-Evolves env a0 h k.go k.service subject input)
  perform-Safe k env a0 h (update_draft_of subject id input) =
      ignored-Safe a0 _ (update_draft-Evolves env a0 h k.go k.service subject id input)
  perform-Safe k env a0 h (submit_of subject id) =
      ignored-Safe a0 _ (submit-Evolves env a0 h k.service subject id)
  perform-Safe k env a0 h (rotate_of subject id at) =
      ignored-Safe a0 _ (rotate_secret-Evolves env a0 h k.service subject id at)
  perform-Safe k env a0 h (revoke_of subject id) = revoke-Evolves env a0 h k.service subject id
  perform-Safe k env a0 h (delete_of subject id) =
      delete_application-Evolves env a0 h k.service subject id
  perform-Safe k env a0 h (approve_of reviewer id reason) =
      approve-Evolves env a0 h k.reviewing reviewer id reason
  perform-Safe k env a0 h (reject_of reviewer id reason) =
      decide-Evolves env a0 h k.reviewing reviewer id reason _ _
  perform-Safe k env a0 h (request_changes_of reviewer id reason) =
      decide-Evolves env a0 h k.reviewing reviewer id reason _ _
  perform-Safe k env a0 h (work credentials) =
      ignored-Safe a0 _ (run_once-Evolves env a0 k.provisioner h credentials)

  either_way :
      (a0 : Applications) (r : Result (Unit {0})) (w : World H U)
      → Outcome (Evolves a0) (λ _. Evolves a0) r w
      → Evolves a0 w.apps
  either_way a0 (ok a) w o = o
  either_way a0 (err e) w o = o

  -- Whatever the database, the clock, the random source, Hydra and the identity provider answer, and
  -- whether the operation succeeds or fails half-way: if every application stands under its own id,
  -- then each application that is there after the operation keeps its id and its owner and has moved
  -- along the allowed transitions (a new one from a draft), and none that was being provisioned is gone.
  pub perform-Evolves :
      (k : Portal H U) (env : Env) (action : Action) (w : World H U)
      → IsKeyed w.apps
      → Evolves w.apps (perform k env action w).1.apps
  perform-Evolves k env action w h =
      either_way w.apps (perform k env action w).0 (perform k env action w).1
        ((perform-Safe k env w.apps h action).run w refl)

stays_revoked :
    (id : String) (x y : Application)
    → x.status ≡ ApplicationStatus.revoked
    → Allowed id (some x) (some y)
    → y.status ≡ ApplicationStatus.revoked
stays_revoked id x y e (_, _, l) = Life-revoked l e

-- If every application stands under its own id, an application that is revoked before an operation of
-- the portal and is still there after it is still revoked, whether the operation succeeds or not.
pub perform-revoked :
    {H U : Type 0} (k : Portal H U) (env : Env) (action : Action) (w : World H U)
    → IsKeyed w.apps
    → (id : String) (x y : Application) → lookup id w.apps ≡ some x
    → x.status ≡ ApplicationStatus.revoked
    → lookup id (perform k env action w).1.apps ≡ some y
    → y.status ≡ ApplicationStatus.revoked
unfolding Evolves
perform-revoked k env action w keyed id x y before was after = stays_revoked id x y was (
    subst (λ o. Allowed id (some x) o) after
      (subst (λ o. Allowed id o (lookup id (perform k env action w).1.apps)) before
        (perform-Evolves k env action w keyed id)))
