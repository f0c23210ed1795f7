-- ===== src/Apps/Evolution/Drafts.antt =====
-- internal/apps/service.go: drafts, submission and the start of provisioning change the applications
-- as `Evolves` allows, whatever fails.
use open_xai_connect.Base.{
  ◌==◌, nat_eqs, string_eqs, lookup, int_eqs, Error, String, ◌≡◌, refl, sym, ap, ◌∙◌, true, false,
  not, ◌||◌, Option, none, some, List, arith, subst,
}
use open_xai_connect.Domain.Status.{ApplicationStatus, status_eqs, valid_transition}
use open_xai_connect.Domain.Application.{Time, Application}
use open_xai_connect.Domain.Lifecycle.{Life, here, next}
use open_xai_connect.Domain.Library.{Library}
use open_xai_connect.Hydra.Client.{Client}
use open_xai_connect.Portal.World.{Env, M, on_apps}
use open_xai_connect.Portal.Triple.{
  Implies, Triple, Triple-pure, Triple-raise, Triple-lift, Triple-if, Triple-pre, Triple-const,
  Triple-post, Triple-guard, Triple-bind, on_hydra-keeps, on_outbox-keeps, now-keeps, draw-keeps,
  Triple-on_error,
}
use open_xai_connect.Store.Applications.{Applications, save}
use open_xai_connect.Apps.Input.{DraftInput, normalize_domains}
use open_xai_connect.Apps.Deps.{Box, Service}
use open_xai_connect.Apps.Evolution.{
  Allowed, IsKeyed, Evolves, At, At-Evolves, At-Allowed, At-id, Allowed-next,
}
use open_xai_connect.Apps.Evolution.Steps.{
  ensure_eligible-keeps, ending, Moves, save-At, transition_app-At, same-Evolves, Start-At,
  get_owned-Start,
}
use open_xai_connect.Apps.Service.{
  editable_application_status, reopened, edited, with_tools, sync_with, sync_approved_client,
  enqueue_provisioning, restore, start_provisioning, update_draft, as_draft, send, submit,
}

module _ {H U : Type 0} (env : Env) (a0 : Applications) where
  with_tools-keeps :
      {p : Applications → Type 0} (safe : Implies p (Evolves a0)) (o : Option Box)
      (c : Option (Client H)) (e : Error) (f : Box → Client H → M H U (Unit {0}))
      → ((box : Box) (hydra : Client H) → Triple (Evolves a0) p (f box hydra) (λ _. p))
      → Triple (Evolves a0) p (with_tools o c e f) (λ _. p)
  unfolding with_tools
  with_tools-keeps safe (some box) (some hydra) e f h = h box hydra
  with_tools-keeps safe (some box) none e f h = Triple-raise e safe
  with_tools-keeps safe none (some hydra) e f h = Triple-raise e safe
  with_tools-keeps safe none none e f h = Triple-raise e safe

  sync-keeps :
      {p : Applications → Type 0} (safe : Implies p (Evolves a0)) (s : Service H U)
      (app : Application) (input : DraftInput)
      → Triple (Evolves a0) p (sync_approved_client s app input) (λ _. p)
  unfolding sync_approved_client sync_with
  sync-keeps safe s app input = with_tools-keeps safe s.box s.hydra _ _ (λ box hydra.
      Triple-if ((app.client_id == "") || (app.encrypted_client_secret == "")) _ _
        (λ _. Triple-raise _ safe)
        (λ _. Triple-bind _ _ (Triple-lift _ safe (λ secret e m h. h)) (λ secret.
          Triple-bind _ _ (on_hydra-keeps env safe _) (λ made. Triple-lift _ safe (λ a e m h. h)))))

  enqueue_provisioning-keeps :
      {p : Applications → Type 0} (safe : Implies p (Evolves a0)) (app : Application)
      → Triple {H = H} {U = U} p p (enqueue_provisioning env app) (λ _. p)
  unfolding enqueue_provisioning
  enqueue_provisioning-keeps safe app = Triple-bind _ _ (now-keeps env) (λ at.
      Triple-bind _ _ (draw-keeps env)
        (λ drawn. Triple-bind _ _ (now-keeps env) (λ made. on_outbox-keeps env (λ m h. h) _)))

  -- The rollback writes a status that was allowed before.
  restore-Evolves :
      (id : String) (a started : Application) (from : ApplicationStatus) (at : Time)
      → Moves from ApplicationStatus.provisioning at a started
      → Allowed id (lookup id a0) (some a)
      → a.id ≡ id
      → Triple {H = H} {U = U}
          (Evolves a0)
          (At a0 id started)
          (restore env from started)
          (λ _. Evolves a0)
  unfolding restore
  restore-Evolves id a started from at (e, v, mv) allowed i = Triple-bind _ _ (now-keeps env) (λ t.
      Triple-post _ (λ _. At-Evolves a0 id _)
        (save-At env a0 id started _ (ap (λ x. x.id) mv ∙ i) (
          Allowed-next id (lookup id a0) a _ allowed (ap (λ x. x.id) mv)
            (ap (λ x. x.owner_subject) mv) (subst (λ t. Life a.status t) e here))))

  pub start_provisioning-Evolves :
      (s : Service H U) (subject : String) (app a : Application)
      → Triple
          (Evolves a0)
          (At a0 app.id a)
          (start_provisioning env s subject app)
          (λ _. Evolves a0)
  unfolding start_provisioning
  start_provisioning-Evolves s subject app a =
      Triple-if (not s.has_apps || not s.has_outbox) _ _
        (λ _. Triple-raise _ (At-Evolves a0 app.id a))
        (λ _.
          Triple-const _ (λ m h. At-Allowed a0 app.id a m h)
            (λ allowed.
              Triple-const _ (λ m h. At-id a0 app.id a m h)
                (λ i. Triple-bind _ _ (now-keeps env) (λ at.
                  Triple-bind _ _
                    (transition_app-At env a0 app.id a app.status ApplicationStatus.provisioning at)
                    (λ started.
                      Triple-const _ (λ m h. h.1)
                        (λ moves.
                          Triple-bind _ _
                            (Triple-on_error _ _
                              (Triple-pre _ (λ m h. h.0)
                                (enqueue_provisioning-keeps (At-Evolves a0 app.id started) started))
                              (restore-Evolves app.id a started app.status at moves allowed i))
                            (λ _.
                              Triple-pre _ (At-Evolves a0 app.id started)
                                (ending env (λ m h. h) s subject app.id _ started))))))))

own_id : (a0 : Applications) (id : String) (a : Application) → Implies (At a0 id a) (At a0 a.id a)
own_id a0 id a m h = subst (λ k. At a0 k a m) (sym (At-id a0 id a m h)) h

editable_Life :
    (s : ApplicationStatus)
    → editable_application_status s ≡ true
    → (s == ApplicationStatus.approved) ≡ false
    → Life s ApplicationStatus.draft
unfolding editable_application_status valid_transition
editable_Life ApplicationStatus.draft e d = here
editable_Life ApplicationStatus.changes_requested e d = next here refl
editable_Life ApplicationStatus.rejected e d = next here refl
editable_Life ApplicationStatus.approved e d = ground arith
editable_Life ApplicationStatus.unset e d = ground arith
editable_Life ApplicationStatus.pending_review e d = ground arith
editable_Life ApplicationStatus.provisioning e d = ground arith
editable_Life ApplicationStatus.revoked e d = ground arith

-- What an edit writes: the application itself, or a draft of it.
abbrev Edits : Application → Application → Type 0
Edits app app' =
    (app'.id ≡ app.id) × (app'.owner_subject ≡ app.owner_subject) × Life app.status app'.status

module _ {H U : Type 0} (env : Env) (a0 : Applications) (keyed : IsKeyed a0) where
  as_draft-At :
      (id : String) (app : Application)
      → Triple {H = H} {U = U} (Evolves a0) (At a0 id app) (as_draft env id app) (λ a. At a0 id a)
  unfolding as_draft
  as_draft-At id app =
      Triple-if _ _ _ (λ _. Triple-pure app (λ m h. h))
        (λ _. Triple-bind _ _ (now-keeps env) (λ at.
          Triple-post _ (λ a m h. h.0)
            (transition_app-At env a0 id app app.status ApplicationStatus.draft at)))

  send-Evolves :
      (s : Service H U) (subject id : String) (a : Application)
      → Triple (Evolves a0) (At a0 id a) (send env s subject id a) (λ _. Evolves a0)
  unfolding send
  send-Evolves s subject id a =
      Triple-if (not s.require_review) _ _
        (λ _. Triple-pre _ (own_id a0 id a) (start_provisioning-Evolves env a0 s subject a a))
        (λ _. Triple-bind _ _ (now-keeps env) (λ at.
          Triple-bind _ _ (transition_app-At env a0 id a _ _ at) (λ pending.
            Triple-pre _ (λ m h. At-Evolves a0 id pending m h.0)
              (ending env (λ m h. h) s subject id _ pending))))

  pub submit-Evolves :
      (s : Service H U) (subject id : String)
      → Triple (Evolves a0) (λ m. m ≡ a0) (submit env s subject id) (λ _. Evolves a0)
  unfolding submit
  submit-Evolves s subject id =
      Triple-bind _ _ (ensure_eligible-keeps env (same-Evolves a0 keyed) s subject) (λ _.
        Triple-guard _ _ _ (same-Evolves a0 keyed) (λ _.
          Triple-bind _ _ (get_owned-Start env a0 keyed id s subject) (λ app.
            Triple-pre _ (Start-At a0 keyed id app) (
              Triple-bind _ _ (as_draft-At id app) (λ a.
                Triple-guard _ _ _ (At-Evolves a0 id a) (λ _. send-Evolves s subject id a))))))

  update_draft-writes :
      (s : Service H U) (id subject : String) (input : DraftInput) (at : Time)
      (f : List String → List String) (app app' : Application)
      → Edits app app'
      → Triple {H = H} {U = U}
          (Evolves a0)
          (At a0 id app)
          (on_apps env (save (edited f input at app')))
          (λ _. Evolves a0)
  unfolding edited
  update_draft-writes s id subject input at f app app' (i, o, l) =
      Triple-const {C = Allowed id (lookup id a0) (some app) × (app.id ≡ id)} _
        (λ m h. (At-Allowed a0 id app m h, At-id a0 id app m h))
        (λ known.
          Triple-post _ (λ _. At-Evolves a0 id _)
            (save-At env a0 id app _ (i ∙ known.1)
              (Allowed-next id (lookup id a0) app _ known.0 i o l)))

  pub update_draft-Evolves :
      (go : Library) (s : Service H U) (subject id : String) (input : DraftInput)
      → Triple (Evolves a0) (λ m. m ≡ a0) (update_draft env go s subject id input) (λ _. Evolves a0)
  unfolding update_draft reopened
  update_draft-Evolves go s subject id input =
      Triple-bind _ _ (ensure_eligible-keeps env (same-Evolves a0 keyed) s subject) (λ _.
        Triple-bind _ _ (get_owned-Start env a0 keyed id s subject) (λ app.
          Triple-pre _ (Start-At a0 keyed id app) (
            Triple-guard _ _ _ (At-Evolves a0 id app) (λ editable.
              Triple-bind _ _ (Triple-lift _ (At-Evolves a0 id app) (λ a e m h. h)) (λ _.
                Triple-bind {q = λ app' m. At a0 id app m × Edits app app'} _ _
                  (Triple-if (app.status == ApplicationStatus.approved) _ _
                    (λ _.
                      Triple-bind _ _ (sync-keeps env a0 (At-Evolves a0 id app) s app input)
                        (λ _. Triple-pure app (λ m h. (h, (refl, refl, here)))))
                    (λ other.
                      Triple-pure _
                        (λ m h. (h, (refl, refl, editable_Life app.status (ground arith) other)))))
                  (λ app'.
                    Triple-const _ (λ m h. h.1)
                      (λ edits.
                        Triple-pre _ (λ m h. h.0)
                          (Triple-bind _ _ (now-keeps env) (λ at.
                            Triple-bind _ _
                              (update_draft-writes s id subject input at (normalize_domains go) app
                                app' edits)
                              (λ _. ending env (λ m h. h) s subject id _ _))))))))))
