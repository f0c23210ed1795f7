-- ===== src/Apps/Evolution/Approved.antt =====
-- internal/apps/service.go: RotateSecret, Revoke and Delete change the applications as `Evolves`
-- allows, whatever fails.
use open_xai_connect.Base.{
  ◌==◌, nat_eqs, string_eqs, lookup, int_eqs, AppsError, Error, apps, ok, refuse_if, String, ◌≡◌,
  refl, sym, ap, ◌≢◌, Bool, true, false, not, Option, none, some, arith, subst,
}
use open_xai_connect.Domain.Status.{ApplicationStatus, status_eqs}
use open_xai_connect.Domain.Application.{Time, is_zero, Application}
use open_xai_connect.Domain.Lifecycle.{here}
use open_xai_connect.Hydra.Client.{Client}
use open_xai_connect.Portal.World.{Env, on_apps}
use open_xai_connect.Portal.Triple.{
  Implies, Triple, Triple-pure, Triple-raise, Triple-lift, Triple-if, Triple-pre, Triple-const,
  Triple-post, Triple-guard, Triple-bind, on_hydra-keeps, now-keeps, draw-keeps, on_apps-Triple,
}
use open_xai_connect.Store.Applications.{Applications, save, delete_app}
use open_xai_connect.Apps.Deps.{Box, Service, confirmed}
use open_xai_connect.Apps.Evolution.{
  Allowed, IsKeyed, Evolves, At, At-Evolves, At-Allowed, At-id, delete-Evolves, Allowed-next,
}
use open_xai_connect.Apps.Evolution.Steps.{
  ensure_eligible-keeps, audit_event-keeps, ending, save-At, transition_app-At, Start, same-Evolves,
  Start-At, Start-Evolves, get_owned-Start,
}
use open_xai_connect.Apps.Secrets.{
  deletable_status, rotated, need, both, rotate_secret, revoke, clean_up, delete_application,
}

module _ {H U A : Type 0} {good p : Applications → Type 0} (env : Env) (safe : Implies p good) where
  pub need-keeps : (o : Option A) (e : Error) → Triple {H = H} {U = U} good p (need o e) (λ _. p)
  unfolding need
  need-keeps none e = Triple-raise e safe
  need-keeps (some a) e = Triple-pure a (λ m h. h)

module _ {H U : Type 0} {good p : Applications → Type 0} (env : Env) (safe : Implies p good) where
  both-keeps :
      (o : Option Box) (c : Option (Client H)) (e : Error)
      → Triple {H = H} {U = U} good p (both env o c e) (λ _. p)
  unfolding both
  both-keeps (some box) (some hydra) e = Triple-pure _ (λ m h. h)
  both-keeps (some box) none e = Triple-raise e safe
  both-keeps none (some hydra) e = Triple-raise e safe
  both-keeps none none e = Triple-raise e safe

  confirmed-keeps : (s : Service H U) (at : Time) → Triple good p (confirmed env s at) (λ _. p)
  unfolding confirmed
  confirmed-keeps s at =
      Triple-if (is_zero at) _ _ (λ _. Triple-pure false (λ m h. h))
        (λ _. Triple-bind _ _ (now-keeps env) (λ t. Triple-pure _ (λ m h. h)))

-- A status that may be deleted is not that of a running provisioning.
deletable_status-idle :
    (s : ApplicationStatus) → deletable_status s ≡ true → s ≢ ApplicationStatus.provisioning
unfolding deletable_status
deletable_status-idle s e q = ground (arith, ap deletable_status q)

module _ {H U : Type 0} (env : Env) (a0 : Applications) (keyed : IsKeyed a0) where
  -- The rotated application keeps its id, its owner and its status.
  rotated-Evolves :
      (id : String) (app : Application) (secret : String) (at : Time)
      → Triple {H = H} {U = U}
          (Evolves a0)
          (At a0 id app)
          (on_apps env (save (rotated secret at app)))
          (λ _. Evolves a0)
  unfolding rotated
  rotated-Evolves id app secret at =
      Triple-const {C = Allowed id (lookup id a0) (some app) × (app.id ≡ id)} _
        (λ m h. (At-Allowed a0 id app m h, At-id a0 id app m h))
        (λ known.
          Triple-post _ (λ _. At-Evolves a0 id _)
            (save-At env a0 id app _ known.1
              (Allowed-next id (lookup id a0) app _ known.0 refl refl here)))

  pub rotate_secret-Evolves :
      (s : Service H U) (subject id : String) (confirmed_at : Time)
      → Triple
          (Evolves a0)
          (λ m. m ≡ a0)
          (rotate_secret env s subject id confirmed_at)
          (λ _. Evolves a0)
  unfolding rotate_secret rotated
  rotate_secret-Evolves s subject id confirmed_at =
      Triple-bind _ _ (get_owned-Start env a0 keyed id s subject) (λ app.
        Triple-pre _ (Start-At a0 keyed id app) (
          Triple-guard _ _ _ (At-Evolves a0 id app) (λ _.
            Triple-bind _ _ (confirmed-keeps env (At-Evolves a0 id app) s confirmed_at) (λ recent.
              Triple-guard _ _ _ (At-Evolves a0 id app) (λ _.
                Triple-bind _ _ (both-keeps env (At-Evolves a0 id app) s.box s.hydra _) (λ tools.
                  Triple-bind _ _ (draw-keeps env) (λ drawn.
                    Triple-bind _ _ (need-keeps env (At-Evolves a0 id app) drawn _) (λ plaintext.
                      Triple-bind _ _ (on_hydra-keeps env (At-Evolves a0 id app) _) (λ made.
                        Triple-guard _ _ _ (At-Evolves a0 id app) (λ _.
                          Triple-bind _ _ (draw-keeps env) (λ nonce.
                            Triple-bind _ _ (Triple-lift _ (At-Evolves a0 id app) (λ a e m h. h))
                              (λ secret. Triple-bind _ _ (now-keeps env) (λ at.
                                Triple-bind _ _ (rotated-Evolves id app secret at)
                                  (λ _. ending env (λ m h. h) s subject id _ _))))))))))))))

  pub revoke-Evolves :
      (s : Service H U) (subject id : String)
      → Triple (Evolves a0) (λ m. m ≡ a0) (revoke env s subject id) (λ _. Evolves a0)
  unfolding revoke
  revoke-Evolves s subject id = Triple-bind _ _ (get_owned-Start env a0 keyed id s subject) (λ app.
      Triple-pre _ (Start-At a0 keyed id app) (
        Triple-guard _ _ _ (At-Evolves a0 id app) (λ _.
          Triple-bind _ _ (need-keeps env (At-Evolves a0 id app) s.hydra _) (λ hydra.
            Triple-bind _ _ (on_hydra-keeps env (At-Evolves a0 id app) _) (λ _.
              Triple-bind _ _ (now-keeps env) (λ at.
                Triple-bind _ _ (transition_app-At env a0 id app _ _ at) (λ moved.
                  Triple-pre _ (λ m h. At-Evolves a0 id moved m h.0)
                    (audit_event-keeps env (λ m h. h) s subject id _))))))))

  clean_up-idle :
      (s : Service H U) (id : String) (app : Application)
      → Triple
          (Evolves a0)
          (Start a0 id app)
          (clean_up env s app)
          (λ _ m. Start a0 id app m × (app.status ≢ ApplicationStatus.provisioning))
  unfolding clean_up
  clean_up-idle s id app =
      Triple-if (not (app.status == ApplicationStatus.approved)) _ _
        (λ _. Triple-lift _ safe (λ _ e m h. (h, deletable_status-idle app.status (passed _ e))))
        (λ approved. Triple-bind _ _ (need-keeps env safe s.hydra _) (λ hydra.
          Triple-guard _ _ _ safe (λ _.
            Triple-post _ (λ _ m h. (h, λ q. not_both app.status approved q))
              (on_hydra-keeps env safe _))))
    where
      safe : Implies (Start a0 id app) (Evolves a0)
      safe = Start-Evolves a0 keyed id app

      not_both :
          (t : ApplicationStatus)
          → not (t == ApplicationStatus.approved) ≡ false
          → t ≢ ApplicationStatus.provisioning
      not_both t e q = ground (arith, q)

      passed : (b : Bool) → refuse_if (not b) (apps AppsError.not_deletable) ≡ ok tt → b ≡ true
      passed b e = ground arith

  pub delete_application-Evolves :
      (s : Service H U) (subject id : String)
      → Triple (Evolves a0) (λ m. m ≡ a0) (delete_application env s subject id) (λ _. Evolves a0)
  unfolding delete_application delete_app
  delete_application-Evolves s subject id =
      Triple-bind _ _ (ensure_eligible-keeps env (same-Evolves a0 keyed) s subject) (λ _.
        Triple-bind _ _ (get_owned-Start env a0 keyed id s subject) (λ app.
          Triple-bind _ _ (clean_up-idle s id app) (λ _.
            Triple-const _ (λ m h. h.1)
              (λ idle.
                Triple-pre _ (λ m h. h.0)
                  (Triple-bind _ _
                    (audit_event-keeps env (Start-Evolves a0 keyed id app) s subject id _)
                    (λ _. deletion id app idle))))))
    where
      deletion :
          (id : String) (app : Application)
          → app.status ≢ ApplicationStatus.provisioning
          → Triple {H = H} {U = U}
              (Evolves a0)
              (Start a0 id app)
              (on_apps env (delete_app id))
              (λ _. Evolves a0)
      deletion id app idle = on_apps-Triple env _ (Start-Evolves a0 keyed id app) (λ m h.
          rw (subst (λ x. lookup id x ≡ some app) (sym h.0) h.1, delete_app)
            (delete-Evolves a0 id m (same-Evolves a0 keyed m h.0)
              (subst (λ o. Allowed id o none) (sym h.1) idle)))
