-- ===== src/Apps/Evolution/Worker.antt =====
-- internal/apps/provisioner.go: a run of the provisioner changes the applications as `Evolves` allows,
-- whatever fails.
use open_xai_connect.Base.{
  ◌==◌, nat_eqs, string_eqs, lookup, insert, delete, int_eqs, Error, Result, ok, err, String, ◌≡◌,
  refl, not, ◌||◌, Option, none, some,
}
use open_xai_connect.Base.Exec.{◌>>=◌}
use open_xai_connect.Domain.Status.{ApplicationStatus, status_eq_iff, status_eqs, valid_transition}
use open_xai_connect.Domain.Application.{Time, Application}
use open_xai_connect.Hydra.Client.{ClientCredentials}
use open_xai_connect.Portal.World.{World, Env, M, on_apps}
use open_xai_connect.Portal.Triple.{
  Outcome, Triple, Triple-pure, Triple-lift, Triple-if, Triple-pre, Triple-const, Triple-post,
  Triple-bind, on_hydra-keeps, on_outbox-keeps, on_audit-keeps, now-keeps, draw-keeps,
}
use open_xai_connect.Store.Applications.{Applications, save}
use open_xai_connect.Apps.Evolution.{
  Allowed, IsKeyed, Evolves, At, At-Evolves, At-Allowed, At-id, Allowed-next,
}
use open_xai_connect.Apps.Evolution.Steps.{
  Life-step, save-At, Start, same-Evolves, Start-At, get-Start,
}
use open_xai_connect.Apps.Provisioner.{
  Credentials, Provisioner, Run, approved_app, attempt, either, settle, give_up, audit_provisioned,
  finish, approve, register_with, register, provision, handle, run_once,
}

ended :
    {H U A : Type 0} (p : Applications → Type 0) (x : Result A) (w : World H U)
    → Outcome p (λ _. p) x w
    → p w.apps
ended p (ok a) w o = o
ended p (err e) w o = o

module _ {H U A : Type 0} {good p : Applications → Type 0} where
  attempt-keeps : (m : M H U A) → Triple p p m (λ _. p) → Triple good p (attempt m) (λ _. p)
  unfolding attempt
  attempt-keeps m t = record { run = λ w x. ended p (m w).0 (m w).1 (t.run w x) }

module _ {H U A : Type 0} {good failing : Applications → Type 0} {q : A → Applications → Type 0}
    {r : Run → Applications → Type 0} where
  either-Outcome :
      (failure : Error → M H U Run) (success_of : A → M H U Run) (x : Result A) (w : World H U)
      → Outcome failing q x w
      → ((e : Error) → Triple good failing (failure e) r)
      → ((a : A) → Triple good (q a) (success_of a) r)
      → Outcome good r (either failure success_of x w).0 (either failure success_of x w).1
  unfolding either
  either-Outcome failure success_of (ok a) w o f n = (n a).run w o
  either-Outcome failure success_of (err e) w o f n = (f e).run w o

  Triple-settle :
      {p : Applications → Type 0} (m : M H U A) (failure : Error → M H U Run)
      (success_of : A → M H U Run)
      → Triple failing p m q
      → ((e : Error) → Triple good failing (failure e) r)
      → ((a : A) → Triple good (q a) (success_of a) r)
      → Triple good p (settle m failure success_of) r
  unfolding settle attempt ◌>>=◌
  Triple-settle m failure success_of t f n = record {
    run = λ w x. either-Outcome failure success_of (m w).0 (m w).1 (t.run w x) f n;
  }

module _ {H U : Type 0} (env : Env) (a0 : Applications) (k : Provisioner H) where
  give_up-Evolves :
      (id : String) (at : Time) (credentials : Credentials) (e : Error)
      → Triple {U = U}
          (Evolves a0)
          (Evolves a0)
          (give_up env k id at credentials e)
          (λ _. Evolves a0)
  unfolding give_up
  give_up-Evolves id at credentials e =
      Triple-bind _ _ (attempt-keeps _ (on_outbox-keeps env (λ m h. h) _))
        (λ _. Triple-pure _ (λ m h. h))

  finish-Evolves :
      (event : String) (at : Time) (credentials : Credentials) (app : Application)
      → Triple {U = U}
          (Evolves a0)
          (Evolves a0)
          (finish env k event at credentials app)
          (λ _. Evolves a0)
  unfolding finish audit_provisioned
  finish-Evolves event at credentials app =
      Triple-settle {failing = Evolves a0} {q = λ _. Evolves a0} _ _ _
        (Triple-bind _ _ (on_outbox-keeps env (λ m h. h) _) (λ _.
          Triple-if (not k.has_audit) _ _ (λ _. Triple-pure tt (λ m h. h))
            (λ _. Triple-bind _ _ (draw-keeps env) (λ drawn.
              Triple-bind _ _ (now-keeps env) (λ filled. on_audit-keeps env (λ m h. h) _)))))
        (λ e. Triple-pure _ (λ m h. h)) (λ _. Triple-pure _ (λ m h. h))

  -- From provisioning to approved.
  approved_app-Evolves :
      (id client_id secret : String) (at : Time) (app : Application)
      → app.status ≡ ApplicationStatus.provisioning
      → Triple {H = H} {U = U}
          (Evolves a0)
          (At a0 id app)
          (on_apps env (save (approved_app client_id secret at app)))
          (λ _. Evolves a0)
  unfolding approved_app valid_transition
  approved_app-Evolves id client_id secret at app e =
      Triple-const {C = Allowed id (lookup id a0) (some app) × (app.id ≡ id)} _
        (λ m h. (At-Allowed a0 id app m h, At-id a0 id app m h))
        (λ known.
          Triple-post _ (λ _. At-Evolves a0 id _)
            (save-At env a0 id app _ known.1
              (Allowed-next id (lookup id a0) app _ known.0 refl refl (Life-step e refl refl))))

  approve-Evolves :
      (id event : String) (at : Time) (credentials : Credentials) (app : Application)
      (made : ClientCredentials)
      → app.status ≡ ApplicationStatus.provisioning
      → Triple {U = U}
          (Evolves a0)
          (At a0 id app)
          (approve env k event at credentials app made)
          (λ _. Evolves a0)
  unfolding approve
  approve-Evolves id event at credentials app made e =
      Triple-if ((made.id == "") || (made.secret == "")) _ _
        (λ _. Triple-pre _ (At-Evolves a0 id app) (give_up-Evolves event at credentials _))
        (λ _.
          Triple-settle {failing = Evolves a0} {q = λ _. Evolves a0} _ _ _
            (Triple-bind _ _ (draw-keeps env) (λ nonce.
              Triple-bind _ _ (Triple-lift _ (At-Evolves a0 id app) (λ a e m h. h))
                (λ secret. approved_app-Evolves id made.id secret at app e)))
            (λ x. give_up-Evolves event at credentials x)
            (λ _. finish-Evolves event at (delete app.id credentials) app))

  register-Evolves :
      (id event : String) (at : Time) (credentials : Credentials) (app : Application)
      (o : Option ClientCredentials)
      → app.status ≡ ApplicationStatus.provisioning
      → Triple {U = U}
          (Evolves a0)
          (At a0 id app)
          (register_with env k event at credentials app o)
          (λ _. Evolves a0)
  unfolding register_with
  register-Evolves id event at credentials app (some made) e =
      approve-Evolves id event at credentials app made e
  register-Evolves id event at credentials app none e =
      Triple-settle {failing = At a0 id app} {q = λ _. At a0 id app} _ _ _
        (on_hydra-keeps env (λ m h. h) _)
        (λ x. Triple-pre _ (At-Evolves a0 id app) (give_up-Evolves event at credentials x))
        (λ made. approve-Evolves id event at (insert app.id made credentials) app made e)

  provision-Evolves :
      (id event : String) (at : Time) (credentials : Credentials) (app : Application)
      → Triple {U = U}
          (Evolves a0)
          (At a0 id app)
          (provision env k event at credentials app)
          (λ _. Evolves a0)
  unfolding provision register
  provision-Evolves id event at credentials app =
      Triple-if (app.status == ApplicationStatus.provisioning) _ _
        (λ e.
          register-Evolves id event at credentials app (lookup app.id credentials)
            ((status_eq_iff app.status _).0 e))
        (λ _. Triple-pre _ (At-Evolves a0 id app) (
          Triple-bind _ _ (attempt-keeps _ (on_outbox-keeps env (λ m h. h) _))
            (λ _. Triple-pure _ (λ m h. h))))

  pub run_once-Evolves :
      (keyed : IsKeyed a0) (credentials : Credentials)
      → Triple {U = U} (Evolves a0) (λ m. m ≡ a0) (run_once env k credentials) (λ _. Evolves a0)
  unfolding run_once handle
  run_once-Evolves keyed credentials = Triple-bind _ _ (now-keeps env) (λ at.
      Triple-settle {failing = λ m. m ≡ a0} {q = λ _ m. m ≡ a0} _ _ _
        (on_outbox-keeps env (λ m h. h) _) (λ e. Triple-pure _ (same-Evolves a0 keyed))
        (λ event.
          Triple-if (event.kind == "application.provision") _ _
            (λ _.
              Triple-settle {failing = Evolves a0} {q = λ app. Start a0 event.application_id app} _
                _ _ (get-Start env a0 keyed event.application_id)
                (λ e. give_up-Evolves event.id at credentials e)
                (λ app.
                  Triple-pre _ (Start-At a0 keyed event.application_id app)
                    (provision-Evolves event.application_id event.id at credentials app)))
            (λ _. Triple-pre _ (same-Evolves a0 keyed) (
              Triple-bind _ _ (attempt-keeps _ (on_outbox-keeps env (λ m h. h) _))
                (λ _. Triple-pure _ (λ m h. h))))))
