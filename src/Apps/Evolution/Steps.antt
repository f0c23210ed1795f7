-- ===== src/Apps/Evolution/Steps.antt =====
-- The steps that the services of internal/apps and internal/reviews share, as triples about `Evolves`.
use open_xai_connect.Base.{
  ◌==◌, nat_eqs, string_eqs, Option-cases, trim_space, lookup, insert, int_eqs, Error, Result, ok,
  err, String, ◌≡◌, refl, sym, ap, ◌∙◌, inl, inr, true, not, Option, none, some, arith, subst,
}
use open_xai_connect.Base.Exec.{pure, ◌>>◌}
use open_xai_connect.Domain.Status.{ApplicationStatus, status_eqs, valid_transition}
use open_xai_connect.Domain.Application.{Time, Application}
use open_xai_connect.Domain.Lifecycle.{Life, here, next}
use open_xai_connect.Identity.StatusSnapshot.{can_manage_applications}
use open_xai_connect.Portal.World.{Env, StatusLookup, on_apps}
use open_xai_connect.Portal.Triple.{
  Implies, Triple, Triple-pure, Triple-raise, Triple-if, Triple-bind, on_users-keeps,
  on_audit-keeps, now-keeps, draw-keeps, Effect, on_apps-Triple,
}
use open_xai_connect.Store.Applications
use open_xai_connect.Store.Applications.{
  Applications, with_default_status, with_times, create, get_by_client_id, values_if,
  sort_by_created, list_by_owner, list_by_status, count_open_by_owner, transition_app, save,
  delete_app,
}
use open_xai_connect.Store.Applications.Laws.{Moved, transition_app-Moved, transition_app-eq_err}
use open_xai_connect.Apps.Deps.{Service, current_status, ensure_eligible, get_owned, audit_event}
use open_xai_connect.Apps.Evolution.{
  Allowed, IsKeyed, Evolves, Evolves-refl, At, At-Evolves, At-Allowed, insert-At, Allowed-next,
}

module _ {H U : Type 0} {good p : Applications → Type 0} (env : Env) (safe : Implies p good) where
  current_status-keeps :
      (o : Option (StatusLookup U)) (subject : String)
      → Triple {H = H} good p (current_status o subject) (λ _. p)
  unfolding current_status
  current_status-keeps none subject = Triple-raise _ safe
  current_status-keeps (some f) subject = on_users-keeps env safe (f subject)

  pub ensure_eligible-keeps :
      (s : Service H U) (subject : String) → Triple good p (ensure_eligible s subject) (λ _. p)
  unfolding ensure_eligible
  ensure_eligible-keeps s subject =
      Triple-if (trim_space subject == "") _ _ (λ _. Triple-raise _ safe)
        (λ _. Triple-bind _ _ (current_status-keeps s.status subject) (λ status.
          Triple-if (can_manage_applications status) _ _ (λ _. Triple-pure tt (λ m h. h))
            (λ _. Triple-raise _ safe)))

  pub audit_event-keeps :
      (s : Service H U) (actor id action : String)
      → Triple good p (audit_event env s actor id action) (λ _. p)
  unfolding audit_event
  audit_event-keeps s actor id action =
      Triple-if (not s.has_audit) _ _ (λ _. Triple-pure tt (λ m h. h))
        (λ _. Triple-bind _ _ (draw-keeps env) (λ drawn.
          Triple-bind _ _ (now-keeps env)
            (λ at. Triple-bind _ _ (now-keeps env) (λ filled. on_audit-keeps env safe _))))

  -- The audit event and the result that end an operation.
  pub ending :
      {A : Type 0} (s : Service H U) (actor id action : String) (a : A)
      → Triple good p (audit_event env s actor id action >> pure a) (λ _. p)
  ending s actor id action a =
      Triple-bind _ _ (audit_event-keeps s actor id action) (λ _. Triple-pure a (λ m h. h))

pub Life-step :
    {s t from to : ApplicationStatus}
    → s ≡ from
    → t ≡ to
    → valid_transition from to ≡ true
    → Life s t
Life-step e f v = rw (e, f) (next here v)

-- The transition of `a` to `moved` that the repository stored.
abbrev pub Moves : ApplicationStatus → ApplicationStatus → Time → Application → Application → Type 0
Moves from to at a moved =
    (a.status ≡ from)
    × (valid_transition from to ≡ true)
    × (moved ≡ record a { status = to; updated_at = at })

split :
    {A : Type 0} {good : Applications → Type 0} {q : A → Applications → Type 0}
    (r : Result A × Applications)
    → ((a : A) (m : Applications) → r ≡ (ok a, m) → q a m)
    → ((e : Error) (m : Applications) → r ≡ (err e, m) → good m)
    → Effect good q (r.0, r.1)
split (ok a, m) f g = f a m refl
split (err e, m) f g = g e m refl

module _ (a0 : Applications) (id : String) where
  transition-ends :
      (a app : Application) (m : Applications) (from to : ApplicationStatus) (at : Time)
      (moved : Application)
      → At a0 id a m
      → app ≡ a
      → app.status ≡ from
      → valid_transition from to ≡ true
      → moved ≡ record app { status = to; updated_at = at }
      → (m' : Applications) → m' ≡ insert id moved m
      → At a0 id moved m' × Moves from to at a moved
  transition-ends a app m from to at moved h eq st v mv m' me = (
    subst (At a0 id moved) (sym me) (
        insert-At a0 id moved m (At-Evolves a0 id a m h) (
          Allowed-next id (lookup id a0) a moved (At-Allowed a0 id a m h) (ap (λ x. x.id) mv')
            (ap (λ x. x.owner_subject) mv')
            (Life-step (ap (λ x. x.status) (sym eq) ∙ st) (ap (λ x. x.status) mv') v))),
    (ap (λ x. x.status) (sym eq) ∙ st, v, mv'),
  )
    where
      mv' : moved ≡ record a { status = to; updated_at = at }
      mv' =
          mv
          ∙ ap {A = Application} {B = Application} (λ x. record x { status = to; updated_at = at })
              eq

module _ {H U : Type 0} (env : Env) (a0 : Applications) (id : String) where
  pub save-At :
      (a y : Application)
      → y.id ≡ id
      → Allowed id (lookup id a0) (some y)
      → Triple {H = H} {U = U} (Evolves a0) (At a0 id a) (on_apps env (save y)) (λ _. At a0 id y)
  unfolding At save
  save-At a y i allowed = on_apps-Triple env (save y) (At-Evolves a0 id a) (λ m h.
      rw (ap (λ k. lookup k m) i ∙ h.1, save)
        (subst (λ k. At a0 id y (insert k y m)) (sym i) (insert-At a0 id y m h.0 allowed)))

  pub transition_app-At :
      (a : Application) (from to : ApplicationStatus) (at : Time)
      → Triple {H = H} {U = U}
          (Evolves a0)
          (At a0 id a)
          (on_apps env (transition_app id from to at))
          (λ moved m. At a0 id moved m × Moves from to at a moved)
  unfolding At
  transition_app-At a from to at = on_apps-Triple env _ (At-Evolves a0 id a) (λ m h.
      split (transition_app id from to at m)
        (λ moved m' e. after m h moved m' (transition_app-Moved id from to at m m' moved e))
        (λ x m' e.
          subst (Evolves a0) (sym (transition_app-eq_err id from to at m m' x e))
            (At-Evolves a0 id a m h)))
    where
      after :
          (m : Applications)
          → At a0 id a m
          → (moved : Application) (m' : Applications) → Moved id from to at m moved m'
          → At a0 id moved m' × Moves from to at a moved
      after m h moved m' (app, e, st, v, mv, me) =
          transition-ends a0 id a app m from to at moved h (ground arith) st v mv m' me

-- Before the first change: the application that stands under the id.
abbrev pub Start : Applications → String → Application → Applications → Type 0
Start a0 id app m = (m ≡ a0) × (lookup id a0 ≡ some app)

module _ (a0 : Applications) (keyed : IsKeyed a0) where
  pub same-Evolves : Implies (λ m. m ≡ a0) (Evolves a0)
  same-Evolves m e = subst (Evolves a0) (sym e) (Evolves-refl a0 keyed)

  pub Start-At : (id : String) (app : Application) → Implies (Start a0 id app) (At a0 id app)
  unfolding At
  Start-At id app m (e, l) = (same-Evolves m e, rw e l)

  pub Start-Evolves : (id : String) (app : Application) → Implies (Start a0 id app) (Evolves a0)
  Start-Evolves id app m (e, _) = same-Evolves m e

module _ {H U : Type 0} (env : Env) (a0 : Applications) (keyed : IsKeyed a0) (id : String) where
  pub get-Start :
      Triple {H = H} {U = U}
        (Evolves a0)
        (λ m. m ≡ a0)
        (on_apps env (Applications.get id))
        (λ app. Start a0 id app)
  unfolding Applications.get
  get-Start = on_apps-Triple env _ (same-Evolves a0 keyed) (λ m e.
      elim (Option-cases (lookup id m)) [
        | inl n ↦ rw (n, Applications.get) (same-Evolves a0 keyed m e)
        | inr (app, l) ↦ rw (l, Applications.get) (e, subst (λ x. lookup id x ≡ some app) e l)
      ])

  pub get_owned-Start :
      (s : Service H U) (subject : String)
      → Triple (Evolves a0) (λ m. m ≡ a0) (get_owned env s subject id) (λ app. Start a0 id app)
  unfolding get_owned
  get_owned-Start s subject =
      Triple-if (not s.has_apps) _ _ (λ _. Triple-raise _ (same-Evolves a0 keyed))
        (λ _. Triple-bind _ _ get-Start (λ app.
          Triple-if (app.owner_subject == subject) _ _ (λ _. Triple-pure app (λ m h. h))
            (λ _. Triple-raise _ (Start-Evolves a0 keyed id app))))
