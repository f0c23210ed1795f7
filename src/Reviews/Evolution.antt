-- ===== src/Reviews/Evolution.antt =====
-- internal/reviews/service.go: the decisions of reviewers change the applications as `Evolves` allows,
-- whatever fails.
use open_xai_connect.Base.{
  ◌==◌, nat_eqs, string_eqs, lookup, int_eqs, String, ◌≡◌, refl, not, Option, none, some,
}
use open_xai_connect.Domain.Status.{ApplicationStatus, status_eqs}
use open_xai_connect.Domain.Application.{Application}
use open_xai_connect.Portal.World.{Env}
use open_xai_connect.Portal.Triple.{
  Implies, Triple, Triple-pure, Triple-raise, Triple-lift, Triple-if, Triple-pre, Triple-const,
  Triple-post, Triple-guard, Triple-bind, on_users-keeps, on_outbox-keeps, on_audit-keeps,
  now-keeps, draw-keeps,
}
use open_xai_connect.Store.Applications.{Applications}
use open_xai_connect.Apps.Evolution.{
  Allowed, IsKeyed, Evolves, At-Evolves, At-Allowed, At-id, Allowed-next,
}
use open_xai_connect.Apps.Evolution.Steps.{
  Life-step, save-At, transition_app-At, same-Evolves, Start-At, get-Start,
}
use open_xai_connect.Reviews.Service.{
  Access, Reviewing, reviewed, asked, require_from, require_reviewer, audit_review,
  refuse_self_review, prepare_review, mark, decide, approve,
}

module _ {H U : Type 0} {good p : Applications → Type 0} (env : Env) (safe : Implies p good) where
  asked-keeps :
      (access : Access U) (subject : String) → Triple {H = H} good p (asked access subject) (λ _. p)
  unfolding asked
  asked-keeps access subject = Triple-bind _ _ (on_users-keeps env safe _) (λ allowed.
      Triple-if allowed _ _ (λ _. Triple-pure tt (λ m h. h))
        (λ _.
          Triple-bind _ _ (on_users-keeps env safe _) (λ admin. Triple-lift _ safe (λ a e m h. h))))

  require_from-keeps :
      (o : Option (Access U)) (subject : String)
      → Triple {H = H} good p (require_from o subject) (λ _. p)
  unfolding require_from
  require_from-keeps none subject = Triple-raise _ safe
  require_from-keeps (some access) subject =
      Triple-if (subject == "") _ _ (λ _. Triple-raise _ safe)
        (λ _. Triple-bind _ _ (asked-keeps access subject) (λ _. Triple-pure access (λ m h. h)))

  refuse_self_review-keeps :
      (access : Access U) (reviewer : String) (app : Application)
      → Triple {H = H} good p (refuse_self_review env access reviewer app) (λ _. p)
  unfolding refuse_self_review
  refuse_self_review-keeps access reviewer app =
      Triple-if (not (app.owner_subject == reviewer)) _ _ (λ _. Triple-pure tt (λ m h. h))
        (λ _.
          Triple-bind _ _ (on_users-keeps env safe _) (λ admin. Triple-lift _ safe (λ a e m h. h)))

  audit_review-keeps :
      (s : Reviewing U) (actor id action : String)
      → Triple {H = H} good p (audit_review env s actor id action) (λ _. p)
  unfolding audit_review
  audit_review-keeps s actor id action =
      Triple-if (not s.has_audit) _ _ (λ _. Triple-pure tt (λ m h. h))
        (λ _. Triple-bind _ _ (draw-keeps env) (λ drawn.
          Triple-bind _ _ (now-keeps env)
            (λ at. Triple-bind _ _ (now-keeps env) (λ filled. on_audit-keeps env safe _))))

module _ {H U : Type 0} (env : Env) (a0 : Applications) (keyed : IsKeyed a0) where
  prepare_review-keeps :
      (s : Reviewing U) (reviewer id reason : String)
      → Triple {H = H}
          (Evolves a0)
          (λ m. m ≡ a0)
          (prepare_review env s reviewer id reason)
          (λ _ m. m ≡ a0)
  unfolding prepare_review require_reviewer
  prepare_review-keeps s reviewer id reason =
      Triple-bind _ _ (require_from-keeps env (same-Evolves a0 keyed) s.access reviewer) (λ access.
        Triple-guard _ _ _ (same-Evolves a0 keyed) (λ _.
          Triple-bind _ _ (get-Start env a0 keyed id) (λ app.
            Triple-pre _ (λ m h. h.0)
              (Triple-bind _ _
                (refuse_self_review-keeps env (same-Evolves a0 keyed) access reviewer app)
                (λ _. Triple-lift _ (same-Evolves a0 keyed) (λ a e m h. h))))))

  -- Save writes the copy that was read before the transition, with the new status.
  mark-Evolves :
      (reviewer id reason : String) (target : ApplicationStatus)
      → Triple {H = H} {U = U}
          (Evolves a0)
          (λ m. m ≡ a0)
          (mark env reviewer id reason target)
          (λ _. Evolves a0)
  unfolding mark reviewed
  mark-Evolves reviewer id reason target = Triple-bind _ _ (get-Start env a0 keyed id) (λ app.
      Triple-const {C = Allowed id (lookup id a0) (some app) × (app.id ≡ id)} _
        (λ m h. (
          At-Allowed a0 id app m (Start-At a0 keyed id app m h),
          At-id a0 id app m (Start-At a0 keyed id app m h),
        ))
        (λ known. Triple-pre _ (Start-At a0 keyed id app) (
          Triple-bind _ _ (now-keeps env) (λ at.
            Triple-bind _ _ (transition_app-At env a0 id app _ target at) (λ moved.
              Triple-const _ (λ m h. h.1)
                (λ moves.
                  Triple-pre _ (λ m h. h.0)
                    (Triple-bind _ _ (now-keeps env) (λ saved_at.
                      Triple-post _ (λ _. At-Evolves a0 id _)
                        (save-At env a0 id moved _ known.1 (
                          Allowed-next id (lookup id a0) app _ known.0 refl refl
                            (Life-step moves.0 refl moves.1)))))))))))

  pub decide-Evolves :
      (s : Reviewing U) (reviewer id reason : String) (target : ApplicationStatus) (action : String)
      → Triple {H = H}
          (Evolves a0)
          (λ m. m ≡ a0)
          (decide env s reviewer id reason target action)
          (λ _. Evolves a0)
  unfolding decide
  decide-Evolves s reviewer id reason target action =
      Triple-bind _ _ (prepare_review-keeps s reviewer id reason) (λ _.
        Triple-bind _ _ (mark-Evolves reviewer id reason target)
          (λ _. audit_review-keeps env (λ m h. h) s reviewer id action))

  pub approve-Evolves :
      (s : Reviewing U) (reviewer id reason : String)
      → Triple {H = H}
          (Evolves a0)
          (λ m. m ≡ a0)
          (approve env s reviewer id reason)
          (λ _. Evolves a0)
  unfolding approve
  approve-Evolves s reviewer id reason =
      Triple-bind _ _ (prepare_review-keeps s reviewer id reason) (λ _.
        Triple-guard _ _ _ (same-Evolves a0 keyed) (λ _.
          Triple-bind _ _ (mark-Evolves reviewer id reason _) (λ _.
            Triple-bind _ _ (draw-keeps env) (λ drawn. Triple-bind _ _ (now-keeps env) (λ available.
              Triple-bind _ _ (now-keeps env) (λ created. Triple-bind _ _ (now-keeps env) (λ made.
                Triple-bind _ _ (on_outbox-keeps env (λ m h. h) _)
                  (λ _. audit_review-keeps env (λ m h. h) s reviewer id _))))))))
