-- ===== src/Apps/Evolution/Creation.antt =====
-- internal/apps/service.go: CreateDraft changes the applications as `Evolves` allows, whatever fails.
use open_xai_connect.Base.{
  if◌then◌else◌, nat_eqs, string_eqs, Option-cases, trim_space, lookup, int_eqs, String, ◌≡◌, refl,
  inl, inr, not, none, some, List, subst,
}
use open_xai_connect.Base.Exec.{pure, ◌>>◌}
use open_xai_connect.Domain.Status.{status_eqs}
use open_xai_connect.Domain.Application.{Time}
use open_xai_connect.Domain.Lifecycle.{here}
use open_xai_connect.Domain.Library.{Library}
use open_xai_connect.Portal.World.{Env, on_apps}
use open_xai_connect.Portal.Triple.{
  Implies, Triple, Triple-pure, Triple-lift, Triple-if, Triple-guard, Triple-bind, now-keeps,
  draw-keeps, on_apps-Triple,
}
use open_xai_connect.Store.Applications.{
  Applications, with_default_status, with_times, create, count_open_by_owner,
}
use open_xai_connect.Apps.Input.{DraftInput, normalize_domains}
use open_xai_connect.Apps.Deps.{Service, audit_event}
use open_xai_connect.Apps.Evolution.{Allowed, IsKeyed, Evolves, At, At-Evolves, insert-At}
use open_xai_connect.Apps.Evolution.Steps.{ensure_eligible-keeps, audit_event-keeps, same-Evolves}
use open_xai_connect.Apps.Service.{draft_of, start_provisioning, create_draft}
use open_xai_connect.Apps.Evolution.Drafts.{start_provisioning-Evolves}

fresh :
    (a0 : Applications) (id : String) (normalize : List String → List String) (subject : String)
    (at filled : Time) (input : DraftInput)
    → lookup id a0 ≡ none
    → Allowed id
        (lookup id a0)
        (some (with_times filled (draft_of trim_space normalize id subject at input)))
unfolding draft_of with_times
fresh a0 id normalize subject at filled input n = rw n (refl, here)

module _ {H U : Type 0} (env : Env) (a0 : Applications) (keyed : IsKeyed a0) where
  create-At :
      (normalize : List String → List String) (id subject : String) (at filled : Time)
      (input : DraftInput)
      → Triple {H = H} {U = U}
          (Evolves a0)
          (λ m. m ≡ a0)
          (on_apps env (create (draft_of trim_space normalize id subject at input) filled))
          (λ _. At a0 id (with_times filled (draft_of trim_space normalize id subject at input)))
  unfolding draft_of create with_times with_default_status
  create-At normalize id subject at filled input =
      on_apps-Triple env _ (same-Evolves a0 keyed) (λ m e. elim (Option-cases (lookup id m)) [
        | inr (app, l) ↦ rw (l, create) (same-Evolves a0 keyed m e)
        | inl n ↦
            rw (n, create)
              (insert-At a0 id _ m (same-Evolves a0 keyed m e) (
                fresh a0 id normalize subject at filled input
                  (subst (λ x. lookup id x ≡ none) e n)))
      ])

  created-Evolves :
      (go : Library) (s : Service H U) (subject id : String) (at filled : Time) (input : DraftInput)
      → Triple
          (Evolves a0)
          (At a0 id
            (with_times filled (draft_of trim_space (normalize_domains go) id subject at input)))
          (audit_event env s subject id "application.created"
            >> (if not s.require_review
                then start_provisioning env s subject
                    (draft_of trim_space (normalize_domains go) id subject at input)
                else pure (draft_of trim_space (normalize_domains go) id subject at input)))
          (λ _. Evolves a0)
  unfolding draft_of
  created-Evolves go s subject id at filled input =
      Triple-bind _ _ (audit_event-keeps env (At-Evolves a0 id _) s subject id _) (λ _.
        Triple-if (not s.require_review) _ _ (λ _. start_provisioning-Evolves env a0 s subject _ _)
          (λ _. Triple-pure _ (At-Evolves a0 id _)))

  pub create_draft-Evolves :
      (go : Library) (s : Service H U) (subject : String) (input : DraftInput)
      → Triple (Evolves a0) (λ m. m ≡ a0) (create_draft env go s subject input) (λ _. Evolves a0)
  unfolding create_draft count_open_by_owner
  create_draft-Evolves go s subject input =
      Triple-bind _ _ (ensure_eligible-keeps env safe s subject) (λ _. Triple-guard _ _ _ safe (λ _.
        Triple-guard _ _ _ safe (λ _. Triple-bind _ _ counting (λ count.
          Triple-guard _ _ _ safe (λ _. Triple-bind _ _ (Triple-lift _ safe (λ a e m h. h)) (λ _.
            Triple-bind _ _ (now-keeps env) (λ at. Triple-bind _ _ (draw-keeps env) (λ drawn.
              Triple-bind _ _ (Triple-lift _ safe (λ a e m h. h)) (λ id.
                Triple-bind _ _ (now-keeps env) (λ filled.
                  Triple-bind _ _ (create-At (normalize_domains go) id subject at filled input)
                    (λ _. created-Evolves go s subject id at filled input)))))))))))
    where
      safe : Implies (λ m. m ≡ a0) (Evolves a0)
      safe = same-Evolves a0 keyed

      counting :
          Triple {H = H} {U = U}
            (Evolves a0)
            (λ m. m ≡ a0)
            (on_apps env (count_open_by_owner subject))
            (λ _ m. m ≡ a0)
      counting = on_apps-Triple env _ safe (λ m e. e)
