-- ===== src/Oauth/Released.antt =====
-- internal/oauth/userinfo.go: for which tokens claims are released.
use open_xai_connect.Base.{
  ◌==◌, nat_eqs, string_eqs, of_not-false, fields, int_eqs, Result, ok, String, ◌≡◌, ap, ◌∙◌, true,
  false, not, some, List, subst,
}
use open_xai_connect.Base.Exec.{Exec, failing_as, ◌>>=◌}
use open_xai_connect.Base.Cases.{renamed-passed, guard-cases, lift-then}
use open_xai_connect.Domain.Application.{Application}
use open_xai_connect.Domain.Status.{ApplicationStatus, status_eqs}
use open_xai_connect.Domain.User.{User}
use open_xai_connect.Hydra.Client.{TokenIntrospection, Client}
use open_xai_connect.Identity.StatusSnapshot.{StatusSnapshot, can_authenticate}
use open_xai_connect.Portal.World.{World, Env, StatusLookup}
use open_xai_connect.Portal.Frame.{on_hydra-then, on_users-then, on_apps-then}
use open_xai_connect.Store.Applications.{get_by_client_id}
use open_xai_connect.Oauth.Scopes.{filter_scopes}
use open_xai_connect.Oauth.Scopes.Laws.{filter_scopes_sound}
use open_xai_connect.Oauth.Scoped.{IsScoped, claims_of-IsScoped}
use open_xai_connect.Oauth.UserInfo.{
  unauthorized, Claims, claims_of, inactive, claims_for, claims_with, claims,
}

module _ {U : Type 0} (status : StatusLookup U) (users : String → Exec U User) where
  -- The user of the token may authenticate, and each claim belongs to a scope of the token.
  pub record IsKnown (before : U) (introspection : TokenIntrospection) (released : Claims)
      : Type 0 where
    pub current : StatusSnapshot
    pub known : (status introspection.subject before).0 ≡ ok current
    pub may_authenticate : can_authenticate current ≡ true
    pub user : User
    pub known_user :
        (users introspection.subject (status introspection.subject before).1).0 ≡ ok user
    pub scopes : List String
    pub filtered : filter_scopes (fields introspection.scope) ≡ ok scopes
    pub released_as : released ≡ claims_of introspection.subject scopes user current
    pub scoped : IsScoped scopes released

module _ {H U : Type 0} (status : StatusLookup U) (users : String → Exec U User) where
  abbrev KnownEnd : U → TokenIntrospection → Result Claims × World H U → Type 0
  KnownEnd before introspection (r, w') =
      (released : Claims) → r ≡ ok released → IsKnown status users before introspection released

  claims_for-KnownEnd :
      (introspection : TokenIntrospection) (w : World H U)
      → KnownEnd w.users introspection (claims_for status users introspection w)
  unfolding claims_for ◌>>=◌
  claims_for-KnownEnd introspection w =
      let End = KnownEnd w.users introspection in
      let subject = introspection.subject in
      on_users-then End w _ (status subject)
        (λ current t known.
          let w1 : World H U = record w { users = t } in
          guard-cases End (not (can_authenticate current)) unauthorized _ w1 (λ _ r x. cc x)
            (λ may.
              on_users-then End w1 _ (users subject)
                (λ user t' found.
                  let w2 : World H U = record w1 { users = t' } in
                  lift-then End w2 _ (filter_scopes (fields introspection.scope))
                    (λ scopes filtered released e. record {
                      current = current;
                      known = ap (λ p. p.0) known;
                      may_authenticate = of_not-false _ may;
                      user = user;
                      known_user = ap (λ p. (users subject p.1).0) known ∙ ap (λ p. p.0) found;
                      scopes = scopes;
                      filtered = filtered;
                      released_as = cc e;
                      scoped = subst (IsScoped scopes) (cc e) (
                          claims_of-IsScoped subject scopes user current
                            (filter_scopes_sound _ scopes filtered).3);
                    })
                    (λ x _ r y. cc y))
                (λ x _ _ r y. cc y)))
        (λ x _ _ r y. cc y)

module _ {H U : Type 0} (env : Env) (client : Client H) (status : StatusLookup U)
    (users : String → Exec U User) (token : String) where
  -- Hydra knows the token as active, and it belongs to an approved application.
  pub record IsInformed (w : World H U) (released : Claims) : Type 0 where
    pub introspection : TokenIntrospection
    pub read : (client.introspect_token token w.hydra).0 ≡ ok introspection
    pub is_active : inactive introspection ≡ false
    pub app : Application
    pub found : (get_by_client_id introspection.client_id w.apps).0 ≡ ok app
    pub approved : app.status ≡ ApplicationStatus.approved
    pub known : IsKnown status users w.users introspection released

  abbrev InfoEnd : World H U → Result Claims × World H U → Type 0
  InfoEnd w (r, w') = (released : Claims) → r ≡ ok released → IsInformed w released

  claims_with-InfoEnd : (w : World H U) → InfoEnd w (claims_with env client status users token w)
  unfolding claims_with ◌>>=◌
  claims_with-InfoEnd w =
      on_hydra-then (InfoEnd w) w _ (client.introspect_token token)
        (λ introspection t e.
          let w1 : World H U = record w { hydra = t } in
          guard-cases (InfoEnd w) (inactive introspection) unauthorized _ w1 (λ _ r x. cc x)
            (λ is_active.
              on_apps-then (InfoEnd w) w1 _ env (get_by_client_id introspection.client_id)
                (λ app w2 found _ (_, same, _).
                  guard-cases (InfoEnd w) (not (app.status == ApplicationStatus.approved))
                    unauthorized _ w2 (λ _ r x. cc x)
                    (λ approved released x. record {
                      introspection = introspection;
                      read = ap (λ p. p.0) e;
                      is_active = is_active;
                      app = app;
                      found = found;
                      approved =
                          (status_eqs.beq_iff app.status ApplicationStatus.approved).0
                            (of_not-false _ approved);
                      known =
                          subst (λ u. IsKnown status users u introspection released) same
                            (claims_for-KnownEnd {H = H} status users introspection w2 released x);
                    }))
                (λ x w2 _ r y. cc y)))
        (λ x t _ r y. cc y)

  -- Claims are released only for a token that Hydra reports as active, for an approved application
  -- and a user whose current status may authenticate, and each released claim belongs to a scope of
  -- the token.
  pub claims-IsInformed :
      (w w' : World H U) (released : Claims)
      → claims env
          (record {
            hydra = some client;
            status = some status;
            users = some users;
            has_apps = true;
          })
          token
          w
        ≡ (ok released, w')
      → IsInformed w released
  unfolding claims failing_as
  claims-IsInformed w w' released h = claims_with-InfoEnd w released (
      renamed-passed (λ e. unauthorized) (claims_with env client status users token w).0 released
        (ap (λ p. p.0) h))
