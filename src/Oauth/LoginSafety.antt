-- ===== src/Oauth/LoginSafety.antt =====
-- internal/oauth/login_service.go: what is true of a login that the portal accepts at Hydra.
use open_xai_connect.Base.{
  nat_eqs, string_eqs, of_not-false, int_eqs, Error, wrapped, Result, ok, err, Check, String, ◌≡◌,
  refl, sym, ap, ◌∙◌, ◌⊎◌, inl, inr, Bool, true, false, not, some, subst,
}
use open_xai_connect.Base.Exec.{renamed, pure, lift, failing_as, continue, ◌>>=◌}
use open_xai_connect.Base.Cases.{guard-cases, bind-cases, lift-then}
use open_xai_connect.Domain.Application.{Duration, Application}
use open_xai_connect.Domain.Library.{Url, Library}
use open_xai_connect.Hydra.Client.{LoginRequest, Client}
use open_xai_connect.Portal.Frame.{on_apps-cases, on_hydra-then, on_users-then}
use open_xai_connect.Portal.World.{World, Env, StatusLookup, M, on_hydra}
use open_xai_connect.Store.Applications.{Applications, get_by_client_id}
use open_xai_connect.Identity.StatusSnapshot.{StatusSnapshot, can_authenticate}
use open_xai_connect.Oauth.Request.{validate_login_request_with_pkce_nonce}
use open_xai_connect.Oauth.Accepted.{IsAccepted, validate-IsAccepted}
use open_xai_connect.Oauth.Login.{
  login_denied, denied, login_acceptance, other_subject, accept_login_of, requires_pkce_nonce,
  begin_with, complete,
}

-- Where the setting comes from: it is on without applications, and otherwise the application's.
abbrev pub RequiredBy : Bool → String → Applications → Bool → Type 0
RequiredBy has_apps client_id held require =
    ((has_apps ≡ false) × (require ≡ true))
    ⊎ ((app : Application) × ((get_by_client_id client_id held).0 ≡ ok app)
        × (app.require_pkce_nonce ≡ require))

denied-passed : (c : Check) (u : Unit {0}) → denied c ≡ ok u → c ≡ ok tt
unfolding denied
denied-passed (ok tt) u h = refl
denied-passed (err e) u h = cc h

module _ {H U : Type 0} (go : Library) (env : Env) (client : Client H) (has_apps : Bool)
    (challenge : String) where
  requires-cases :
      (P : Result Bool × World H U → Type 0) (shown : Bool) (client_id : String) (w : World H U)
      → ((require : Bool) (w' : World H U)
          → RequiredBy shown client_id w.apps require
          → w'.hydra ≡ w.hydra
          → w'.users ≡ w.users
          → P (ok require, w'))
      → ((e : Error) (w' : World H U) → w'.hydra ≡ w.hydra → w'.users ≡ w.users → P (err e, w'))
      → P (requires_pkce_nonce go env shown client_id w)
  unfolding requires_pkce_nonce failing_as ◌>>=◌
  requires-cases P false client_id w h k = h true w (inl (refl, refl)) refl refl
  requires-cases P true client_id w h k =
      on_apps-cases
        (λ p. P (
          continue (renamed (λ e. wrapped e "load OAuth application settings") p.0)
            (λ app. pure app.require_pkce_nonce) p.1))
        w env (get_by_client_id client_id)
        (λ app w' found held (same_hydra, same_users, _).
          h app.require_pkce_nonce w' (inr (app, found, refl)) same_hydra same_users)
        (λ e w' (same_hydra, same_users, _). k _ w' same_hydra same_users)

  -- What a request that passed the checks of Begin is.
  pub record IsBegun (w : World H U) (request : LoginRequest) : Type 0 where
    pub require : Bool
    pub parsed : Url
    pub read : (client.get_login_request challenge w.hydra).0 ≡ ok request
    pub setting : RequiredBy has_apps request.client.id w.apps require
    pub parses : go.parse_url request.request_url ≡ some parsed
    pub accepted : IsAccepted request require parsed

  abbrev pub BeginEnd : World H U → Result LoginRequest × World H U → Type 0
  BeginEnd w (r, w') =
      (w'.hydra ≡ (client.get_login_request challenge w.hydra).1)
      × (w'.users ≡ w.users)
      × ((request : LoginRequest) → r ≡ ok request → IsBegun w request)

  check : LoginRequest → Bool → M H U LoginRequest
  check request require = do
    _ ← lift (denied (validate_login_request_with_pkce_nonce go request require))
    pure request

  check-BeginEnd :
      (w w' : World H U) (request : LoginRequest) (require : Bool)
      → w'.hydra ≡ (client.get_login_request challenge w.hydra).1
      → w'.users ≡ w.users
      → (client.get_login_request challenge w.hydra).0 ≡ ok request
      → RequiredBy has_apps request.client.id w.apps require
      → BeginEnd w (check request require w')
  unfolding check
  check-BeginEnd w w' request require h u read setting =
      lift-then (BeginEnd w) w' (λ _. pure request)
        (denied (validate_login_request_with_pkce_nonce go request require))
        (λ b checked.
          let (parsed, parses, accepted) =
            validate-IsAccepted go request require (
              denied-passed (validate_login_request_with_pkce_nonce go request require) b
                checked) in
          let begun : IsBegun w request = record {
            require = require;
            parsed = parsed;
            read = read;
            setting = setting;
            parses = parses;
            accepted = accepted;
          } in
          (h, u, λ r x. subst (IsBegun w) (cc x) begun))
        (λ e _. (h, u, λ r x. cc x))

  pub begin_with-BeginEnd :
      (w : World H U) → BeginEnd w (begin_with go env client has_apps challenge w)
  unfolding begin_with check ◌>>=◌
  begin_with-BeginEnd w =
      on_hydra-then (BeginEnd w) w _ _
        (λ request t e.
          let seen : t ≡ (client.get_login_request challenge w.hydra).1 = ap (λ p. p.1) (sym e) in
          requires-cases (λ p. BeginEnd w (continue p.0 (check request) p.1)) has_apps
            request.client.id (record w { hydra = t })
            (λ require w' setting h u.
              check-BeginEnd w w' request require (h ∙ seen) u (ap (λ p. p.0) e) setting)
            (λ x w' h u. (h ∙ seen, u, λ r y. cc y)))
        (λ x t e. (ap (λ p. p.1) (sym e), refl, λ r h. cc h))

module _ {H U : Type 0} (go : Library) (env : Env) (client : Client H) (status : StatusLookup U)
    (has_apps : Bool) (remember_for : Duration) (challenge subject : String) where
  -- A login that the portal may accept: the request passed the checks, it is for the subject, whose
  -- current status allows it; `answer` is what Hydra answered to that acceptance, and `left` the state
  -- that it left.
  pub record IsVouched (w : World H U) (answer : Result String) (left : H) : Type 0 where
    pub request : LoginRequest
    pub current : StatusSnapshot
    pub begun : IsBegun go env client has_apps challenge w request
    pub same_subject : other_subject subject request ≡ false
    pub known : (status subject w.users).0 ≡ ok current
    pub may_authenticate : can_authenticate current ≡ true
    pub handed :
        client.accept_login challenge
          (login_acceptance remember_for subject request)
          (client.get_login_request challenge w.hydra).1
        ≡ (answer, left)

  -- How a login may end: it fails and Hydra was only asked for the request, or Hydra's answer to a
  -- vouched acceptance is passed on.
  abbrev pub LoginEnd : World H U → Result String × World H U → Type 0
  LoginEnd w (r, w') =
      ((e : Error) × (r ≡ err e) × (w'.hydra ≡ (client.get_login_request challenge w.hydra).1))
      ⊎ IsVouched w r w'.hydra

  -- However a login is completed, either the call fails and Hydra was only asked for the login
  -- request, or Hydra was handed one acceptance and its answer is returned: then the request passed
  -- every check of IsAccepted, with PKCE and a nonce required as the application says or where
  -- there is no application repository, it is for the given non-empty subject, and the current
  -- status of that subject may authenticate.
  pub complete-LoginEnd :
      (w : World H U)
      → LoginEnd w (
          complete go env
            (record {
              hydra = some client;
              status = some status;
              has_apps = has_apps;
              remember_for = remember_for;
            })
            challenge
            subject
            w)
  unfolding complete accept_login_of on_hydra ◌>>=◌
  complete-LoginEnd w =
      bind-cases (LoginEnd w) (begin_with go env client has_apps challenge)
        (accept_login_of client status remember_for challenge subject) w
        (λ request w' e.
          let (h, u, begun) =
            subst (BeginEnd go env client has_apps challenge w) e
              (begin_with-BeginEnd go env client has_apps challenge w) in
          guard-cases (LoginEnd w) (other_subject subject request) login_denied _ w'
            (λ _. inl (_, refl, h))
            (λ same.
              on_users-then (LoginEnd w) w' _ (status subject)
                (λ current t known.
                  guard-cases (LoginEnd w) (not (can_authenticate current)) login_denied _ _
                    (λ _. inl (_, refl, h))
                    (λ may. inr (record {
                      request = request;
                      current = current;
                      begun = begun request refl;
                      same_subject = same;
                      known = ap (λ x. (status subject x).0) (sym u) ∙ ap (λ p. p.0) known;
                      may_authenticate = of_not-false _ may;
                      handed =
                          ap
                            (client.accept_login challenge
                              (login_acceptance remember_for subject request))
                            (sym h);
                    })))
                (λ x t _. inl (x, refl, h))))
        (λ x w' e.
          let (h, u, begun) =
            subst (BeginEnd go env client has_apps challenge w) e
              (begin_with-BeginEnd go env client has_apps challenge w) in
          inl (x, refl, h))
