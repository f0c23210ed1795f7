-- ===== src/Oauth/ConsentSafety.antt =====
-- internal/oauth/consent.go: what is true of a consent that the portal hands to Hydra.
use open_xai_connect.Base.{
  nat_eqs, string_eqs, of_not-false, int_eqs, Error, Result, ok, err, refuse_if, String, ◌≡◌, refl,
  sym, ap, ◌∙◌, true, not, subst,
}
use open_xai_connect.Base.Exec.{pure, lift, ◌>>=◌, ◌>>◌}
use open_xai_connect.Base.Cases.{guard-cases, lift-then}
use open_xai_connect.Domain.Application.{Application}
use open_xai_connect.Hydra.Client.{ConsentRequest, Client}
use open_xai_connect.Portal.World.{World, Env, M}
use open_xai_connect.Portal.Frame.{on_hydra-then, on_apps-then}
use open_xai_connect.Store.Applications.{get_by_client_id}
use open_xai_connect.Oauth.Scopes.{filter_scopes}
use open_xai_connect.Oauth.Grant.{app_unavailable, available}
use open_xai_connect.Oauth.Consent.{request_with}

module _ {H U : Type 0} (env : Env) (client : Client H) (challenge : String) where
  -- Hydra's request is for the client of an approved application.
  pub record IsRequested (w : World H U) (request : ConsentRequest) : Type 0 where
    pub app : Application
    pub read : (client.get_consent_request challenge w.hydra).0 ≡ ok request
    pub found : (get_by_client_id request.client.id w.apps).0 ≡ ok app
    pub is_available : available app ≡ true

  -- Hydra was only asked for the request, and the users and the consents are as before.
  abbrev pub OnlyAsked : World H U → World H U → Type 0
  OnlyAsked w w' =
      (w'.hydra ≡ (client.get_consent_request challenge w.hydra).1)
      × (w'.users ≡ w.users)
      × (w'.consents ≡ w.consents)

  abbrev pub RequestEnd : World H U → Result ConsentRequest × World H U → Type 0
  RequestEnd w (r, w') =
      OnlyAsked w w'
      × ((request : ConsentRequest) → r ≡ ok request → IsRequested w request × (w'.apps ≡ w.apps))

  refused_end : (w w' : World H U) (e : Error) → OnlyAsked w w' → RequestEnd w (err e, w')
  refused_end w w' e asked = (asked, λ request x. cc x)

  open_app : ConsentRequest → Application → M H U ConsentRequest
  open_app request app = do lift (refuse_if (not (available app)) app_unavailable); pure request

  open_app-RequestEnd :
      (w w' : World H U) (request : ConsentRequest) (app : Application)
      → OnlyAsked w w'
      → w'.apps ≡ w.apps
      → (client.get_consent_request challenge w.hydra).0 ≡ ok request
      → (get_by_client_id request.client.id w.apps).0 ≡ ok app
      → RequestEnd w (open_app request app w')
  unfolding open_app
  open_app-RequestEnd w w' request app asked held read found =
      guard-cases (RequestEnd w) (not (available app)) app_unavailable (pure request) w'
        (λ _. refused_end w w' app_unavailable asked)
        (λ shown.
          let requested : IsRequested w request = record {
            app = app;
            read = read;
            found = found;
            is_available = of_not-false _ shown;
          } in
          (asked, λ r x. (subst (IsRequested w) (cc x) requested, held)))

  pub request_with-RequestEnd : (w : World H U) → RequestEnd w (request_with env client challenge w)
  unfolding request_with open_app ◌>>=◌ get_by_client_id
  request_with-RequestEnd w =
      on_hydra-then (RequestEnd w) w _ (client.get_consent_request challenge)
        (λ request t e.
          let seen : t ≡ (client.get_consent_request challenge w.hydra).1 = ap (λ p. p.1) (sym e) in
          let w1 : World H U = record w { hydra = t } in
          lift-then (RequestEnd w) w1 _ (filter_scopes request.requested_scope)
            (λ scopes _.
              on_apps-then (RequestEnd w) w1 (open_app request) env _
                (λ app w' found held (a, b, c).
                  open_app-RequestEnd w w' request app (a ∙ seen, b, c) held (ap (λ p. p.0) e)
                    found)
                (λ x w' (a, b, c). refused_end w w' x (a ∙ seen, b, c)))
            (λ x _. refused_end w w1 x (seen, refl, refl)))
        (λ x t e. refused_end w (record w { hydra = t }) x (ap (λ p. p.1) (sym e), refl, refl))
